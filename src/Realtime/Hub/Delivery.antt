-- ===== src/Realtime/Hub/Delivery.antt =====
-- What a broadcast does, and what the hub keeps for it.
use Prim.Native.Nat.{ℕ}
use inline_chat.Prelude.{
  String, Bool, true, false, not, ◌&&◌, Option, none, some, List, [], ◌∷◌, filter, ◌==◌, ==_iff,
  ◌≡◌, refl, sym, ap, ◌∙◌, arith, if◌then◌else◌, All, eq_iff, inl, inr, Bool-cases, ◌++◌, subst,
  length, ◌<◌, ◌≤◌, ltb, ◌⊎◌,
}
use inline_chat.Prelude.Keyed.{lookup, All-remove}
use inline_chat.Realtime.Hub.{
  Hub, new_hub, has_client, add_client, drop_client, bucket, bucket_or_empty, put_bucket, drop_from,
  register, unregister, Clients, put, offer, send_each, broadcast,
}
use inline_chat.Realtime.Hub.Subscriptions.{
  Step, run, run_set, member, run-run_set, registers, unregisters,
}
use inline_chat.Realtime.Client.{capacity, Client}

-- No client twice.
abbrev pub distinct : List ℕ → Bool
distinct [] = true
distinct (c ∷ cs) = not (has_client c cs) && distinct cs

abbrev pub no_clients : List ℕ → Bool
no_clients [] = true
no_clients (c ∷ cs) = false

abbrev pub Kept : String × List ℕ → Type 0
Kept (conversation, ds) = (no_clients ds ≡ false) × (distinct ds ≡ true)

-- No bucket is empty, and no client stands in one twice.
abbrev pub IsTidy : Hub → Type 0
IsTidy h = All Kept h.clients

distinct-add : (c : ℕ) (ds : List ℕ) → distinct ds ≡ true → distinct (add_client c ds) ≡ true
distinct-add c ds h = ground (arith, h)

add-kept : (c : ℕ) (ds : List ℕ) → no_clients (add_client c ds) ≡ false
add-kept c [] = refl
add-kept c (d ∷ ds) = ground arith

has_client-filter :
    (p : ℕ → Bool) (c : ℕ) (ds : List ℕ)
    → has_client c ds ≡ false
    → has_client c (filter p ds) ≡ false
has_client-filter p c [] h = refl
has_client-filter p c (d ∷ ds) h = ground (arith, has_client-filter p c ds)

distinct-filter : (p : ℕ → Bool) (ds : List ℕ) → distinct ds ≡ true → distinct (filter p ds) ≡ true
distinct-filter p [] h = refl
distinct-filter p (d ∷ ds) h = ground (arith, distinct-filter p ds, has_client-filter p d ds)

lookup-distinct :
    (v : String) (m : List (String × List ℕ))
    → All Kept m
    → distinct (bucket_or_empty (lookup v m)) ≡ true
lookup-distinct v [] h = refl
lookup-distinct v ((k, ds) ∷ m) h = ground (arith, h.0.1, lookup-distinct v m h.1)

register-IsTidy : (v : String) (c : ℕ) (h : Hub) → IsTidy h → IsTidy (register v c h)
unfolding register
register-IsTidy v c h tidy = (
  (add-kept c (bucket v h), distinct-add c (bucket v h) (lookup-distinct v h.clients tidy)),
  All-remove Kept v h.clients tidy,
)

put_bucket-Kept :
    (v : String) (ds : List ℕ) (m : List (String × List ℕ))
    → distinct ds ≡ true
    → All Kept m
    → All Kept (put_bucket v ds m)
put_bucket-Kept v [] m fine kept = All-remove Kept v m kept
put_bucket-Kept v (d ∷ ds) m fine kept = ((refl, fine), All-remove Kept v m kept)

drop_from-IsTidy :
    (v : String) (c : ℕ) (o : Option (List ℕ)) (h : Hub)
    → lookup v h.clients ≡ o
    → IsTidy h
    → IsTidy (drop_from v c o h)
drop_from-IsTidy v c none h e tidy = tidy
drop_from-IsTidy v c (some ds) h e tidy =
    put_bucket-Kept v (drop_client c ds) h.clients
      (distinct-filter _ ds
        (ap (λ o. distinct (bucket_or_empty o)) (sym e) ∙ lookup-distinct v h.clients tidy))
      tidy

unregister-IsTidy : (v : String) (c : ℕ) (h : Hub) → IsTidy h → IsTidy (unregister v c h)
unfolding unregister
unregister-IsTidy v c h tidy = drop_from-IsTidy v c (lookup v h.clients) h refl tidy

run-IsTidy : (steps : List Step) (h : Hub) → IsTidy h → IsTidy (run steps h)
unfolding run
run-IsTidy [] h tidy = tidy
run-IsTidy (registers v c ∷ steps) h tidy = run-IsTidy steps _ (register-IsTidy v c h tidy)
run-IsTidy (unregisters v c ∷ steps) h tidy = run-IsTidy steps _ (unregister-IsTidy v c h tidy)

empty-clients :
    (m : List (String × List ℕ))
    → All Kept m
    → ((v : String) (c : ℕ) → member v c (record { clients = m }) ≡ false)
    → m ≡ []
empty-clients [] kept gone = refl
empty-clients ((v, []) ∷ m) kept gone = absurd (ground (arith, kept.0.0))
empty-clients ((v, d ∷ ds) ∷ m) kept gone = absurd (ground (arith, gone v d, (eq_iff v v).1 refl))

-- When the changes leave no pair, the hub keeps nothing, not even an empty bucket.
pub run-empty :
    (steps : List Step)
    → ((v : String) (c : ℕ) → run_set steps (λ v' c'. false) v c ≡ false)
    → run steps new_hub ≡ new_hub
run-empty steps gone =
    ap (λ m. record { clients = m })
      (empty-clients (run steps new_hub).clients (run-IsTidy steps new_hub tt)
        (λ v c. run-run_set steps v c ∙ gone v c))

send_each-other :
    (payload : String) (ps : List ℕ) (cs : Clients) (q : ℕ)
    → has_client q ps ≡ false
    → send_each payload ps cs q ≡ cs q
send_each-other payload [] cs q h = refl
send_each-other payload (p ∷ ps) cs q h =
    send_each-other payload ps (put p (offer payload (cs p)) cs) q (ground (arith, h))
    ∙ ground (arith, h)

send_each-offer :
    (payload : String) (ps : List ℕ) (cs : Clients) (q : ℕ)
    → distinct ps ≡ true
    → send_each payload ps cs q ≡ (if has_client q ps then offer payload (cs q) else cs q)
send_each-offer payload [] cs q h = refl
send_each-offer payload (p ∷ ps) cs q h = elim (Bool-cases (p == q)) [
  | inl e ↦
      let same : p ≡ q = (==_iff p q).0 e in
      send_each-other payload ps (put p (offer payload (cs p)) cs) q
        (ap (λ x. has_client x ps) (sym same) ∙ ground (arith, h))
      ∙ rw e (ap (λ x. offer payload (cs x)) same)
  | inr e ↦
      send_each-offer payload ps (put p (offer payload (cs p)) cs) q (ground (arith, h)) ∙ rw e refl
]

-- A client before and after a payload is sent to it: it takes the payload last in its queue, or it is
-- closed or full, and then it keeps its queue and is closed.
abbrev pub IsReached : String → Client → Client → Type 0
IsReached payload c c' =
    ((c.closed ≡ false)
      × (length c.send < capacity)
      × (c'.send ≡ c.send ++ (payload ∷ []))
      × (c'.closed ≡ false))
    ⊎ (((c.closed ≡ true) ⊎ (capacity ≤ length c.send)) × (c'.send ≡ c.send) × (c'.closed ≡ true))

offer-IsReached : (payload : String) (c : Client) → IsReached payload c (offer payload c)
offer-IsReached payload c = elim (Bool-cases c.closed) [
  | inl shut ↦ inr (inl shut, ground (arith, shut), ground (arith, shut))
  | inr alive ↦ elim (Bool-cases (ltb (length c.send) capacity)) [
    | inl room ↦
        inl (alive, ground (arith, room), ground (arith, alive, room), ground (arith, alive, room))
    | inr full ↦
        inr (inr (ground (arith, full)), ground (arith, alive, full), ground (arith, alive, full))
  ]
]

sent_to :
    (steps : List Step) (v payload : String) (cs : Clients) (q : ℕ)
    → broadcast v payload (run steps new_hub) cs q
      ≡ (if run_set steps (λ v' c'. false) v q then offer payload (cs q) else cs q)
unfolding broadcast
sent_to steps v payload cs q =
    send_each-offer payload (bucket v (run steps new_hub)) cs q
      (lookup-distinct v (run steps new_hub).clients (run-IsTidy steps new_hub tt))
    ∙ ap (λ b. if b then offer payload (cs q) else cs q) (run-run_set steps v q)

-- A broadcast reaches each client that takes part in the conversation once, whatever came before: one
-- that is open and has room has the payload last in its queue and stays open, one that is closed or full
-- keeps its queue and is closed. The other clients keep what they have.
pub broadcast-IsReached :
    (steps : List Step) (v payload : String) (cs : Clients) (q : ℕ)
    → ((run_set steps (λ v' c'. false) v q ≡ true)
        × IsReached payload (cs q) (broadcast v payload (run steps new_hub) cs q))
      ⊎ ((run_set steps (λ v' c'. false) v q ≡ false)
          × (broadcast v payload (run steps new_hub) cs q ≡ cs q))
broadcast-IsReached steps v payload cs q =
    let sent = sent_to steps v payload cs q in
    elim (Bool-cases (run_set steps (λ v' c'. false) v q)) [
      | inl among ↦ inl (
        among,
        subst (IsReached payload (cs q))
            (sym (sent ∙ ap (λ b. if b then offer payload (cs q) else cs q) among))
            (offer-IsReached payload (cs q)),
      )
      | inr apart ↦ inr (apart, sent ∙ ap (λ b. if b then offer payload (cs q) else cs q) apart)
    ]
