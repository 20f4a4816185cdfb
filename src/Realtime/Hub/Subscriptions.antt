-- ===== src/Realtime/Hub/Subscriptions.antt =====
-- The hub against the set of subscriptions that it stands for.
use Prim.Native.Nat.{ℕ}
use inline_chat.Prelude.{
  String, Bool, true, false, not, ◌||◌, ◌&&◌, Option, none, some, List, [], ◌∷◌, ◌==◌, ==_iff, ◌≡◌,
  refl, ap, ◌∙◌, arith, if◌then◌else◌, str_eq, eq_iff, inl, inr, Bool-cases, sym,
}
use inline_chat.Prelude.Keyed.{lookup, lookup-assign, lookup-remove}
use inline_chat.Realtime.Hub.{
  Hub, new_hub, has_client, add_client, drop_client, bucket, bucket_or_empty, put_bucket, drop_from,
  register, unregister,
}

-- A client takes part in a conversation.
abbrev pub member : String → ℕ → Hub → Bool
member conversation c h = has_client c (bucket conversation h)

has_client-add :
    (c c' : ℕ) (ds : List ℕ) → has_client c' (add_client c ds) ≡ (c == c' || has_client c' ds)
has_client-add c c' ds = elim (Bool-cases (c == c')) [
  | inl e ↦ ground (arith, e, ap (λ x. has_client x ds) ((==_iff c c').0 e))
  | inr e ↦ ground (arith, e)
]

has_client-drop :
    (c c' : ℕ) (ds : List ℕ)
    → has_client c' (drop_client c ds) ≡ (has_client c' ds && not (c == c'))
has_client-drop c c' [] = refl
has_client-drop c c' (d ∷ ds) = ground (arith, has_client-drop c c' ds)

bucket-same : (v v' : String) (h : Hub) → str_eq v v' ≡ true → bucket v h ≡ bucket v' h
bucket-same v v' h e = ap (λ x. bucket x h) ((eq_iff v v').0 e)

pub member-register :
    (v v' : String) (c c' : ℕ) (h : Hub)
    → member v' c' (register v c h) ≡ ((str_eq v v' && c == c') || member v' c' h)
unfolding register
member-register v v' c c' h = elim (Bool-cases (str_eq v v')) [
  | inl e ↦
      ap (λ o. has_client c' (bucket_or_empty o))
        (lookup-assign v v' (add_client c (bucket v h)) h.clients)
      ∙ rw e (
          has_client-add c c' (bucket v h)
          ∙ ap (λ b. c == c' || has_client c' b) (bucket-same v v' h e))
  | inr e ↦
      ap (λ o. has_client c' (bucket_or_empty o))
        (lookup-assign v v' (add_client c (bucket v h)) h.clients)
      ∙ rw e refl
]

lookup-put_bucket :
    (v v' : String) (ds : List ℕ) (m : List (String × List ℕ))
    → bucket_or_empty (lookup v' (put_bucket v ds m))
      ≡ (if str_eq v v' then ds else bucket_or_empty (lookup v' m))
lookup-put_bucket v v' [] m = ground (arith, lookup-remove v v' m)
lookup-put_bucket v v' (d ∷ ds) m = ground (arith, lookup-assign v v' (d ∷ ds) m)

member-drop_from :
    (v v' : String) (c c' : ℕ) (o : Option (List ℕ)) (h : Hub)
    → lookup v h.clients ≡ o
    → member v' c' (drop_from v c o h) ≡ (member v' c' h && not (str_eq v v' && c == c'))
member-drop_from v v' c c' none h e = elim (Bool-cases (str_eq v v')) [
  | inl same ↦
      let gone : member v' c' h ≡ false =
        ap (has_client c') (sym (bucket-same v v' h same) ∙ ap bucket_or_empty e) in
      ground (arith, gone)
  | inr other ↦ ground (arith, other)
]
member-drop_from v v' c c' (some ds) h e = elim (Bool-cases (str_eq v v')) [
  | inl same ↦
      ap (has_client c') (lookup-put_bucket v v' (drop_client c ds) h.clients)
      ∙ rw same (
          has_client-drop c c' ds
          ∙ ap (λ b. has_client c' b && not (c == c'))
              (sym (ap bucket_or_empty e) ∙ bucket-same v v' h same))
  | inr other ↦
      ap (has_client c') (lookup-put_bucket v v' (drop_client c ds) h.clients)
      ∙ ground (arith, other)
]

pub member-unregister :
    (v v' : String) (c c' : ℕ) (h : Hub)
    → member v' c' (unregister v c h) ≡ (member v' c' h && not (str_eq v v' && c == c'))
unfolding unregister
member-unregister v v' c c' h = member-drop_from v v' c c' (lookup v h.clients) h refl

-- What is done to a hub, and to a set of pairs.
pub data Step : Type 0 where
  registers unregisters : String → ℕ → Step

unfoldable pub run : List Step → Hub → Hub
unfolding register unregister
run [] h = h
run (registers v c ∷ steps) h = run steps (register v c h)
run (unregisters v c ∷ steps) h = run steps (unregister v c h)

abbrev pub run_set : List Step → (String → ℕ → Bool) → String → ℕ → Bool
run_set [] s = s
run_set (registers v c ∷ steps) s = run_set steps (λ v' c'. (str_eq v v' && c == c') || s v' c')
run_set (unregisters v c ∷ steps) s =
    run_set steps (λ v' c'. s v' c' && not (str_eq v v' && c == c'))

simulates :
    (steps : List Step) (h : Hub) (s : String → ℕ → Bool)
    → ((v : String) (c : ℕ) → member v c h ≡ s v c)
    → (v : String) (c : ℕ) → member v c (run steps h) ≡ run_set steps s v c
unfolding run
simulates [] h s related = related
simulates (registers v c ∷ steps) h s related =
    simulates steps (register v c h) _ (λ v' c'.
      member-register v v' c c' h ∙ ap (λ b. (str_eq v v' && c == c') || b) (related v' c'))
simulates (unregisters v c ∷ steps) h s related = simulates steps (unregister v c h) _ (λ v' c'.
    member-unregister v v' c c' h ∙ ap (λ b. b && not (str_eq v v' && c == c')) (related v' c'))

-- After any registrations and unregistrations, the hub's buckets hold exactly the pairs that the same
-- changes leave in a set.
pub run-run_set :
    (steps : List Step) (v : String) (c : ℕ)
    → member v c (run steps new_hub) ≡ run_set steps (λ v' c'. false) v c
run-run_set steps v c = simulates steps new_hub (λ v' c'. false) (λ v' c'. refl) v c
