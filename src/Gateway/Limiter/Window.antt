-- ===== src/Gateway/Limiter/Window.antt =====
-- Requests of all callers at all times, before the counter of redis_counter.go.
use Prim.Native.Nat.{ℕ, min}
use inline_chat.Gateway.Limiter.{
  Limiter, TokenBucket, Distributed, allow, allow_key, decide, allow_distributed, ask, closed,
  distributed_key, second,
}
use inline_chat.Prelude.{
  suc, ◌/◌, ◌-◌, ◌%◌, ◌≤◌, if◌then◌else◌, ◌&&◌, ◌==◌, ◌+◌, ◌∙◌, String, str_eq, Bool, List, ◌∷◌,
  ◌≡◌, [], false, true, some, refl, All, leb, arith, Bool-cases, inl, inr, sym, eq_iff, ==_iff, ap,
}
use inline_chat.Prelude.Text.{trim_space, to_lower}
use inline_chat.Gateway.Limiter.Keys.{
  epoch, distributed_key-injective, window_start-injective, distributed_key-same, window_start-same,
}
use inline_chat.Errors.{ok}

-- The time of a request and the key that it names.
abbrev pub Request : Type 0
Request = ℕ × String

-- How often the counter has been asked for each of its keys. A key expires a window and a minute after
-- it was asked for last, so not within its window.
abbrev pub Counts : Type 0
Counts = String → ℕ

abbrev pub increment : String → Counts → Counts
increment k counts j = if str_eq k j then suc (counts j) else counts j

-- The request falls into the window of that number and names that key, but for spaces and case.
abbrev pub is_under : Distributed → String → ℕ → Request → Bool
is_under d key number (now, raw) =
    str_eq (trim_space (to_lower raw)) key && now / d.window == number

abbrev pub asked : Distributed → String → ℕ → List Request → ℕ
asked d key number [] = 0
asked d key number (r ∷ rs) = (if is_under d key number r then 1 else 0) + asked d key number rs

-- The counts after a request; one without a key does not ask.
abbrev pub count : Distributed → Request → Counts → Counts
count d (now, raw) counts =
    let name = trim_space (to_lower raw) in
    if str_eq name "" then counts else increment (distributed_key d now name) counts

-- All windows begin after 1970.
abbrev pub IsRecent : Distributed → Request → Type 0
IsRecent d (now, raw) = epoch ≤ now - now % d.window

module _ {B : Type 0} (rate : TokenBucket B) where
  -- How many of the requests under a key in a window pass, when all of them are served in turn.
  abbrev pub passed : Distributed → String → ℕ → List Request → Counts → Limiter B → ℕ
  unfolding allow
  passed d key number [] counts l = 0
  passed d key number ((now, raw) ∷ rs) counts l =
      let (allowed, l') = allow rate now (λ k ttl. ok (suc (counts k))) raw l in
      (if is_under d key number (now, raw) && allowed then 1 else 0)
      + passed d key number rs (count d (now, raw) counts) l'

  allow-counted :
      (now : ℕ) (raw : String) (counts : Counts) (d : Distributed) (l : Limiter B)
      → str_eq (trim_space (to_lower raw)) "" ≡ false
      → l.distributed ≡ some d
      → l.circuit ≡ closed
      → allow rate now (λ k ttl. ok (suc (counts k))) raw l ≡ (
        leb (suc (counts (distributed_key d now (trim_space (to_lower raw))))) d.limit,
        record l { circuit = closed },
      )
  unfolding allow allow_key decide allow_distributed ask
  allow-counted now raw counts d l named some_d still = rw (named, some_d, still) refl

  allow-bare :
      (now : ℕ) (raw : String) (counts : Counts) (l : Limiter B)
      → str_eq (trim_space (to_lower raw)) "" ≡ true
      → allow rate now (λ k ttl. ok (suc (counts k))) raw l ≡ (true, l)
  unfolding allow
  allow-bare now raw counts l bare = rw (bare, allow) refl

  module _ (d : Distributed) (key : String) (number : ℕ) (wide : second ≤ d.window)
      (keyed : str_eq key "" ≡ false) where
    -- The key of the counter that stands for the window and the key.
    abbrev IsKey : String → Type 0
    IsKey k =
        (now : ℕ)
        → epoch ≤ now - now % d.window
        → (name : String)
        → str_eq (distributed_key d now name) k ≡ (str_eq name key && now / d.window == number)

    not_bare : (name : String) → str_eq name "" ≡ true → str_eq name key ≡ false
    not_bare name bare = elim (Bool-cases (str_eq name key)) [
      | inr other ↦ other
      | inl same ↦
          absurd (ground (arith, bare, keyed, ap (λ x. str_eq x "") ((eq_iff name key).0 same)))
    ]

    passed-bare :
        (now : ℕ) (raw : String) (rs : List Request) (counts : Counts) (l : Limiter B)
        → str_eq (trim_space (to_lower raw)) "" ≡ true
        → passed d key number ((now, raw) ∷ rs) counts l ≡ passed d key number rs counts l
    unfolding passed
    passed-bare now raw rs counts l bare =
        ap
          (λ r.
            (if is_under d key number (now, raw) && r.0 then 1 else 0)
            + passed d key number rs (count d (now, raw) counts) r.1)
          (allow-bare now raw counts l bare)
        ∙ rw (not_bare (trim_space (to_lower raw)) bare) (rw bare (omega arith))

    passed-named :
        (now : ℕ) (raw : String) (rs : List Request) (counts : Counts) (l : Limiter B)
        → str_eq (trim_space (to_lower raw)) "" ≡ false
        → l.distributed ≡ some d
        → l.circuit ≡ closed
        → let asks = distributed_key d now (trim_space (to_lower raw)) in
          passed d key number ((now, raw) ∷ rs) counts l
          ≡ (if is_under d key number (now, raw) && leb (suc (counts asks)) d.limit then 1 else 0)
            + passed d key number rs (increment asks counts) (record l { circuit = closed })
    unfolding passed
    passed-named now raw rs counts l named some_d still =
        ap
          (λ r.
            (if is_under d key number (now, raw) && r.0 then 1 else 0)
            + passed d key number rs (count d (now, raw) counts) r.1)
          (allow-counted now raw counts d l named some_d still)
        ∙ rw named refl

    asked-bare :
        (now : ℕ) (raw : String) (rs : List Request)
        → str_eq (trim_space (to_lower raw)) "" ≡ true
        → asked d key number ((now, raw) ∷ rs) ≡ asked d key number rs
    asked-bare now raw rs bare = rw (not_bare (trim_space (to_lower raw)) bare) (omega arith)

    -- One request before the others, whose number is `m`.
    tally :
        (k asks : String) (under : Bool) (counts : Counts) (m : ℕ)
        → str_eq asks k ≡ under
        → (if under && leb (suc (counts asks)) d.limit then 1 else 0)
            + min m (d.limit - increment asks counts k)
          ≡ min ((if under then 1 else 0) + m) (d.limit - counts k)
    tally k asks true counts m e =
        let same : counts asks ≡ counts k = ap counts ((eq_iff asks k).0 e) in
        ground (arith, e, same)
    tally k asks false counts m e = ground (arith, e)

    passed-min :
        (k : String)
        → IsKey k
        → (rs : List Request) (counts : Counts) (l : Limiter B) → All (IsRecent d) rs
        → l.distributed ≡ some d
        → l.circuit ≡ closed
        → passed d key number rs counts l ≡ min (asked d key number rs) (d.limit - counts k)
    unfolding passed
    passed-min k at [] counts l old some_d still = omega arith
    passed-min k at ((now, raw) ∷ rs) counts l old some_d still =
        let name = trim_space (to_lower raw) in
        let asks = distributed_key d now name in
        elim (Bool-cases (str_eq name "")) [
          | inl bare ↦
              passed-bare now raw rs counts l bare
              ∙ passed-min k at rs counts l old.1 some_d still
              ∙ ap (λ m. min m (d.limit - counts k)) (sym (asked-bare now raw rs bare))
          | inr named ↦
              passed-named now raw rs counts l named some_d still
              ∙ ap
                  (λ p.
                    (if is_under d key number (now, raw) && leb (suc (counts asks)) d.limit
                      then 1
                      else 0)
                    + p)
                  (passed-min k at rs (increment asks counts) (record l { circuit = closed }) old.1
                    some_d refl)
              ∙ tally k asks (is_under d key number (now, raw)) counts (asked d key number rs)
                  (at now old.0 name)
        ]

    -- That key, where some time of the window is known.
    distributed_key-IsKey :
        (at : ℕ)
        → at / d.window ≡ number
        → epoch ≤ at - at % d.window
        → IsKey (distributed_key d at key)
    distributed_key-IsKey at here old now recent name =
        elim (Bool-cases (str_eq (distributed_key d now name) (distributed_key d at key))) [
          | inl same ↦
              let (start, alike) =
                distributed_key-injective d now at name key ((eq_iff _ _).0 same) in
              let begins = window_start-injective d.window now at wide recent old start ∙ here in
              rw same (
                rw ((eq_iff name key).1 alike)
                  (rw ((==_iff (now / d.window) number).1 begins) refl))
          | inr other ↦ elim (Bool-cases (str_eq name key && now / d.window == number)) [
            | inr no_match ↦ other ∙ sym no_match
            | inl match ↦
                let alike : name ≡ key = (eq_iff name key).0 (ground (arith, match)) in
                let there : now / d.window ≡ number =
                  (==_iff (now / d.window) number).0 (ground (arith, match)) in
                let joined =
                  distributed_key-same d now at name key
                    (window_start-same d.window now at (there ∙ sym here)) alike in
                (eq_iff _ _).1 joined ∙ sym match
          ]
        ]

  -- Requests of all callers, at all times, are served in turn before one counter that works and that has
  -- counted nothing yet. Of those that name one key, but for spaces and case, and fall into one window,
  -- exactly as many pass as the limit says, however many come and whatever comes between. The window is
  -- at least a second long, and the times are after 1970.
  pub passed-limit :
      (d : Distributed) (key : String) (at : ℕ) (rs : List Request) (l : Limiter B)
      → second ≤ d.window
      → str_eq key "" ≡ false
      → IsRecent d (at, key)
      → All (IsRecent d) rs
      → l.distributed ≡ some d
      → l.circuit ≡ closed
      → passed d key (at / d.window) rs (λ k. 0) l ≡ min (asked d key (at / d.window) rs) d.limit
  passed-limit d key at rs l wide keyed recent all some_d still =
      passed-min d key (at / d.window) wide keyed (distributed_key d at key)
        (distributed_key-IsKey d key (at / d.window) wide keyed at refl recent) rs (λ k. 0) l all
        some_d still
      ∙ omega arith
