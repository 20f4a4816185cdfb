-- ===== src/Gateway/Limiter/Size.antt =====
-- How many entries a limiter keeps.
use Prim.Native.Nat.{ℕ}
use inline_chat.Prelude.{
  Bool, String, str_eq, not, ◌≡◌, ◌≤◌, length, List, [], ◌∷◌, arith, Option, some, none,
  length-filter-le, ltb, inl, inr, Bool-cases, suc, refl, ◌+◌,
}
use inline_chat.Prelude.Text.{trim_space, to_lower}
use inline_chat.Prelude.Keyed.{lookup, assign}
use inline_chat.Gateway.Limiter.{
  Limiter, TokenBucket, Entry, Counter, Distributed, allow, allow_local, allow_key, decide,
  allow_item, cleanup_if_needed, allow_distributed, Circuit,
}

-- Assigning to a key that is there adds no entry, since the old one goes.
length-assign {ℓ} :
    {V : Type ℓ} (k : String) (v : V) (m : List (String × V))
    → length (assign k v m) ≤ suc (length m)
length-assign k v m = omega (arith, length-filter-le (λ e. not (str_eq e.0 k)) m)

length-assign-known {ℓ} :
    {V : Type ℓ} (k : String) (v u : V) (m : List (String × V))
    → lookup k m ≡ some u
    → length (assign k v m) ≤ length m
length-assign-known k v u [] h = absurd (ground (arith, h))
length-assign-known k v u ((j, w) ∷ m) h = elim (Bool-cases (str_eq j k)) [
  | inl e ↦ ground (arith, e, length-filter-le (λ x. not (str_eq x.0 k)) m)
  | inr e ↦ ground (arith, e, length-assign-known k v u m (ground (arith, h, e)))
]

module _ {B : Type 0} (rate : TokenBucket B) where
  abbrev pub IsBounded : Limiter B → Type 0
  IsBounded l = length l.entries ≤ l.max_entries

  cleanup-IsBounded :
      (now : ℕ) (l : Limiter B) → IsBounded l → IsBounded (cleanup_if_needed rate now l)
  cleanup-IsBounded now l h =
      ground (arith, h, length-filter-le (λ e. not (ltb (e.1.last_seen + l.ttl) now)) l.entries)

  allow_item-IsBounded :
      (now : ℕ) (key : String) (o : Option (Entry B)) (l : Limiter B)
      → lookup key l.entries ≡ o
      → IsBounded l
      → IsBounded (allow_item rate now key o l).1
  allow_item-IsBounded now key (some item) l e h = omega (
    arith,
    h,
    length-assign-known key
        (record { limiter = (rate.allow_at now item.limiter).1; last_seen = now }) item l.entries e,
  )
  allow_item-IsBounded now key none l e h = ground (
    arith,
    h,
    length-assign key
        (record {
          limiter = (rate.allow_at now (rate.new_limiter l.per_minute l.burst)).1;
          last_seen = now;
        })
        l.entries,
  )

  allow_local-IsBounded :
      (now : ℕ) (key : String) (l : Limiter B)
      → IsBounded l
      → IsBounded (allow_local rate now key l).1
  unfolding allow_local
  allow_local-IsBounded now key l h =
      allow_item-IsBounded now key _ (cleanup_if_needed rate now l) refl (cleanup-IsBounded now l h)

  decide-IsBounded :
      (now : ℕ) (key : String) (d : Option Bool × Circuit) (l : Limiter B)
      → IsBounded l
      → IsBounded (decide rate now key d l).1
  unfolding decide
  decide-IsBounded now key (some b, c) l h = h
  decide-IsBounded now key (none, c) l h =
      allow_local-IsBounded now key (record l { circuit = c }) h

  allow_key-IsBounded :
      (now : ℕ) (counter : Counter) (key : String) (o : Option Distributed) (l : Limiter B)
      → IsBounded l
      → IsBounded (allow_key rate now counter key o l).1
  unfolding allow_key
  allow_key-IsBounded now counter key none l h = allow_local-IsBounded now key l h
  allow_key-IsBounded now counter key (some d) l h =
      decide-IsBounded now key (allow_distributed d now counter key l.circuit) l h

  allow-IsBounded :
      (now : ℕ) (counter : Counter) (raw : String) (l : Limiter B)
      → IsBounded l
      → IsBounded (allow rate now counter raw l).1
  unfolding allow
  allow-IsBounded now counter raw l h = elim (Bool-cases (str_eq (trim_space (to_lower raw)) "")) [
    | inl blank ↦ rw blank h
    | inr named ↦
        rw named (allow_key-IsBounded now counter (trim_space (to_lower raw)) l.distributed l h)
  ]

  -- Requests one after another, each with its time, its key, and the counter's answers.
  abbrev pub allow_all : List (ℕ × String × Counter) → Limiter B → Limiter B
  unfolding allow
  allow_all [] l = l
  allow_all ((now, key, counter) ∷ requests) l = allow_all requests (allow rate now counter key l).1

  -- Any requests leave at most max_entries entries, when no more were there.
  pub allow_all-IsBounded :
      (requests : List (ℕ × String × Counter)) (l : Limiter B)
      → IsBounded l
      → IsBounded (allow_all requests l)
  unfolding allow_all
  allow_all-IsBounded [] l h = h
  allow_all-IsBounded ((now, key, counter) ∷ requests) l h =
      allow_all-IsBounded requests (allow rate now counter key l).1
        (allow-IsBounded now counter key l h)
