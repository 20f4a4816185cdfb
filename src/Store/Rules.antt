-- ===== src/Store/Rules.antt =====
-- What a predicate on the rows of a table survives.
use inline_chat.Prelude.{
  ℕ, zero, suc, ◌≡◌, Bool, Option, none, some, List, [], ◌∷◌, reverse, take, drop, filter, All,
  All-append, Bool-cases, head?, inl, subst, inr, ltb, ◌==◌,
}
use mathlib.Core.List.{reverse-cons}
use inline_chat.Store.{limited, Query, update_rows, select, upsert, insert_by, has_key}

module _ {R : Type 0} (P : R → Type 0) where
  All-filter : (p : R → Bool) (xs : List R) → All P xs → All P (filter p xs)
  All-filter p [] h = tt
  All-filter p (x ∷ xs) h = elim (Bool-cases (p x)) [
    | inl e ↦ rw e (h.0, All-filter p xs h.1)
    | inr e ↦ rw e (All-filter p xs h.1)
  ]

  All-take : (n : ℕ) (xs : List R) → All P xs → All P (take n xs)
  All-take zero xs h = tt
  All-take (suc n) [] h = tt
  All-take (suc n) (x ∷ xs) h = (h.0, All-take n xs h.1)

  All-drop : (n : ℕ) (xs : List R) → All P xs → All P (drop n xs)
  All-drop zero xs h = h
  All-drop (suc n) [] h = tt
  All-drop (suc n) (x ∷ xs) h = All-drop n xs h.1

  All-reverse : (xs : List R) → All P xs → All P (reverse xs)
  All-reverse [] h = tt
  All-reverse (x ∷ xs) h =
      rw (reverse-cons x xs) (All-append P (reverse xs) (x ∷ []) (All-reverse xs h.1) (h.0, tt))

  All-limited : (bound : Option ℕ) (xs : List R) → All P xs → All P (limited bound xs)
  All-limited none xs h = h
  All-limited (some n) xs h = All-take n xs h

  -- A query finds rows of the table.
  pub All-select : (q : Query R) (xs : List R) → All P xs → All P (select q xs)
  All-select q xs h =
      let found = All-filter q.matches xs h in
      elim (Bool-cases q.descending) [
        | inl e ↦ All-limited q.limit _ (All-drop q.offset _ (rw e (All-reverse _ found)))
        | inr e ↦ All-limited q.limit _ (All-drop q.offset _ (rw e found))
      ]

  pub All-head? : (x : R) (xs : List R) → All P xs → some x ≡ head? xs → P x
  All-head? x [] h e = cc
  All-head? x (y ∷ ys) h e = subst P (cc) h.0

  pub All-update_rows :
      (bound : Option ℕ) (p : R → Bool) (f : R → R) (xs : List R)
      → ((x : R) → P x → P (f x))
      → All P xs
      → All P (update_rows bound p f xs)
  All-update_rows bound p f [] k h = tt
  All-update_rows none p f (x ∷ xs) k h = elim (Bool-cases (p x)) [
    | inl e ↦ rw e (k x h.0, All-update_rows none p f xs k h.1)
    | inr e ↦ rw e (h.0, All-update_rows none p f xs k h.1)
  ]
  All-update_rows (some zero) p f (x ∷ xs) k h = h
  All-update_rows (some (suc n)) p f (x ∷ xs) k h = elim (Bool-cases (p x)) [
    | inl e ↦ rw e (k x h.0, All-update_rows (some n) p f xs k h.1)
    | inr e ↦ rw e (h.0, All-update_rows (some (suc n)) p f xs k h.1)
  ]

  All-insert_by : (key : R → ℕ) (r : R) (xs : List R) → P r → All P xs → All P (insert_by key r xs)
  All-insert_by key r [] p h = (p, tt)
  All-insert_by key r (x ∷ xs) p h = elim (Bool-cases (ltb (key r) (key x))) [
    | inl e ↦ rw e (p, h)
    | inr e ↦ rw e (h.0, All-insert_by key r xs p h.1)
  ]

  pub All-upsert : (key : R → ℕ) (r : R) (xs : List R) → P r → All P xs → All P (upsert key r xs)
  All-upsert key r xs p h = elim (Bool-cases (has_key key (key r) xs)) [
    | inl e ↦ rw e (All-update_rows none (λ x. key x == key r) (λ x. r) xs (λ x px. p) h)
    | inr e ↦ rw e (All-insert_by key r xs p h)
  ]
