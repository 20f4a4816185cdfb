-- ===== src/Ai/Chunks/Ids.antt =====
-- The ids of the chunks: dedupeChunks.
use inline_chat.Prelude.{
  refl, eq_iff, ap, ◌++◌, List, String, true, ◌∷◌, arith, str_eq, ◌≡◌, [], inl, Bool-cases, false,
  inr, ◌||◌, ◌⊎◌, ◌∙◌, subst,
}
use inline_chat.Ai.Chunks.{Chunk, dedupe_chunks}
use inline_chat.Realtime.Origins.{has_text}
use inline_chat.Prelude.Text.{trim_space}

-- The chunk is one of them.
abbrev pub IsAmong : Chunk → List Chunk → Type 0
IsAmong ch [] = true ≡ false
IsAmong ch (x ∷ xs) = (x ≡ ch) ⊎ IsAmong ch xs

abbrev pub ids : List Chunk → List String
ids [] = []
ids (x ∷ xs) = x.id ∷ ids xs

pub IsAmong-left : (ch : Chunk) (xs ys : List Chunk) → IsAmong ch xs → IsAmong ch (xs ++ ys)
IsAmong-left ch [] ys h = absurd (ground (arith, h))
IsAmong-left ch (x ∷ xs) ys (inl h) = inl h
IsAmong-left ch (x ∷ xs) ys (inr h) = inr (IsAmong-left ch xs ys h)

pub IsAmong-last : (ch : Chunk) (xs : List Chunk) → IsAmong ch (xs ++ (ch ∷ []))
IsAmong-last ch [] = inl refl
IsAmong-last ch (x ∷ xs) = inr (IsAmong-last ch xs)

-- No two of them have one id, and none is blank.
abbrev pub AreDistinct : List Chunk → Type 0
AreDistinct [] = Unit
AreDistinct (x ∷ xs) =
    (has_text x.id (ids xs) ≡ false) × (str_eq (trim_space x.text) "" ≡ false) × AreDistinct xs

head-has_text : (id : String) (seen : List String) → has_text id (id ∷ seen) ≡ true
head-has_text id seen = ground (arith, (eq_iff id id).1 refl)

fresh :
    (t s : String) (seen : List String)
    → has_text s seen ≡ true
    → has_text t seen ≡ false
    → str_eq t s ≡ false
fresh t s seen h k = elim (Bool-cases (str_eq t s)) [
  | inr other ↦ other
  | inl same ↦ absurd (ground (arith, h, k, ap (λ x. has_text x seen) ((eq_iff t s).0 same)))
]

dedupe_chunks-unseen :
    (id : String) (seen : List String) (items : List Chunk)
    → has_text id seen ≡ true
    → has_text id (ids (dedupe_chunks seen items)) ≡ false
unfolding dedupe_chunks
dedupe_chunks-unseen id seen [] h = refl
dedupe_chunks-unseen id seen (item ∷ items) h =
    elim (Bool-cases (str_eq (trim_space item.text) "" || has_text item.id seen)) [
      | inl skip ↦ rw (skip, dedupe_chunks) (dedupe_chunks-unseen id seen items h)
      | inr keep ↦
          let other : str_eq item.id id ≡ false = fresh item.id id seen h (ground (arith, keep)) in
          let rest = dedupe_chunks-unseen id (item.id ∷ seen) items (rw (other) h) in
          rw (keep, dedupe_chunks) (rw other rest)
    ]

pub dedupe_chunks-AreDistinct :
    (seen : List String) (items : List Chunk) → AreDistinct (dedupe_chunks seen items)
unfolding dedupe_chunks
dedupe_chunks-AreDistinct seen [] = tt
dedupe_chunks-AreDistinct seen (item ∷ items) =
    elim (Bool-cases (str_eq (trim_space item.text) "" || has_text item.id seen)) [
      | inl skip ↦ rw (skip, dedupe_chunks) (dedupe_chunks-AreDistinct seen items)
      | inr keep ↦
          let itself = head-has_text item.id seen in
          rw (keep, dedupe_chunks)
            (
              dedupe_chunks-unseen item.id (item.id ∷ seen) items itself,
              ground (arith, keep),
              dedupe_chunks-AreDistinct (item.id ∷ seen) items,
            )
    ]

-- A chunk is kept under its id, or it is blank.
abbrev pub IsKept : List Chunk → Chunk → Type 0
IsKept out ch = (str_eq (trim_space ch.text) "" ≡ true) ⊎ (has_text ch.id (ids out) ≡ true)

keeps-head :
    (item : Chunk) (seen : List String) (items : List Chunk)
    → str_eq (trim_space item.text) "" ≡ false
    → (has_text item.id seen ≡ true)
      ⊎ (has_text item.id (ids (dedupe_chunks seen (item ∷ items))) ≡ true)
unfolding dedupe_chunks
keeps-head item seen items full = elim (Bool-cases (has_text item.id seen)) [
  | inl old ↦ inl old
  | inr new ↦ inr (
      rw (full, dedupe_chunks)
        (rw new (head-has_text item.id (ids (dedupe_chunks (item.id ∷ seen) items)))))
]

keeps-tail :
    (id : String) (item : Chunk) (seen : List String) (out : List Chunk)
    → (has_text id (item.id ∷ seen) ≡ true) ⊎ (has_text id (ids out) ≡ true)
    → (has_text id seen ≡ true) ⊎ (has_text id (ids (item ∷ out)) ≡ true)
keeps-tail id item seen out (inl h) = elim (Bool-cases (str_eq item.id id)) [
  | inl same ↦ inr (ground (arith, same))
  | inr other ↦ inl (ground (arith, h, other))
]
keeps-tail id item seen out (inr h) = inr (ground (arith, h))

pub dedupe_chunks-keeps :
    (ch : Chunk) (seen : List String) (items : List Chunk)
    → str_eq (trim_space ch.text) "" ≡ false
    → IsAmong ch items
    → (has_text ch.id seen ≡ true) ⊎ (has_text ch.id (ids (dedupe_chunks seen items)) ≡ true)
unfolding dedupe_chunks
dedupe_chunks-keeps ch seen [] full h = absurd (ground (arith, h))
dedupe_chunks-keeps ch seen (item ∷ items) full (inl h) =
    subst
      (λ x.
        (has_text x.id seen ≡ true)
        ⊎ (has_text x.id (ids (dedupe_chunks seen (item ∷ items))) ≡ true))
      h (keeps-head item seen items (ap (λ x. str_eq (trim_space x.text) "") h ∙ full))
dedupe_chunks-keeps ch seen (item ∷ items) full (inr h) =
    elim (Bool-cases (str_eq (trim_space item.text) "" || has_text item.id seen)) [
      | inl skip ↦ rw (skip, dedupe_chunks) (dedupe_chunks-keeps ch seen items full h)
      | inr keep ↦
          rw (keep, dedupe_chunks)
            (keeps-tail ch.id item seen (dedupe_chunks (item.id ∷ seen) items)
              (dedupe_chunks-keeps ch (item.id ∷ seen) items full h))
    ]
