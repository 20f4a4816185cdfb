-- ===== src/Store.antt =====
-- What the repositories of services/chat-service/internal/repository/repository.go ask of gorm and
-- MySQL, which are not part of the repository: one interface for each table.
pub mod Memory
pub mod Rules
use inline_chat.Prelude.{
  ℕ, zero, suc, Bool, false, Option, none, some, List, [], ◌∷◌, ◌++◌, reverse, take, drop, filter,
  head?, All, ◌≡◌, ◌<◌, ◌==◌, if◌then◌else◌, true, ltb, ◌||◌,
}
use inline_chat.Errors.{Result, ok, err, not_found}

-- A SELECT: its WHERE, its ORDER BY id, its LIMIT, if it has one, and its OFFSET.
pub record Query (R : Type 0) : Type 0 where
  pub matches : R → Bool
  pub descending : Bool
  pub limit : Option ℕ
  pub offset : ℕ

-- `First`: the first row, or gorm.ErrRecordNotFound, which every method turns into ErrNotFound.
abbrev pub or_not_found : {A : Type 0} → Result (Option A) → Result A
or_not_found (ok (some a)) = ok a
or_not_found (ok none) = err not_found
or_not_found (err e) = err e

abbrev pub first_where : {R : Type 0} → (R → Bool) → Query R
first_where p = record { matches = p; descending = false; limit = some 1; offset = 0 }

abbrev pub latest_where : {R : Type 0} → (R → Bool) → Query R
latest_where p = record { matches = p; descending = true; limit = some 1; offset = 0 }

abbrev pub limited {ℓ} : {A : Type ℓ} → Option ℕ → List A → List A
limited none xs = xs
limited (some n) xs = take n xs

-- The rows that a query names, out of the rows of a table in the order of their ids.
abbrev pub select : {R : Type 0} → Query R → List R → List R
select q rows = limited q.limit (
    drop q.offset (if q.descending then reverse (filter q.matches rows) else filter q.matches rows))

-- UPDATE of at most `n` rows, where `none` is no bound: the rows after it, and how many changed.
abbrev pub update_rows : {R : Type 0} → Option ℕ → (R → Bool) → (R → R) → List R → List R
update_rows bound p f [] = []
update_rows none p f (r ∷ rs) = (if p r then f r else r) ∷ update_rows none p f rs
update_rows (some zero) p f (r ∷ rs) = r ∷ rs
update_rows (some (suc n)) p f (r ∷ rs) =
    let hit = f r ∷ update_rows (some n) p f rs in
    let miss = r ∷ update_rows (some (suc n)) p f rs in if p r then hit else miss

abbrev pub affected : {R : Type 0} → Option ℕ → (R → Bool) → List R → ℕ
affected bound p [] = 0
affected none p (r ∷ rs) = let rest = affected none p rs in if p r then suc rest else rest
affected (some zero) p (r ∷ rs) = 0
affected (some (suc n)) p (r ∷ rs) =
    let hit = suc (affected (some n) p rs) in
    let miss = affected (some (suc n)) p rs in if p r then hit else miss

abbrev pub replace : {R : Type 0} → (R → ℕ) → R → List R → List R
replace key r = update_rows none (λ x. key x == key r) (λ x. r)

-- A row at its place in the order of keys.
abbrev pub insert_by : {R : Type 0} → (R → ℕ) → R → List R → List R
insert_by key r [] = r ∷ []
insert_by key r (x ∷ xs) =
    let later = x ∷ insert_by key r xs in if ltb (key r) (key x) then r ∷ x ∷ xs else later

abbrev pub has_key : {R : Type 0} → (R → ℕ) → ℕ → List R → Bool
has_key key k [] = false
has_key key k (x ∷ xs) = key x == k || has_key key k xs

-- gorm's Save: an UPDATE by the primary key, or an INSERT where no row has it.
abbrev pub upsert : {R : Type 0} → (R → ℕ) → R → List R → List R
upsert key r xs = if has_key key (key r) xs then replace key r xs else insert_by key r xs

-- A table of rows `R` in a state `S`. Each statement succeeds or reports an error. The laws are what
-- SQL and gorm document of a statement that succeeds; `clashes` is the table's unique key, and
-- `Fills r r'` says that `r'` is `r` with the columns that an INSERT fills in.
pub record Table (S R : Type 0) (key : R → ℕ) (clashes : R → R → Bool) (Fills : R → R → Type 0)
    : Type 0 where
  pub rows : S → List R
  pub first : Query R → S → Result (Option R)
  pub find : Query R → S → Result (List R)
  pub insert : R → S → Result (R × S)
  pub save : R → S → Result S
  pub update : Option ℕ → (R → Bool) → (R → R) → S → Result (ℕ × S)
  pub first_law :
      (q : Query R) (s : S) (o : Option R) → first q s ≡ ok o → o ≡ head? (select q (rows s))
  pub find_law : (q : Query R) (s : S) (xs : List R) → find q s ≡ ok xs → xs ≡ select q (rows s)
  pub insert_rows :
      (r : R) (s : S) (r' : R) (s' : S) → insert r s ≡ ok (r', s') → rows s' ≡ rows s ++ r' ∷ []
  pub insert_fills : (r : R) (s : S) (r' : R) (s' : S) → insert r s ≡ ok (r', s') → Fills r r'
  pub insert_fresh :
      (r : R) (s : S) (r' : R) (s' : S)
      → insert r s ≡ ok (r', s')
      → All (λ x. key x < key r') (rows s)
  pub insert_unique :
      (r : R) (s : S) (r' : R) (s' : S)
      → insert r s ≡ ok (r', s')
      → All (λ x. clashes x r ≡ false) (rows s)
  pub save_rows : (r : R) (s s' : S) → save r s ≡ ok s' → rows s' ≡ upsert key r (rows s)
  pub update_law :
      (bound : Option ℕ) (p : R → Bool) (f : R → R) (s : S) (n : ℕ) (s' : S)
      → update bound p f s ≡ ok (n, s')
      → (n ≡ affected bound p (rows s)) × (rows s' ≡ update_rows bound p f (rows s))

-- A table into which rows come with their primary key.
pub record KeyedTable (S R : Type 0) (key : R → ℕ) (clashes : R → R → Bool) : Type 0 where
  pub rows : S → List R
  pub first : Query R → S → Result (Option R)
  pub find : Query R → S → Result (List R)
  pub insert : R → S → Result S
  pub save : R → S → Result S
  pub first_law :
      (q : Query R) (s : S) (o : Option R) → first q s ≡ ok o → o ≡ head? (select q (rows s))
  pub find_law : (q : Query R) (s : S) (xs : List R) → find q s ≡ ok xs → xs ≡ select q (rows s)
  pub insert_rows : (r : R) (s s' : S) → insert r s ≡ ok s' → rows s' ≡ insert_by key r (rows s)
  pub insert_unique :
      (r : R) (s s' : S) → insert r s ≡ ok s' → All (λ x. clashes x r ≡ false) (rows s)
  pub insert_fresh : (r : R) (s s' : S) → insert r s ≡ ok s' → has_key key (key r) (rows s) ≡ false
  pub save_rows : (r : R) (s s' : S) → save r s ≡ ok s' → rows s' ≡ upsert key r (rows s)
