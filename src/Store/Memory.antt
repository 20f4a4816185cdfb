-- ===== src/Store/Memory.antt =====
-- A table held in memory, which shows that the laws of `Table` can be met.
use inline_chat.Prelude.{
  ℕ, ◌+◌, ◌<◌, Bool, false, List, [], ◌∷◌, ◌++◌, ◌≡◌, head?, All, if◌then◌else◌, arith, ◌||◌, ap,
  subst, sym,
}
use inline_chat.Errors.{Result, ok, err, failed, ok-injective}
use inline_chat.Store.{Table, select, update_rows, affected, KeyedTable, upsert, insert_by, has_key}
use Prim.Native.Nat.{max}

module _ {R : Type 0} (key : R → ℕ) (clashes : R → R → Bool) (fill : ℕ → R → R) where
  -- The greatest key in use.
  abbrev pub top_key : List R → ℕ
  top_key [] = 0
  top_key (x ∷ xs) = max (key x) (top_key xs)

  abbrev pub any_clash : R → List R → Bool
  any_clash r [] = false
  any_clash r (x ∷ xs) = clashes x r || any_clash r xs

  unfoldable pub insert_row : R → List R → Result (R × List R)
  insert_row r xs =
      if any_clash r xs
      then err (failed "Error 1062 (23000): Duplicate entry")
      else ok (fill (top_key xs + 1) r, xs ++ fill (top_key xs + 1) r ∷ [])

  pub top_key_bound : (n : ℕ) (xs : List R) → top_key xs < n → All (λ x. key x < n) xs
  top_key_bound n [] h = tt
  top_key_bound n (x ∷ xs) h = (omega arith, top_key_bound n xs (omega arith))

  pub no_clash : (r : R) (xs : List R) → any_clash r xs ≡ false → All (λ x. clashes x r ≡ false) xs
  no_clash r [] h = tt
  no_clash r (x ∷ xs) h = (ground arith, no_clash r xs (ground arith))

  pub insert_row_cases :
      (r : R) (xs : List R) (r' : R) (xs' : List R)
      → insert_row r xs ≡ ok (r', xs')
      → (any_clash r xs ≡ false) × (r' ≡ fill (top_key xs + 1) r) × (xs' ≡ xs ++ r' ∷ [])
  unfolding insert_row
  insert_row_cases r xs r' xs' e = (ground arith, ground arith, ground arith)

  -- The same with keys that the caller gives.
  unfoldable pub insert_keyed_row : R → List R → Result (List R)
  insert_keyed_row r xs =
      if has_key key (key r) xs || any_clash r xs
      then err (failed "Error 1062 (23000): Duplicate entry")
      else ok (insert_by key r xs)

  pub insert_keyed_row_cases :
      (r : R) (xs xs' : List R)
      → insert_keyed_row r xs ≡ ok xs'
      → (has_key key (key r) xs ≡ false) × (any_clash r xs ≡ false) × (xs' ≡ insert_by key r xs)
  unfolding insert_keyed_row
  insert_keyed_row_cases r xs xs' e = (ground arith, ground arith, ground arith)

  abbrev pub memory_keyed_table : KeyedTable (List R) R key clashes
  memory_keyed_table = record {
    rows = λ xs. xs;
    first = λ q xs. ok (head? (select q xs));
    find = λ q xs. ok (select q xs);
    insert = insert_keyed_row;
    save = λ r xs. ok (upsert key r xs);
    first_law = λ q s o e. sym (ok-injective e);
    find_law = λ q s xs e. sym (ok-injective e);
    insert_rows = λ r s s' e. (insert_keyed_row_cases r s s' e).2;
    insert_unique = λ r s s' e. no_clash r s (insert_keyed_row_cases r s s' e).1;
    insert_fresh = λ r s s' e. (insert_keyed_row_cases r s s' e).0;
    save_rows = λ r s s' e. sym (ok-injective e);
  }

  module _ (Fills : R → R → Type 0) (fills : (n : ℕ) (r : R) → Fills r (fill n r))
      (key-fill : (n : ℕ) (r : R) → key (fill n r) ≡ n) where
    pub insert_row_fresh :
        (r : R) (xs : List R) (r' : R) (xs' : List R)
        → insert_row r xs ≡ ok (r', xs')
        → All (λ x. key x < key r') xs
    insert_row_fresh r xs r' xs' e =
        let (_, made, _) = insert_row_cases r xs r' xs' e in
        top_key_bound (key r') xs (omega (arith, ap key made, key-fill (top_key xs + 1) r))

    abbrev pub memory_table : Table (List R) R key clashes Fills
    memory_table = record {
      rows = λ xs. xs;
      first = λ q xs. ok (head? (select q xs));
      find = λ q xs. ok (select q xs);
      insert = insert_row;
      save = λ r xs. ok (upsert key r xs);
      update = λ bound p f xs. ok (affected bound p xs, update_rows bound p f xs);
      first_law = λ q s o e. sym (ok-injective e);
      find_law = λ q s xs e. sym (ok-injective e);
      insert_rows = λ r s r' s' e. (insert_row_cases r s r' s' e).2;
      insert_fills = λ r s r' s' e.
          subst (Fills r) (sym (insert_row_cases r s r' s' e).1) (fills (top_key s + 1) r);
      insert_fresh = insert_row_fresh;
      insert_unique = λ r s r' s' e. no_clash r s (insert_row_cases r s r' s' e).0;
      save_rows = λ r s s' e. sym (ok-injective e);
      update_law = λ bound p f s n s' e.
          (sym (ap (λ x. x.0) (ok-injective e)), sym (ap (λ x. x.1) (ok-injective e)));
    }
