-- ===== src/Effects.antt =====
-- Methods over a state that may fail. What was written before an error stays written, as in Go.
use inline_chat.Prelude.{Bool, if◌then◌else◌}
use inline_chat.Errors.{Error, Result, ok, err}

-- A result or an error, and the state after it.
abbrev pub Effect : Type 0 → Type 0 → Type 0
Effect S A = S → Result A × S

module _ {S : Type 0} where
  abbrev pub pure : {A : Type 0} → A → Effect S A
  pure a w = (ok a, w)

  abbrev pub raise : {A : Type 0} → Error → Effect S A
  raise e w = (err e, w)

  infixl 5 ◌>>=◌ ◌>>◌
  abbrev pub ◌>>=◌ : {A B : Type 0} → Effect S A → (A → Effect S B) → Effect S B
  ◌>>=◌ m f w = let (r, w') = m w in elim r [ ok a ↦ f a w' | err e ↦ (err e, w') ]

  abbrev pub ◌>>◌ : {A B : Type 0} → Effect S A → Effect S B → Effect S B
  m >> k = m >>= λ _. k

  -- `if b { return err }`
  abbrev pub raise_if : Bool → Error → Effect S (Unit {0})
  raise_if b e w = (if b then err e else ok tt, w)

  -- Go on with the error of an action as with a value.
  abbrev pub attempt : {A : Type 0} → Effect S A → Effect S (Result A)
  attempt m w = let (r, w') = m w in (ok r, w')

  abbrev pub return : {A : Type 0} → Result A → Effect S A
  return r w = (r, w)

  -- A change of the error, as `fmt.Errorf` with %w and the returns of a sentinel make it.
  abbrev pub map_error : {A : Type 0} → (Error → Error) → Effect S A → Effect S A
  map_error f m w = let (r, w') = m w in elim r [ ok a ↦ (ok a, w') | err e ↦ (err (f e), w') ]

  abbrev pub modify : (S → S) → Effect S (Unit {0})
  modify f w = (ok tt, f w)
