-- ===== src/Accounts/Passwords/Policy.antt =====
-- The password policy, told without its loop.
use Prim.Native.Char.{code}
use inline_chat.Prelude.{
  refl, ℕ, ◌≡◌, String, Bool, false, not, ◌&&◌, ◌||◌, ltb, if◌then◌else◌, arith, true, str_eq, ◌∙◌,
  ap,
}
use inline_chat.Prelude.Text.{is_space, to_lower, rune_count, trim_space, trim_space-solid}
use inline_chat.Errors.{ok, err, invalid, is_err, Result, Error}
use inline_chat.Accounts.Passwords.{
  Letters, Seen, scan, see, weak_passwords, is_listed, validate_password_policy, then_check,
  nothing_seen, has_all, not_weak,
}

-- Some code point of a text passes a test.
abbrev pub any_rune : (ℕ → Bool) → String → Bool
any_rune p String.[] = false
any_rune p (String.◌∷◌ c s) = p (code c) || any_rune p s

module _ (letters : Letters) where
  -- The four kinds of a code point; the first that fits counts.
  abbrev pub as_upper : ℕ → Bool
  as_upper c = letters.is_upper c

  abbrev pub as_lower : ℕ → Bool
  as_lower c = not (letters.is_upper c) && letters.is_lower c

  abbrev pub as_digit : ℕ → Bool
  as_digit c = not (letters.is_upper c) && not (letters.is_lower c) && letters.is_digit c

  abbrev pub as_special : ℕ → Bool
  as_special c = not (letters.is_upper c) && not (letters.is_lower c) && not (letters.is_digit c)

  abbrev pub has_kinds : String → Bool
  has_kinds raw =
      any_rune as_upper raw
      && any_rune as_lower raw
      && any_rune as_digit raw
      && any_rune as_special raw

  -- No code point is a space, all four kinds occur, and the lower case is not one of the weak passwords.
  unfoldable pub is_solid : String → Bool
  unfolding is_space to_lower
  is_solid raw =
      not (any_rune is_space raw) && has_kinds raw && not (is_listed (to_lower raw) weak_passwords)

  -- Such a text of 12 to 72 code points.
  abbrev pub is_strong : String → Bool
  is_strong raw = not (ltb (rune_count raw) 12) && not (ltb 72 (rune_count raw)) && is_solid raw

  -- What the loop has seen after a text without spaces.
  abbrev see_all : String → Seen → Seen
  see_all String.[] seen = seen
  see_all (String.◌∷◌ c s) seen = see_all s (see letters (code c) seen)

  scan-see_all :
      (raw : String) (seen : Seen)
      → scan letters raw seen ≡ (
          if any_rune is_space raw
          then err (invalid "password must not contain spaces")
          else ok (see_all raw seen))
  unfolding scan
  scan-see_all String.[] seen = refl
  scan-see_all (String.◌∷◌ c s) seen = ground (arith, scan-see_all s (see letters (code c) seen))

  see_all-upper :
      (raw : String) (seen : Seen)
      → (see_all raw seen).upper ≡ (seen.upper || any_rune as_upper raw)
  see_all-upper String.[] seen = ground arith
  see_all-upper (String.◌∷◌ c s) seen = ground (arith, see_all-upper s (see letters (code c) seen))

  see_all-lower :
      (raw : String) (seen : Seen)
      → (see_all raw seen).lower ≡ (seen.lower || any_rune as_lower raw)
  see_all-lower String.[] seen = ground arith
  see_all-lower (String.◌∷◌ c s) seen = ground (arith, see_all-lower s (see letters (code c) seen))

  see_all-digit :
      (raw : String) (seen : Seen)
      → (see_all raw seen).digit ≡ (seen.digit || any_rune as_digit raw)
  see_all-digit String.[] seen = ground arith
  see_all-digit (String.◌∷◌ c s) seen = ground (arith, see_all-digit s (see letters (code c) seen))

  see_all-special :
      (raw : String) (seen : Seen)
      → (see_all raw seen).special ≡ (seen.special || any_rune as_special raw)
  see_all-special String.[] seen = ground arith
  see_all-special (String.◌∷◌ c s) seen =
      ground (arith, see_all-special s (see letters (code c) seen))

  scan_verdict : Result Seen → Bool
  scan_verdict (err e) = false
  scan_verdict (ok seen) =
      not (not seen.upper || not seen.lower || not seen.digit || not seen.special)

  both_pass :
      (a b : Bool) (e f : Error)
      → is_err (elim (if a then err e else ok (tt {0})) [
        | err e ↦ err e
        | ok u ↦ if b then err f else ok (tt {0})
      ])
        ≡ not (not a && not b)
  both_pass false false e f = refl
  both_pass false true e f = refl
  both_pass true b e f = refl

  then_check-verdict :
      (r : Result Seen) (raw : String)
      → is_err (then_check letters r raw)
        ≡ not (scan_verdict r && not (is_listed (to_lower raw) weak_passwords))
  unfolding then_check has_all not_weak scan_verdict
  then_check-verdict (err e) raw = refl
  then_check-verdict (ok seen) raw =
      both_pass (not seen.upper || not seen.lower || not seen.digit || not seen.special)
        (is_listed (to_lower raw) weak_passwords) _ _

  scan-verdict :
      (raw : String)
      → scan_verdict (scan letters raw nothing_seen)
        ≡ (not (any_rune is_space raw) && has_kinds raw)
  unfolding scan_verdict
  scan-verdict raw = ground (
    arith,
    scan-see_all raw nothing_seen,
    see_all-upper raw nothing_seen,
    see_all-lower raw nothing_seen,
    see_all-digit raw nothing_seen,
    see_all-special raw nothing_seen,
  )

  too_short : ltb (rune_count "") 12 ≡ true
  too_short = refl

  -- A text of 12 code points or more is not blank, when no code point is a space.
  solid :
      (raw : String)
      → ltb (rune_count raw) 12 ≡ false
      → any_rune is_space raw ≡ false
      → str_eq (trim_space raw) "" ≡ false
  solid String.[] long clean = absurd (ground (arith, long))
  solid (String.◌∷◌ c s) long clean = trim_space-solid c s (ground (arith, clean))

  scan-is_solid :
      (raw : String)
      → is_err (then_check letters (scan letters raw nothing_seen) raw) ≡ not (is_solid raw)
  unfolding is_solid
  scan-is_solid raw =
      then_check-verdict (scan letters raw nothing_seen) raw
      ∙ ap (λ b. not (b && not (is_listed (to_lower raw) weak_passwords))) (scan-verdict raw)

  guarded :
      (blank short long good : Bool) (e f : Error) (r : Result (Unit {0}))
      → (short ≡ false → good ≡ true → blank ≡ false)
      → is_err r ≡ not good
      → is_err (if blank then err e else if short || long then err f else r)
        ≡ not (not short && not long && good)
  guarded true true long good e f r solid verdict = refl
  guarded true false long false e f r solid verdict = ground arith
  guarded true false long true e f r solid verdict = absurd (ground (arith, solid refl refl))
  guarded false true long good e f r solid verdict = refl
  guarded false false true good e f r solid verdict = refl
  guarded false false false good e f r solid verdict = verdict

  -- The policy accepts exactly the passwords of 12 to 72 code points, none of them a space, that have an
  -- upper case letter, a lower case letter, a digit and another code point, and are none of the listed
  -- weak ones in lower case.
  pub validate_password_policy-is_strong :
      (raw : String) → is_err (validate_password_policy letters raw) ≡ not (is_strong raw)
  unfolding validate_password_policy is_solid
  validate_password_policy-is_strong raw =
      guarded (str_eq (trim_space raw) "") (ltb (rune_count raw) 12) (ltb 72 (rune_count raw))
        (is_solid raw) _ _ _ (λ long good. solid raw long (ground (arith, good)))
        (scan-is_solid raw)
