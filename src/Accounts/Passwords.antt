-- ===== src/Accounts/Passwords.antt =====
-- ValidatePasswordPolicy, which auth-service and admin-service have in internal/security. The tables of
-- package unicode are parameters.
pub mod Policy
use Prim.Native.Char.{code}
use inline_chat.Prelude.{
  ℕ, String, Bool, true, false, not, ◌||◌, List, [], ◌∷◌, ltb, str_eq, if◌then◌else◌,
}
use inline_chat.Prelude.Text.{is_space, trim_space, to_lower, rune_count}
use inline_chat.Errors.{Result, ok, err, invalid}

pub record Letters : Type 0 where
  pub is_upper : ℕ → Bool
  pub is_lower : ℕ → Bool
  pub is_digit : ℕ → Bool

-- What the loop has seen.
pub record Seen : Type 0 where
  pub upper : Bool
  pub lower : Bool
  pub digit : Bool
  pub special : Bool

abbrev pub nothing_seen : Seen
nothing_seen = record { upper = false; lower = false; digit = false; special = false }

-- weakPasswordBlacklist
abbrev pub weak_passwords : List String
weak_passwords =
    "123456" ∷ "12345678" ∷ "password" ∷ "password123" ∷ "qwerty123" ∷ "admin123456" ∷ "letmein123"
    ∷ "agent12345!" ∷ "superadmin123!" ∷ "changeme123!" ∷ "changeme" ∷ []

abbrev pub is_listed : String → List String → Bool
is_listed s [] = false
is_listed s (t ∷ ts) = str_eq s t || is_listed s ts

module _ (letters : Letters) where
  -- One turn of the `switch`.
  abbrev pub see : ℕ → Seen → Seen
  see c seen =
      if letters.is_upper c
      then record seen { upper = true }
      else if letters.is_lower c
      then record seen { lower = true }
      else if letters.is_digit c
      then record seen { digit = true }
      else record seen { special = true }

  -- The loop over the runes.
  unfoldable pub scan : String → Seen → Result Seen
  unfolding is_space
  scan String.[] seen = ok seen
  scan (String.◌∷◌ c s) seen =
      let rest = scan s (see (code c) seen) in
      if is_space (code c) then err (invalid "password must not contain spaces") else rest

  has_all : Seen → Result (Unit {0})
  has_all seen =
      if not seen.upper || not seen.lower || not seen.digit || not seen.special
      then err (invalid "password must include upper, lower, digit and special character")
      else ok tt

  not_weak : String → Result (Unit {0})
  unfolding to_lower
  not_weak raw =
      if is_listed (to_lower raw) weak_passwords
      then err (invalid "password is too weak or commonly leaked")
      else ok tt

  then_check : Result Seen → String → Result (Unit {0})
  unfolding has_all not_weak
  then_check (err e) raw = err e
  then_check (ok seen) raw = elim (has_all seen) [ err e ↦ err e | ok u ↦ not_weak raw ]

  unfoldable pub validate_password_policy : String → Result (Unit {0})
  unfolding trim_space scan then_check
  validate_password_policy raw =
      if str_eq (trim_space raw) ""
      then err (invalid "password is required")
      else if ltb (rune_count raw) 12 || ltb 72 (rune_count raw)
      then err (invalid "password must be between 12 and 72 characters")
      else then_check (scan raw nothing_seen) raw
