-- ===== src/Prelude/Text/Digits.antt =====
-- Numbers in base 10 are read back.
use Prim.Native.Nat.{ℕ, zero, suc, ◌/◌, ◌%◌, ◌*◌, ◌+◌, ◌<◌, ◌≤◌}
use Prim.Native.Char.{Char}
use Prim.Native.String.{String, ◌++◌, char_at}
use mathlib.Core.Path.{◌≡◌, refl, ap, ◌∙◌, sym}
use mathlib.Core.Option.{none, some}
use native.Mathlib.Omega.{arith}
use text.Mathlib.TextLemmas.{append_assoc, append_cancel_left, cons-append, nil-append}
use inline_chat.Prelude.Tests.{ltb, Bool-cases}
use mathlib.Core.Logic.{inl, inr}
use inline_chat.Prelude.Text.{digit, digits_of, digit_value, format_uint}

-- The number that a text begins with, and what comes after it.
read_number : ℕ → String → ℕ × String
unfolding digit_value
read_number acc String.[] = (acc, String.[])
read_number acc (String.◌∷◌ c s) = elim (digit_value c) [
  | none ↦ (acc, String.◌∷◌ c s)
  | some d ↦ read_number (acc * 10 + d) s
]

digit_value-char_at : (d : ℕ) → d < 10 → digit_value (char_at "0123456789" d) ≡ some d
unfolding digit_value
digit_value-char_at zero h = refl
digit_value-char_at (suc zero) h = refl
digit_value-char_at (suc (suc zero)) h = refl
digit_value-char_at (suc (suc (suc zero))) h = refl
digit_value-char_at (suc (suc (suc (suc zero)))) h = refl
digit_value-char_at (suc (suc (suc (suc (suc zero))))) h = refl
digit_value-char_at (suc (suc (suc (suc (suc (suc zero)))))) h = refl
digit_value-char_at (suc (suc (suc (suc (suc (suc (suc zero))))))) h = refl
digit_value-char_at (suc (suc (suc (suc (suc (suc (suc (suc zero)))))))) h = refl
digit_value-char_at (suc (suc (suc (suc (suc (suc (suc (suc (suc zero))))))))) h = refl
digit_value-char_at (suc (suc (suc (suc (suc (suc (suc (suc (suc (suc d)))))))))) h =
    absurd (omega (arith, h))

read_number-cons :
    (acc d : ℕ) (c : Char) (s : String)
    → digit_value c ≡ some d
    → read_number acc (String.◌∷◌ c s) ≡ read_number (acc * 10 + d) s
unfolding read_number
read_number-cons acc d c s h = rw (h, read_number) refl

colon-cons : (t : String) → ":" ++ t ≡ String.◌∷◌ (char_at ":" 0) t
colon-cons t =
    cons-append (char_at ":" 0) String.[] t ∙ ap (String.◌∷◌ (char_at ":" 0)) (nil-append t)

colon :
    (n : ℕ) (t : String)
    → read_number n (String.◌∷◌ (char_at ":" 0) t) ≡ (n, String.◌∷◌ (char_at ":" 0) t)
unfolding read_number digit_value
colon n t = refl

read_number-digit :
    (acc n : ℕ) (t : String) → read_number acc (digit n ++ t) ≡ read_number (acc * 10 + n % 10) t
unfolding digit
read_number-digit acc n t =
    ap (read_number acc) (
      cons-append (char_at "0123456789" (n % 10)) String.[] t
      ∙ ap (String.◌∷◌ (char_at "0123456789" (n % 10))) (nil-append t))
    ∙ read_number-cons acc (n % 10) (char_at "0123456789" (n % 10)) t
        (digit_value-char_at (n % 10) (omega arith))

read_number-digits_of :
    (fuel n : ℕ) (t : String) → n < fuel → read_number 0 (digits_of fuel n ++ t) ≡ read_number n t
unfolding digits_of
read_number-digits_of zero n t h = absurd (omega (arith, h))
read_number-digits_of (suc fuel) n t h = elim (Bool-cases (ltb n 10)) [
  | inl short ↦
      let small : n < 10 = ground (arith, short) in
      rw short (read_number-digit 0 n t ∙ ap (λ k. read_number k t) (omega (arith, small)))
  | inr long ↦
      let big : 10 ≤ n = ground (arith, long) in
      rw long (
        ap (read_number 0) (append_assoc (digits_of fuel (n / 10)) (digit n) t)
        ∙ read_number-digits_of fuel (n / 10) (digit n ++ t) (omega (arith, h, big))
        ∙ read_number-digit (n / 10) n t
        ∙ ap (λ k. read_number k t) (omega arith))
]

format_uint-read :
    (n : ℕ) (t : String)
    → read_number 0 (format_uint n ++ (":" ++ t)) ≡ (n, String.◌∷◌ (char_at ":" 0) t)
unfolding format_uint
format_uint-read n t =
    read_number-digits_of (suc n) n (":" ++ t) (omega arith)
    ∙ ap (read_number n) (colon-cons t)
    ∙ colon n t

-- A number, a colon and a text are told apart by the text that they make.
pub colon-injective :
    (m n : ℕ) (s t : String)
    → format_uint m ++ (":" ++ s) ≡ format_uint n ++ (":" ++ t)
    → (m ≡ n) × (s ≡ t)
colon-injective m n s t e =
    let same = sym (format_uint-read m s) ∙ ap (read_number 0) e ∙ format_uint-read n t in
    (
      ap (λ r. r.0) same,
      append_cancel_left ":" s t (colon-cons s ∙ ap (λ r. r.1) same ∙ sym (colon-cons t)),
    )
