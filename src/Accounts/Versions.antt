-- ===== src/Accounts/Versions.antt =====
-- Token versions and account states, as both services read them.
use inline_chat.Prelude.{
  ℕ, ◌+◌, ◌%◌, ◌<◌, ◌≡◌, ◌≢◌, String, Bool, str_eq, if◌then◌else◌, ◌==◌, arith, refl, true, false,
}
use inline_chat.Prelude.Text.{trim_space, to_lower, equal_fold}

abbrev pub uint64 : ℕ
uint64 = 18446744073709551616

unfoldable pub normalize_token_version : ℕ → ℕ
normalize_token_version v = if v == 0 then 1 else v

-- In the 64 bits of the column.
unfoldable pub next_token_version : ℕ → ℕ
next_token_version current = if current == 0 then 2 else (current + 1) % uint64

-- isActiveStatus of the auth service.
unfoldable pub is_active : String → Bool
unfolding equal_fold trim_space
is_active status = equal_fold (trim_space status) "active"

-- The test of the admin service.
unfoldable pub is_active_lower : String → Bool
unfolding to_lower trim_space
is_active_lower status = str_eq (to_lower (trim_space status)) "active"

-- The next version of a token is never the current one, also where it wraps around.
pub normalize-next :
    (v : ℕ)
    → v < uint64
    → normalize_token_version (next_token_version v) ≢ normalize_token_version v
unfolding normalize_token_version next_token_version
normalize-next v h = ground arith

-- The Turkish capital İ ends in i under strings.ToLower, and not under strings.EqualFold.
dotted_capital : is_active "ACTİVE" ≡ false
unfolding is_active
dotted_capital = refl

dotted_capital_lower : is_active_lower "ACTİVE" ≡ true
unfolding is_active_lower
dotted_capital_lower = refl
