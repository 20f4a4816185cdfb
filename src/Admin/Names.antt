-- ===== src/Admin/Names.antt =====
-- How services/admin-service/internal/service/admin_service.go reads what a caller types: site ids,
-- domains, agent ids, states and modes.
pub mod Domains
use Prim.Native.Char.{code}
use inline_chat.Prelude.{
  ℕ, zero, suc, String, Bool, true, false, not, ◌||◌, ◌&&◌, Option, none, some, List, [], ◌∷◌, ltb,
  leb, ◌==◌, str_eq, if◌then◌else◌, ◌≡◌, refl,
}
use inline_chat.Prelude.{◌++◌ as append}
use inline_chat.Prelude.Text.{
  trim_space, to_lower, contains, parse_uint64, format_padded4, byte_count,
}
use inline_chat.Errors.{Error, Result, ok, err, invalid, error_text}

is_name_start : ℕ → Bool
is_name_start c = (leb 97 c && leb c 122) || (leb 48 c && leb c 57)

is_name_char : ℕ → Bool
unfolding is_name_start
is_name_char c = is_name_start c || c == 95 || c == 45

all_name_chars : String → Bool
unfolding is_name_char
all_name_chars String.[] = true
all_name_chars (String.◌∷◌ c s) = is_name_char (code c) && all_name_chars s

-- ^[a-z0-9][a-z0-9_-]*$
unfoldable pub is_site_name : String → Bool
unfolding is_name_start all_name_chars
is_site_name String.[] = false
is_site_name (String.◌∷◌ c s) = is_name_start (code c) && all_name_chars s

unfoldable pub normalize_site_id : String → Result String
unfolding trim_space to_lower is_site_name byte_count
normalize_site_id raw =
    let site_id = trim_space (to_lower raw) in
    if str_eq site_id ""
    then err (invalid "site_id is required")
    else if ltb (byte_count site_id) 4 || ltb 64 (byte_count site_id)
    then err (invalid "site_id length must be between 4 and 64")
    else if not (is_site_name site_id)
    then err (invalid "site_id format is invalid")
    else ok site_id

unfoldable pub normalize_site_domain : String → Result String
unfolding trim_space to_lower
normalize_site_domain raw =
    let domain = trim_space (to_lower raw) in
    if str_eq domain "" then err (invalid "domain is required") else ok domain

abbrev pub is_among : String → List String → Bool
is_among s [] = false
is_among s (t ∷ ts) = str_eq s t || is_among s ts

-- The loop over the merged items; `normalized` holds those seen, in order.
unfoldable pub collect_domains : List String → List String → Result (List String)
unfolding normalize_site_domain
collect_domains [] normalized = ok normalized
collect_domains (item ∷ items) normalized = elim (normalize_site_domain item) [
  | err e ↦ err e
  | ok domain ↦
      collect_domains items
        (if is_among domain normalized then normalized else append normalized (domain ∷ []))
]

abbrev pub merged_domains : List String → String → List String
unfolding trim_space
merged_domains items fallback =
    if not (str_eq (trim_space fallback) "") then append items (fallback ∷ []) else items

unfoldable pub some_domain : Result (List String) → Result (List String)
some_domain (err e) = err e
some_domain (ok []) = err (invalid "at least one domain is required")
some_domain (ok (d ∷ ds)) = ok (d ∷ ds)

unfoldable pub normalize_site_domains : List String → String → Result (List String)
unfolding merged_domains collect_domains some_domain
normalize_site_domains items fallback =
    some_domain (collect_domains (merged_domains items fallback) [])

is_digit : ℕ → Bool
is_digit c = leb 48 c && leb c 57

-- ^\d{n}$
matches_digits : ℕ → String → Bool
unfolding is_digit
matches_digits zero String.[] = true
matches_digits zero (String.◌∷◌ c s) = false
matches_digits (suc n) String.[] = false
matches_digits (suc n) (String.◌∷◌ c s) = is_digit (code c) && matches_digits n s

agent_id_of : Option ℕ → Result ℕ
agent_id_of none = err (invalid "invalid agent_id")
agent_id_of (some zero) = err (invalid "agent_id 0000 is not allowed")
agent_id_of (some (suc n)) = ok (suc n)

unfoldable pub normalize_agent_id : String → Result ℕ
unfolding trim_space matches_digits agent_id_of parse_uint64
normalize_agent_id raw =
    let agent_id = trim_space raw in
    if str_eq agent_id ""
    then err (invalid "agent_id is required")
    else if not (matches_digits 4 agent_id)
    then err (invalid "agent_id must be exactly 4 digits")
    else agent_id_of (parse_uint64 agent_id)

unfoldable pub format_agent_id : ℕ → String
unfolding format_padded4
format_agent_id id = format_padded4 id

unfoldable pub normalize_site_status : String → Result String
unfolding trim_space to_lower
normalize_site_status raw =
    let status = to_lower (trim_space raw) in
    if not (str_eq status "active") && not (str_eq status "disabled")
    then err (invalid "invalid site status")
    else ok status

unfoldable pub normalize_agent_status : String → Result String
unfolding trim_space to_lower
normalize_agent_status raw =
    let status = to_lower (trim_space raw) in
    if not (str_eq status "active") && not (str_eq status "inactive")
    then err (invalid "invalid agent status")
    else ok status

abbrev pub unassigned_auto_reply : String
unassigned_auto_reply = "unassigned_auto_reply"

unfoldable pub normalize_site_ai_reply_mode : String → Result String
unfolding trim_space to_lower
normalize_site_ai_reply_mode raw =
    let typed = to_lower (trim_space raw) in
    let mode = if str_eq typed "" then unassigned_auto_reply else typed in
    if not (str_eq mode unassigned_auto_reply) then err (invalid "invalid reply_mode") else ok mode

unfoldable pub is_duplicate_error : Error → Bool
unfolding to_lower contains error_text
is_duplicate_error e =
    let msg = to_lower (error_text e) in contains msg "duplicate" || contains msg "unique"

site_id_test : normalize_site_id "  Site_Test " ≡ ok "site_test"
unfolding normalize_site_id
site_id_test = refl

agent_id_test : normalize_agent_id " 0042 " ≡ ok 42
unfolding normalize_agent_id
agent_id_test = refl
