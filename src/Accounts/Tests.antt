-- ===== src/Accounts/Tests.antt =====
-- Accounts in memory, a signature that knows two tokens, and a password policy with the letters of ASCII.
use inline_chat.Prelude.{
  ℕ, String, Bool, true, false, not, ◌&&◌, ◌≡◌, refl, List, [], ◌∷◌, none, some, leb, ◌==◌, str_eq,
  if◌then◌else◌, arith, ==_iff, eq_iff, eq_refl, Bool-cases, inl, inr, sym, ap, Option, ◌∙◌,
}
use inline_chat.Errors.{Error, Result, ok, err, invalid, is_err, ok-injective}
use inline_chat.Store.Memory.{memory_table, memory_keyed_table}
use inline_chat.Accounts.{Accounts, AccountTables, same_agent, same_super_admin, SuperAdminFills}
use inline_chat.Accounts.Model.{Agent, SuperAdmin}
use inline_chat.Accounts.Passwords.{Letters, validate_password_policy}
use inline_chat.Accounts.Passwords.Policy.{validate_password_policy-is_strong, is_strong, is_solid}
use inline_chat.Accounts.Tokens.{Claims, Crypto}

abbrev pub ascii : Letters
ascii = record {
  is_upper = λ c. leb 65 c && leb c 90;
  is_lower = λ c. leb 97 c && leb c 122;
  is_digit = λ c. leb 48 c && leb c 57;
}

abbrev pub tables : AccountTables (List Agent) (List SuperAdmin)
tables = record {
  agent_table = memory_keyed_table (λ a. a.id) same_agent (λ n a. record a { id = n });
  super_admin_table =
      memory_table (λ a. a.id) same_super_admin (λ n a. record a { id = n }) SuperAdminFills
        (λ n a. refl) (λ n a. refl);
}

abbrev pub ann : Agent
ann = record {
  id = 7;
  email = "ann@x.io";
  password_hash = "Correct-horse1";
  display_name = "Ann";
  site_id = "site_test";
  role = "agent";
  status = "active";
  token_version = 3;
}

abbrev pub root : SuperAdmin
root = record {
  id = 1;
  email = "root@x.io";
  password_hash = "Battery-staple1";
  display_name = "Root";
  status = "active";
  token_version = 1;
}

abbrev pub accounts : Accounts (List Agent) (List SuperAdmin)
accounts = record { agents = ann ∷ []; super_admins = root ∷ [] }

-- The claims of a login of agent 7 at time 1000.
abbrev pub ann_claims : Claims
ann_claims = record {
  agent_id = 7;
  email = "ann@x.io";
  role = "agent";
  token_version = 3;
  issuer = "inlinechat";
  subject = "agent:7";
  issued_at = 1000;
  not_before = 1000;
  expires_at = 4600;
}

-- Those of the super admin.
abbrev pub root_claims : Claims
root_claims = record {
  agent_id = 1;
  email = "root@x.io";
  role = "super_admin";
  token_version = 1;
  issuer = "inlinechat";
  subject = "agent:1";
  issued_at = 1000;
  not_before = 1000;
  expires_at = 4600;
}

abbrev pub same_claims : Claims → Claims → Bool
same_claims c d =
    c.agent_id == d.agent_id
    && str_eq c.email d.email
    && str_eq c.role d.role
    && c.token_version == d.token_version
    && str_eq c.issuer d.issuer
    && str_eq c.subject d.subject
    && c.issued_at == d.issued_at
    && c.not_before == d.not_before
    && c.expires_at == d.expires_at

-- A login is signed for agent 7 only.
abbrev pub sign_one : String → Claims → Result String
sign_one secret c =
    if same_claims c ann_claims then ok "token-7" else err (invalid "unknown claims")

abbrev pub parse_one : String → String → ℕ → String → Result Claims
parse_one secret issuer now token =
    if str_eq token "token-7"
    then ok ann_claims
    else if str_eq token "token-1"
    then ok root_claims
    else err (invalid "invalid token")

same_claims-same : (c d : Claims) → same_claims c d ≡ true → c ≡ d
same_claims-same c d h =
    let a = (==_iff c.agent_id d.agent_id).0 (ground (arith, h)) in
    let b = (eq_iff c.email d.email).0 (ground (arith, h)) in
    let e = (eq_iff c.role d.role).0 (ground (arith, h)) in
    let f = (==_iff c.token_version d.token_version).0 (ground (arith, h)) in
    let g = (eq_iff c.issuer d.issuer).0 (ground (arith, h)) in
    let k = (eq_iff c.subject d.subject).0 (ground (arith, h)) in
    let l = (==_iff c.issued_at d.issued_at).0 (ground (arith, h)) in
    let m = (==_iff c.not_before d.not_before).0 (ground (arith, h)) in
    let n = (==_iff c.expires_at d.expires_at).0 (ground (arith, h)) in
    λ i. record {
      agent_id = a i;
      email = b i;
      role = e i;
      token_version = f i;
      issuer = g i;
      subject = k i;
      issued_at = l i;
      not_before = m i;
      expires_at = n i;
    }

pub parse_one-sign_one :
    (secret : String) (c : Claims) (token : String) (now : ℕ)
    → sign_one secret c ≡ ok token
    → parse_one secret c.issuer now token ≡ ok c
parse_one-sign_one secret c token now h = elim (Bool-cases (same_claims c ann_claims)) [
  | inl e ↦
      let made : "token-7" ≡ token =
        ok-injective
          (sym (ap (λ b. if b then ok "token-7" else err (invalid "unknown claims")) e) ∙ h) in
      ap (λ t. parse_one secret c.issuer now t) (sym made)
      ∙ ap ok (sym (same_claims-same c ann_claims e))
  | inr e ↦ absurd (ground (arith, h, e))
]

abbrev pub compare_plain : String → String → Option Error
compare_plain h raw = if str_eq h raw then none else some (invalid "mismatch")

pub compare_plain-same : (raw h : String) → ok raw ≡ ok h → compare_plain h raw ≡ none
compare_plain-same raw h e = ground (arith, ap (λ x. str_eq x raw) (ok-injective e), eq_refl raw)

abbrev pub crypto : Crypto
crypto = record {
  sign = sign_one;
  parse = parse_one;
  hash = λ raw cost. ok raw;
  compare_hash = compare_plain;
  parse_signed =
      λ secret c token now signed early late. parse_one-sign_one secret c token now signed;
  compare_hashed = λ raw cost h e. compare_plain-same raw h e;
}

validate_password_policy-is_strong_example :
    is_err (validate_password_policy ascii "Correct-horse1")
    ≡ not (is_strong ascii "Correct-horse1")
validate_password_policy-is_strong_example =
    validate_password_policy-is_strong ascii "Correct-horse1"

strong_test : is_strong ascii "Correct-horse1" ≡ true
unfolding is_solid
strong_test = refl

weak_test : is_strong ascii "SuperAdmin123!" ≡ false
unfolding is_solid
weak_test = refl
