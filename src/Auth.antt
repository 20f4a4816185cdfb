-- ===== src/Auth.antt =====
-- services/auth-service/internal/service/auth_service.go.
pub mod Sessions
pub mod Server
pub mod Checks
pub mod Tests
use inline_chat.Prelude.{
  ℕ, String, Bool, true, false, not, ◌||◌, none, some, List, ◌==◌, str_eq, if◌then◌else◌,
}
use inline_chat.Prelude.Text.{trim_space, to_lower}
use inline_chat.Errors.{
  Error, Result, ok, err, invalid, wrapped, is_not_found, unauthorized, invalid_credentials,
}
use inline_chat.Effects.{Effect, pure, raise, raise_if, return, attempt, map_error, ◌>>=◌, ◌>>◌}
use inline_chat.Accounts.{
  Accounts, AccountTables, agent_by_email, agent_by_id, super_admin_by_email, super_admin_by_id,
  create_super_admin, save_super_admin,
}
use inline_chat.Accounts.Model.{Agent, SuperAdmin}
use inline_chat.Accounts.Versions.{normalize_token_version, is_active}
use inline_chat.Accounts.Passwords.{Letters, validate_password_policy}
use inline_chat.Accounts.Tokens.{
  Crypto, Claims, issue_token, parse_token_any, build_jwt_verify_secrets,
}

-- The fields of AuthService, and what its code calls.
pub record AuthService (A P : Type 0) : Type 0 where
  pub tables : AccountTables A P
  pub crypto : Crypto
  pub letters : Letters
  pub jwt_secret : String
  pub jwt_verify_secrets : List String
  pub jwt_issuer : String
  pub jwt_expire : ℕ
  pub bcrypt_cost : ℕ
  pub super_admin_email : String
  pub super_admin_password : String
  pub super_admin_display_name : String

unfoldable pub new :
    {A P : Type 0}
    → AccountTables A P
    → Crypto
    → Letters
    → String
    → String
    → String
    → ℕ
    → ℕ
    → String
    → String
    → String
    → AuthService A P
unfolding build_jwt_verify_secrets to_lower trim_space
new tables crypto letters secret previous issuer expire cost email password display_name = record {
  tables = tables;
  crypto = crypto;
  letters = letters;
  jwt_secret = secret;
  jwt_verify_secrets = build_jwt_verify_secrets secret previous;
  jwt_issuer = issuer;
  jwt_expire = expire;
  bcrypt_cost = cost;
  super_admin_email = to_lower (trim_space email);
  super_admin_password = trim_space password;
  super_admin_display_name = trim_space display_name;
}

pub record AuthResult : Type 0 where
  pub token : String
  pub agent : Agent

-- The account that a login as super admin answers with.
abbrev pub as_agent : SuperAdmin → Agent
as_agent a = record {
  id = a.id;
  email = a.email;
  password_hash = "";
  display_name = a.display_name;
  site_id = "";
  role = "super_admin";
  status = a.status;
  token_version = normalize_token_version a.token_version;
}

module _ {A P : Type 0} (svc : AuthService A P) where
  -- `if err := security.ComparePassword(…); err != nil { return ErrInvalidCredential }`
  check_password : String → String → Result (Unit {0})
  check_password hash raw = elim (svc.crypto.compare_hash hash raw) [
    | none ↦ ok tt
    | some e ↦ err invalid_credentials
  ]

  issue : ℕ → String → String → ℕ → ℕ → Result String
  unfolding issue_token
  issue id email role version now =
      issue_token svc.crypto svc.jwt_secret svc.jwt_issuer svc.jwt_expire id email role version now

  login_super_admin : String → ℕ → SuperAdmin → Effect (Accounts A P) AuthResult
  unfolding check_password issue is_active normalize_token_version
  login_super_admin password now a = do
    raise_if (not (is_active a.status)) unauthorized
    return (check_password a.password_hash password)
    token ← return (issue a.id a.email "super_admin" (normalize_token_version a.token_version) now)
    pure (record { token = token; agent = as_agent a })

  login_agent : String → ℕ → Agent → Effect (Accounts A P) AuthResult
  unfolding check_password issue is_active normalize_token_version
  login_agent password now a = do
    raise_if (not (is_active a.status)) unauthorized
    return (check_password a.password_hash password)
    token ← return (issue a.id a.email a.role (normalize_token_version a.token_version) now)
    pure (record { token = token; agent = a })

  abbrev pub missing_is : Error → Error → Error
  missing_is instead e = if is_not_found e then instead else e

  login_found : String → String → ℕ → Result SuperAdmin → Effect (Accounts A P) AuthResult
  unfolding login_super_admin login_agent agent_by_email
  login_found email password now (ok a) = login_super_admin password now a
  login_found email password now (err e) =
      let as_agent =
        map_error (missing_is invalid_credentials) (agent_by_email svc.tables email)
        >>= login_agent password now in
      if not (is_not_found e) then raise e else as_agent

  unfoldable pub login : String → String → ℕ → Effect (Accounts A P) AuthResult
  unfolding login_found super_admin_by_email to_lower trim_space
  login raw_email password now = do
    let email = to_lower (trim_space raw_email)
    raise_if (str_eq email "" || str_eq (trim_space password) "") invalid_credentials
    found ← attempt (super_admin_by_email svc.tables email)
    login_found email password now found

  unfoldable pub parse_token : String → ℕ → Result Claims
  unfolding parse_token_any
  parse_token token now = parse_token_any svc.crypto svc.jwt_verify_secrets svc.jwt_issuer now token

  -- The state and the version of an account against the claims.
  unfoldable pub check_account : String → ℕ → Claims → Result (Unit {0})
  unfolding is_active normalize_token_version
  check_account status version claims =
      if not (is_active status)
      then err unauthorized
      else if not (normalize_token_version claims.token_version == normalize_token_version version)
      then err unauthorized
      else ok tt

  unfoldable pub check_session : Claims → Effect (Accounts A P) (Unit {0})
  unfolding check_account super_admin_by_id agent_by_id to_lower trim_space
  check_session claims =
      let role = to_lower (trim_space claims.role) in
      let as_super_admin =
        map_error (missing_is unauthorized) (super_admin_by_id svc.tables claims.agent_id) >>= λ a.
        return (check_account a.status a.token_version claims) in
      let as_agent =
        map_error (missing_is unauthorized) (agent_by_id svc.tables claims.agent_id) >>= λ a.
        return (check_account a.status a.token_version claims) in
      if str_eq role "super_admin"
      then as_super_admin
      else if str_eq role "agent" || str_eq role "admin"
      then as_agent
      else raise unauthorized

  unfoldable pub validate_token : String → ℕ → Effect (Accounts A P) Claims
  unfolding parse_token check_session
  validate_token token now = do
    claims ← map_error (λ e. unauthorized) (return (parse_token token now))
    check_session claims
    pure claims

  unfoldable pub get_agent_by_id : ℕ → Effect (Accounts A P) Agent
  unfolding agent_by_id
  get_agent_by_id id = do
    raise_if (id == 0) unauthorized
    map_error (missing_is unauthorized) (agent_by_id svc.tables id)

  -- A new super admin, unless an agent has the email.
  create_super_admin_if_free : Result Agent → Effect (Accounts A P) (Unit {0})
  unfolding create_super_admin
  create_super_admin_if_free (ok a) = raise (invalid "SUPER_ADMIN_EMAIL already exists in agents")
  create_super_admin_if_free (err e) =
      let create = return (svc.crypto.hash svc.super_admin_password svc.bcrypt_cost) >>= λ hash.
      create_super_admin svc.tables (record {
        id = 0;
        email = svc.super_admin_email;
        password_hash = hash;
        display_name = svc.super_admin_display_name;
        status = "active";
        token_version = 1;
      }) in
      if not (is_not_found e) then raise e else create

  -- The hash to keep, and whether it is new.
  wanted_hash : SuperAdmin → Result (String × Bool)
  wanted_hash a = elim (svc.crypto.compare_hash a.password_hash svc.super_admin_password) [
    | none ↦ ok (a.password_hash, false)
    | some e ↦ elim (svc.crypto.hash svc.super_admin_password svc.bcrypt_cost) [
      | ok h ↦ ok (h, true)
      | err e' ↦ err e'
    ]
  ]

  -- The row that the environment asks for.
  abbrev pub corrected : SuperAdmin → String → SuperAdmin
  corrected a hash = record a {
    display_name = svc.super_admin_display_name;
    status = if is_active a.status then a.status else "active";
    token_version = normalize_token_version a.token_version;
    password_hash = hash;
  }

  -- `needSave`
  abbrev pub differs : SuperAdmin → Bool → Bool
  differs a rehashed =
      not (str_eq a.display_name svc.super_admin_display_name)
      || not (is_active a.status)
      || a.token_version == 0
      || rehashed

  correct_super_admin : SuperAdmin → Effect (Accounts A P) (Unit {0})
  unfolding wanted_hash save_super_admin is_active normalize_token_version
  correct_super_admin a = do
    (hash, rehashed) ← return (wanted_hash a)
    if differs a rehashed then save_super_admin svc.tables (corrected a hash) else pure tt

  ensure_found : Result SuperAdmin → Effect (Accounts A P) (Unit {0})
  unfolding correct_super_admin create_super_admin_if_free agent_by_email
  ensure_found (ok a) = correct_super_admin a
  ensure_found (err e) =
      let create =
        attempt (agent_by_email svc.tables svc.super_admin_email) >>= create_super_admin_if_free in
      if is_not_found e then create else raise e

  unfoldable pub ensure_super_admin : Effect (Accounts A P) (Unit {0})
  unfolding ensure_found validate_password_policy super_admin_by_email
  ensure_super_admin = do
    raise_if
        (str_eq svc.super_admin_email ""
          || str_eq svc.super_admin_password ""
          || str_eq svc.super_admin_display_name "")
        (invalid "super admin env is required")
    map_error (wrapped "invalid SUPER_ADMIN_PASSWORD")
        (return (validate_password_policy svc.letters svc.super_admin_password))
    found ← attempt (super_admin_by_email svc.tables svc.super_admin_email)
    ensure_found found
