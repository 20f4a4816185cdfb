-- ===== src/Admin/Server.antt =====
-- services/admin-service/internal/grpcserver/server.go. Its responses leave out the times.
pub mod Calls
pub mod Access
use inline_chat.Prelude.{ℕ, String, List, [], ◌∷◌, Bool, not, ◌&&◌, ◌||◌, str_eq, if◌then◌else◌}
use inline_chat.Prelude.Text.{trim_space, to_lower, contains, parse_bearer_token}
use inline_chat.Errors.{
  Error, Result, ok, err, error_text, conflict, resource_not_found, invalid_session,
}
use inline_chat.Grpc.{
  Status, Reply, answered, refused, refuse, invalid_argument, already_exists, permission_denied,
  missing, internal, unauthenticated,
}
use inline_chat.Effects.{Effect}
use inline_chat.Accounts.Tokens.{Claims, build_jwt_verify_secrets, parse_token_any}
use inline_chat.Admin.{Database, AdminService, ActorContext}
use inline_chat.Admin.Model.{Site}
use inline_chat.Admin.Sessions.{validate_admin_session}

pub record AdminServer (A P S D I L : Type 0) : Type 0 where
  pub admin_service : AdminService A P S D I L
  pub jwt_secrets : List String
  pub jwt_issuer : String

unfoldable pub new :
    {A P S D I L : Type 0}
    → AdminService A P S D I L
    → String
    → String
    → String
    → AdminServer A P S D I L
unfolding build_jwt_verify_secrets
new svc secret previous issuer = record {
  admin_service = svc;
  jwt_secrets = build_jwt_verify_secrets secret previous;
  jwt_issuer = issuer;
}

pub record SitePb : Type 0 where
  pub id : ℕ
  pub site_id : String
  pub name : String
  pub domain : String
  pub domains : List String
  pub widget_key : String
  pub status : String

first_domain : List String → String
first_domain [] = ""
first_domain (d ∷ ds) = d

unfoldable pub to_site_pb : Site → SitePb
unfolding first_domain
to_site_pb s = record {
  id = s.row.id;
  site_id = s.row.site_id;
  name = s.row.name;
  domain = first_domain s.domains;
  domains = s.domains;
  widget_key = s.row.widget_key;
  status = s.row.status;
}

abbrev pub to_actor_context : Claims → ActorContext
to_actor_context c = record {
  agent_id = c.agent_id;
  email = c.email;
  role = c.role;
  ip = "";
  user_agent = "";
}

-- The default of the switch.
status_of_text : Error → Status
unfolding to_lower contains error_text
status_of_text e =
    let msg = to_lower (error_text e) in
    if contains msg "required"
      || contains msg "invalid"
      || contains msg "password"
      || contains msg "status"
      || contains msg "format"
      || contains msg "length"
    then record { code = invalid_argument; text = error_text e }
    else record { code = internal; text = "internal error" }

unfoldable pub map_error : Error → Status
unfolding status_of_text error_text
map_error conflict = record { code = already_exists; text = error_text conflict }
map_error resource_not_found = record { code = missing; text = error_text resource_not_found }
map_error e = status_of_text e

-- The answer of a handler over a state.
abbrev pub Handler : Type 0 → Type 0 → Type 0
Handler W X = W → Reply X × W

abbrev pub reply_with : {X Y : Type 0} → (Error → Status) → (X → Y) → Result X → Reply Y
reply_with status f (ok x) = answered (f x)
reply_with status f (err e) = refused (status e)

-- `if svcErr != nil { return nil, mapError(svcErr) }`, and the conversion of the value.
abbrev pub answer_with : {W X Y : Type 0} → (Error → Status) → (X → Y) → Effect W X → Handler W Y
answer_with status f m w = let (r, w') = m w in (reply_with status f r, w')

abbrev pub internal_error : Error → Status
internal_error e = record { code = internal; text = "internal error" }

abbrev pub refuse_if : {W X : Type 0} → Bool → Status → Handler W X → Handler W X
refuse_if b s m w = if b then (refused s, w) else m w

abbrev pub bad_argument : String → Status
bad_argument text = record { code = invalid_argument; text = text }

abbrev pub blank : String → Bool
unfolding trim_space
blank s = str_eq (trim_space s) ""

module _ {A P S D I L : Type 0} (s : AdminServer A P S D I L) where
  -- The session of the claims, which reads the accounts only.
  session_reply : Claims → Result (Unit {0}) → Reply Claims
  session_reply claims (ok u) = answered claims
  session_reply claims (err invalid_session) = refuse unauthenticated "invalid token"
  session_reply claims (err e) = refuse internal "internal error"

  with_claims : Result Claims → Database A P S D I L → Reply Claims
  unfolding session_reply validate_admin_session
  with_claims (err e) w = refuse unauthenticated "invalid token"
  with_claims (ok claims) w =
      let checked =
        session_reply claims
          (validate_admin_session s.admin_service claims.role claims.agent_id claims.token_version
            w).0 in
      if not (str_eq claims.role "admin") && not (str_eq claims.role "super_admin")
      then refuse permission_denied "admin role required"
      else checked

  -- It reads the database and leaves it as it is.
  unfoldable pub require_admin : String → ℕ → Database A P S D I L → Reply Claims
  unfolding parse_bearer_token parse_token_any with_claims
  require_admin authorization now w =
      let token = parse_bearer_token authorization in
      let checked =
        with_claims (parse_token_any s.admin_service.crypto s.jwt_secrets s.jwt_issuer now token)
          w in
      if str_eq token "" then refuse unauthenticated "missing bearer token" else checked

  after :
      {X : Type 0}
      → Reply Claims
      → (Claims → Handler (Database A P S D I L) X)
      → Handler (Database A P S D I L) X
  after (answered claims) m w = m claims w
  after (refused r) m w = (refused r, w)

  unfoldable pub as_admin :
      {X : Type 0}
      → String
      → ℕ
      → (Claims → Handler (Database A P S D I L) X)
      → Handler (Database A P S D I L) X
  unfolding require_admin after
  as_admin authorization now m w = after (require_admin authorization now w) m w

  unfoldable pub as_super_admin :
      {X : Type 0}
      → String
      → ℕ
      → (Claims → Handler (Database A P S D I L) X)
      → Handler (Database A P S D I L) X
  unfolding as_admin
  as_super_admin authorization now m = as_admin authorization now (λ claims.
      refuse_if (not (str_eq claims.role "super_admin"))
        (record { code = permission_denied; text = "super_admin role required" }) (m claims))
