-- ===== src/Auth/Server.antt =====
-- services/auth-service/internal/grpcserver/server.go. time.Format is a parameter.
use inline_chat.Prelude.{ℕ, String, ◌||◌, str_eq, if◌then◌else◌}
use inline_chat.Prelude.Text.{trim_space, to_lower, contains, parse_bearer_token}
use inline_chat.Errors.{
  Error, Result, ok, err, error_text, forbidden, conflict, invalid_credentials, unauthorized,
}
use inline_chat.Grpc.{
  Status, Reply, answered, refused, refuse, invalid_argument, already_exists, permission_denied,
  internal, unauthenticated,
}
use inline_chat.Accounts.{Accounts}
use inline_chat.Accounts.Model.{Agent}
use inline_chat.Accounts.Tokens.{Claims}
use inline_chat.Auth.{AuthService, AuthResult, login, validate_token, get_agent_by_id}

-- authv1.Agent, less its times, and the two responses.
pub record AgentPb : Type 0 where
  pub id : ℕ
  pub email : String
  pub display_name : String
  pub site_id : String
  pub role : String
  pub status : String

pub record MeResponse : Type 0 where
  pub agent_id : ℕ
  pub email : String
  pub role : String
  pub exp : ℕ
  pub site_id : String

abbrev pub to_agent_pb : Agent → AgentPb
to_agent_pb a = record {
  id = a.id;
  email = a.email;
  display_name = a.display_name;
  site_id = a.site_id;
  role = a.role;
  status = a.status;
}

-- The default of the switch.
status_of_text : Error → Status
unfolding to_lower contains error_text
status_of_text e =
    let msg = to_lower (error_text e) in
    if contains msg "required" || contains msg "invalid"
    then record { code = invalid_argument; text = error_text e }
    else record { code = internal; text = "internal error" }

-- Here the sentinels are compared by ==, which does not look under %w.
unfoldable pub map_error : Error → Status
unfolding status_of_text error_text
map_error forbidden = record { code = permission_denied; text = error_text forbidden }
map_error conflict = record { code = already_exists; text = error_text conflict }
map_error invalid_credentials = record {
  code = unauthenticated;
  text = error_text invalid_credentials;
}
map_error unauthorized = record { code = permission_denied; text = error_text unauthorized }
map_error e = status_of_text e

module _ {A P : Type 0} (svc : AuthService A P) where
  login_reply : Result AuthResult → Reply (String × AgentPb)
  unfolding map_error
  login_reply (ok r) = answered (r.token, to_agent_pb r.agent)
  login_reply (err e) = refused (map_error e)

  unfoldable pub login_call :
      String → String → ℕ → Accounts A P → Reply (String × AgentPb) × Accounts A P
  unfolding login login_reply trim_space
  login_call email password now w =
      if str_eq (trim_space email) "" || str_eq (trim_space password) ""
      then (refuse invalid_argument "email and password are required", w)
      else (login_reply (login svc email password now w).0, (login svc email password now w).1)

  me_response : Claims → String → MeResponse
  me_response claims site = record {
    agent_id = claims.agent_id;
    email = claims.email;
    role = claims.role;
    exp = claims.expires_at;
    site_id = site;
  }

  me_of_agent : Claims → Result Agent → Reply MeResponse
  unfolding me_response
  me_of_agent claims (ok a) = answered (me_response claims a.site_id)
  me_of_agent claims (err e) = refuse unauthenticated "invalid token"

  -- The site is read for agents and admins.
  me_of : Result Claims → Accounts A P → Reply MeResponse
  unfolding me_of_agent me_response get_agent_by_id
  me_of (err e) w = refuse unauthenticated "invalid token"
  me_of (ok claims) w =
      if str_eq claims.role "agent" || str_eq claims.role "admin"
      then me_of_agent claims (get_agent_by_id svc claims.agent_id w).0
      else answered (me_response claims "")

  unfoldable pub me : String → ℕ → Accounts A P → Reply MeResponse × Accounts A P
  unfolding me_of validate_token parse_bearer_token
  me authorization now w =
      let token = parse_bearer_token authorization in
      let checked : Reply MeResponse × Accounts A P =
        (me_of (validate_token svc token now w).0 w, w) in
      if str_eq token "" then (refuse unauthenticated "missing bearer token", w) else checked
