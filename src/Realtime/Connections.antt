-- ===== src/Realtime/Connections.antt =====
-- services/realtime-service/internal/ws/handler.go: who may connect to a conversation.
pub mod Access
use Prim.Native.String.{◌++◌}
use inline_chat.Prelude.{
  ℕ, String, Bool, true, false, not, ◌&&◌, ◌||◌, Option, none, some, List, [], ◌∷◌, ◌==◌, str_eq,
  if◌then◌else◌,
}
use inline_chat.Prelude.Text.{trim_space, to_lower, equal_fold}
use inline_chat.Errors.{Result, ok, err}
use inline_chat.Grpc.{
  Code, Answer, given, failed_call, unauthenticated, permission_denied, deadline_exceeded, missing,
}
use inline_chat.Http.{Checked, passes, rejects, reject_if, UrlParser, ◌>>=◌, ◌>>◌}
use inline_chat.Accounts.Tokens.{Claims, Crypto, parse_token_any, build_jwt_verify_secrets}
use inline_chat.Realtime.Upstream.{Upstream, MeResult, ChatConversation, SiteView}
use inline_chat.Realtime.Origins.{
  normalize_origin, matches_any_site_domain, allowed_site_domains, has_text,
}

-- The fields of Handler, and what its code calls.
pub record Handler (W : Type 0) : Type 0 where
  pub upstream : Upstream W
  pub crypto : Crypto
  pub urls : UrlParser
  pub jwt_secrets : List String
  pub jwt_issuer : String
  pub allow_all_origins : Bool
  pub allowed_origins : List String

-- The loop over the configured origins: whether one is "*", and the others.
origins_of : UrlParser → List String → Bool × List String
unfolding normalize_origin trim_space
origins_of urls [] = (false, [])
origins_of urls (origin ∷ origins) =
    let (all, known) = origins_of urls origins in
    let trimmed = trim_space origin in
    let normalized = normalize_origin urls trimmed in
    if str_eq trimmed "*"
    then (true, known)
    else if str_eq normalized ""
    then (all, known)
    else (all, normalized ∷ known)

unfoldable pub new_handler :
    {W : Type 0}
    → Upstream W
    → Crypto
    → UrlParser
    → List String
    → String
    → String
    → String
    → Handler W
unfolding origins_of build_jwt_verify_secrets
new_handler upstream crypto urls origins secret previous issuer =
    let (all, known) = origins_of urls origins in
    record {
      upstream = upstream;
      crypto = crypto;
      urls = urls;
      jwt_secrets = build_jwt_verify_secrets secret previous;
      jwt_issuer = issuer;
      allow_all_origins = all;
      allowed_origins = known;
    }

pub record ConnectionContext : Type 0 where
  pub role : String
  pub agent_id : ℕ
  pub site_id : String
  pub site_domains : List String
  pub visitor_token : String

-- The switches over the status of an upstream error.
abbrev pub me_error : Option Code → Checked MeResult
me_error none = rejects 502 "upstream unavailable"
me_error (some c) = elim c [
  | unauthenticated ↦ rejects 401 "invalid access_token"
  | permission_denied ↦ rejects 403 "agent role required"
  | deadline_exceeded ↦ rejects 504 "upstream timeout"
  | _ ↦ rejects 502 "upstream unavailable"
]

abbrev pub missing_is : {A : Type 0} → ℕ → String → Option Code → Checked A
missing_is status text none = rejects 502 "upstream unavailable"
missing_is status text (some c) = elim c [
  | missing ↦ rejects status text
  | deadline_exceeded ↦ rejects 504 "upstream timeout"
  | _ ↦ rejects 502 "upstream unavailable"
]

pub me_answer : Answer MeResult → Checked MeResult
me_answer (given m) = passes m
me_answer (failed_call e) = me_error e.code

pub conversation_answer : Answer ChatConversation → Checked ChatConversation
conversation_answer (given c) = passes c
conversation_answer (failed_call e) = missing_is 404 "conversation not found" e.code

pub site_answer : Answer SiteView → Checked (Option SiteView)
unfolding to_lower trim_space
site_answer (failed_call e) = missing_is 409 "site is unavailable" e.code
site_answer (given site) =
    if not (str_eq (trim_space (to_lower site.status)) "active")
    then rejects 409 "site is not active"
    else passes (some site)

pub token_answer : Result Claims → Checked Claims
token_answer (ok c) = passes c
token_answer (err e) = rejects 401 "invalid access_token"

module _ {W : Type 0} (h : Handler W) where
  pub call_site : Option (String → W → Answer SiteView) → String → W → Checked (Option SiteView)
  unfolding site_answer trim_space
  call_site none site_id w = passes none
  call_site (some get) site_id w =
      if str_eq (trim_space site_id) ""
      then rejects 409 "site is unavailable"
      else site_answer (get (trim_space site_id) w)

  unfoldable pub validate_conversation_site : String → W → Checked (Option SiteView)
  unfolding call_site
  validate_conversation_site = call_site h.upstream.get_site

  pub call_me : Option (String → W → Answer MeResult) → String → W → Checked MeResult
  unfolding me_answer
  call_me none token w = rejects 502 "upstream unavailable"
  call_me (some me) token w = me_answer (me ("Bearer " ++ token) w)

  -- The token is verified here, and once more by auth-service.
  pub agent_context : String → ℕ → W → Checked ConnectionContext
  unfolding token_answer call_me parse_token_any trim_space
  agent_context token now w = do
    claims ← token_answer (parse_token_any h.crypto h.jwt_secrets h.jwt_issuer now token)
    reject_if (not (str_eq claims.role "agent")) 403 "agent role required"
    reject_if (claims.agent_id == 0) 401 "invalid access_token"
    me ← call_me h.upstream.me token w
    reject_if (not (str_eq (trim_space me.role) "agent")) 403 "agent role required"
    reject_if (me.agent_id == 0 || not (me.agent_id == claims.agent_id)) 401 "invalid access_token"
    passes (record {
      role = "agent";
      agent_id = me.agent_id;
      site_id = trim_space me.site_id;
      site_domains = [];
      visitor_token = "";
    })

  pub visitor_context : String → Checked ConnectionContext
  visitor_context token =
      if str_eq token ""
      then rejects 401 "visitor_token is required"
      else passes (record {
        role = "visitor";
        agent_id = 0;
        site_id = "";
        site_domains = [];
        visitor_token = token;
      })

  pub caller_context : String → String → ℕ → W → Checked ConnectionContext
  unfolding agent_context visitor_context trim_space
  caller_context access_token visitor_token now w =
      let token = trim_space access_token in
      if not (str_eq token "")
      then agent_context token now w
      else visitor_context (trim_space visitor_token)

  unfoldable pub resolve_connection_context :
      String → String → ℕ → ℕ → W → Checked ConnectionContext
  unfolding caller_context conversation_answer validate_conversation_site allowed_site_domains
      trim_space
  resolve_connection_context access_token visitor_token conversation_id now w = do
    caller ← caller_context access_token visitor_token now w
    conversation ← conversation_answer (h.upstream.get_conversation conversation_id w)
    reject_if
        (str_eq caller.role "visitor"
          && (str_eq (trim_space conversation.visitor_token) ""
              || not (str_eq conversation.visitor_token caller.visitor_token)))
        403 "invalid visitor_token"
    let site_id = trim_space conversation.site_id
    reject_if (str_eq site_id "") 409 "site is unavailable"
    site ← validate_conversation_site site_id w
    reject_if (str_eq caller.role "agent" && str_eq caller.site_id "") 403
        "agent site is unavailable"
    reject_if (str_eq caller.role "agent" && not (str_eq caller.site_id site_id)) 403 "forbidden"
    passes (record caller { site_id = site_id; site_domains = allowed_site_domains h.urls site })

  is_origin_allowed : String → Bool
  unfolding normalize_origin
  is_origin_allowed origin =
      let normalized = normalize_origin h.urls origin in
      if h.allow_all_origins
      then true
      else if str_eq normalized ""
      then false
      else has_text normalized h.allowed_origins

  of_site_or_listed : List String → String → Bool
  unfolding is_origin_allowed matches_any_site_domain
  of_site_or_listed [] origin = is_origin_allowed origin
  of_site_or_listed (d ∷ ds) origin = matches_any_site_domain h.urls (d ∷ ds) origin

  unfoldable pub is_origin_allowed_for_connection : String → ConnectionContext → Bool
  unfolding is_origin_allowed of_site_or_listed equal_fold trim_space
  is_origin_allowed_for_connection origin c =
      if h.allow_all_origins
      then true
      else if equal_fold (trim_space c.role) "visitor"
      then of_site_or_listed c.site_domains origin
      else is_origin_allowed origin
