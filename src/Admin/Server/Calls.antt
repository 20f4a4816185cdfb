-- ===== src/Admin/Server/Calls.antt =====
-- The methods of AdminGatewayServer.
use inline_chat.Prelude.{ℕ, String, List, Bool, ◌||◌, ◌==◌, ltb, map}
use inline_chat.Prelude.Int.{ℤ, positive_or, is_negative, to_nat}
use inline_chat.Prelude.Text.{trim_space}
use inline_chat.Errors.{Result}
use inline_chat.Accounts.Tokens.{Claims}
use inline_chat.Auth.Server.{AgentPb, to_agent_pb}
use inline_chat.Admin.{Database, list_audit_logs}
use inline_chat.Admin.Model.{SiteAiConfig, AuditLog}
use inline_chat.Admin.Agents.{
  CreateAgentInput, create_agent, list_agents, get_agent_by_id, update_agent_status,
  reset_agent_password, force_agent_logout,
}
use inline_chat.Admin.Sites.{
  create_site, update_site, update_site_status, rotate_site_widget_key, list_sites,
  get_site_by_site_id, get_site_by_domain, get_site_ai_config, update_site_ai_config,
}
use inline_chat.Admin.Server.{
  AdminServer, SitePb, Handler, to_site_pb, to_actor_context, map_error, answer_with,
  internal_error, refuse_if, bad_argument, blank, as_admin, as_super_admin,
}

-- The requests of the service AdminGatewayService, each with its header `authorization` first where it
-- has one. `random` is what crypto/rand gives.
pub data Call : Type 0 where
  creates_site : String → String → String → String → List String → Result (List ℕ) → Call
  updates_site : String → String → String → List String → Call
  updates_site_status : String → String → String → Call
  rotates_site_widget_key : String → String → Result (List ℕ) → Call
  gets_site_ai_config : String → Call
  updates_site_ai_config : String → String → Bool → String → Call
  lists_sites : String → ℤ → ℤ → Call
  gets_site_by_site_id : String → Call
  gets_site_by_domain : String → Call
  creates_agent : String → CreateAgentInput → Call
  gets_agent_by_id : ℕ → Call
  lists_agents : String → ℤ → ℤ → Call
  updates_agent_status : String → ℕ → String → Call
  resets_agent_password : String → ℕ → String → Call
  forces_agent_logout : String → ℕ → Call
  lists_audit_logs : String → ℤ → ℤ → ℕ → String → String → Call

pub data Body : Type 0 where
  site_body : SitePb → Body
  sites_body : List SitePb → Body
  ai_config_body : SiteAiConfig → Body
  agent_body : AgentPb → Body
  agents_body : List AgentPb → Body
  audit_logs_body : List AuditLog → Body

module _ {A P S D I L : Type 0} (s : AdminServer A P S D I L) where
  abbrev Handle : Type 0
  Handle = Handler (Database A P S D I L) Body

  create_site_call : String → String → String → List String → Result (List ℕ) → Claims → Handle
  unfolding create_site to_site_pb map_error
  create_site_call site_id name domain domains random claims =
      refuse_if (blank site_id || blank name) (bad_argument "site_id and name are required") (
        answer_with map_error (λ x. site_body (to_site_pb x))
          (create_site s.admin_service site_id name domain domains random
            (to_actor_context claims)))

  update_site_call : String → String → List String → Claims → Handle
  unfolding update_site to_site_pb map_error
  update_site_call site_id name domains claims =
      refuse_if (blank site_id || blank name) (bad_argument "site_id and name are required") (
        answer_with map_error (λ x. site_body (to_site_pb x))
          (update_site s.admin_service site_id name domains (to_actor_context claims)))

  update_site_status_call : String → String → Claims → Handle
  unfolding update_site_status to_site_pb map_error
  update_site_status_call site_id status claims =
      answer_with map_error (λ x. site_body (to_site_pb x))
        (update_site_status s.admin_service site_id status (to_actor_context claims))

  rotate_site_widget_key_call : String → Result (List ℕ) → Claims → Handle
  unfolding rotate_site_widget_key to_site_pb map_error
  rotate_site_widget_key_call site_id random claims =
      answer_with map_error (λ x. site_body (to_site_pb x))
        (rotate_site_widget_key s.admin_service site_id random (to_actor_context claims))

  get_site_ai_config_call : String → Handle
  unfolding get_site_ai_config map_error
  get_site_ai_config_call site_id =
      answer_with map_error ai_config_body (get_site_ai_config s.admin_service site_id)

  update_site_ai_config_call : String → Bool → String → Claims → Handle
  unfolding update_site_ai_config map_error
  update_site_ai_config_call site_id enabled mode claims =
      answer_with map_error ai_config_body
        (update_site_ai_config s.admin_service site_id enabled mode (to_actor_context claims))

  -- The page of a list: 50 rows by default, 200 at most.
  paged : (ℕ → ℕ → Handle) → ℤ → ℤ → Handle
  paged list limit offset =
      refuse_if (ltb 200 (positive_or 50 limit)) (bad_argument "invalid limit") (
        refuse_if (is_negative offset) (bad_argument "invalid offset")
          (list (positive_or 50 limit) (to_nat offset)))

  list_sites_call : ℤ → ℤ → Handle
  unfolding paged list_sites to_site_pb
  list_sites_call = paged (λ limit offset.
      answer_with internal_error (λ xs. sites_body (map to_site_pb xs))
        (list_sites s.admin_service limit offset))

  get_site_by_site_id_call : String → Handle
  unfolding get_site_by_site_id to_site_pb map_error trim_space
  get_site_by_site_id_call site_id =
      refuse_if (blank site_id) (bad_argument "site_id is required") (
        answer_with map_error (λ x. site_body (to_site_pb x))
          (get_site_by_site_id s.admin_service (trim_space site_id)))

  get_site_by_domain_call : String → Handle
  unfolding get_site_by_domain to_site_pb map_error trim_space
  get_site_by_domain_call domain = refuse_if (blank domain) (bad_argument "domain is required") (
      answer_with map_error (λ x. site_body (to_site_pb x))
        (get_site_by_domain s.admin_service (trim_space domain)))

  create_agent_call : CreateAgentInput → Claims → Handle
  unfolding create_agent map_error
  create_agent_call input claims =
      answer_with map_error (λ x. agent_body (to_agent_pb x))
        (create_agent s.admin_service input (to_actor_context claims))

  get_agent_by_id_call : ℕ → Handle
  unfolding get_agent_by_id map_error
  get_agent_by_id_call id =
      refuse_if (id == 0) (bad_argument "agent_id is required") (
        answer_with map_error (λ x. agent_body (to_agent_pb x))
          (get_agent_by_id s.admin_service id))

  list_agents_call : ℤ → ℤ → Handle
  unfolding paged list_agents
  list_agents_call = paged (λ limit offset.
      answer_with internal_error (λ xs. agents_body (map to_agent_pb xs))
        (list_agents s.admin_service limit offset))

  update_agent_status_call : ℕ → String → Claims → Handle
  unfolding update_agent_status map_error
  update_agent_status_call id status claims =
      answer_with map_error (λ x. agent_body (to_agent_pb x))
        (update_agent_status s.admin_service id status (to_actor_context claims))

  reset_agent_password_call : ℕ → String → Claims → Handle
  unfolding reset_agent_password map_error
  reset_agent_password_call id password claims =
      answer_with map_error (λ x. agent_body (to_agent_pb x))
        (reset_agent_password s.admin_service id password (to_actor_context claims))

  force_agent_logout_call : ℕ → Claims → Handle
  unfolding force_agent_logout map_error
  force_agent_logout_call id claims =
      answer_with map_error (λ x. agent_body (to_agent_pb x))
        (force_agent_logout s.admin_service id (to_actor_context claims))

  list_audit_logs_call : ℤ → ℤ → ℕ → String → String → Handle
  unfolding list_audit_logs map_error
  list_audit_logs_call limit offset actor action resource_type =
      answer_with map_error audit_logs_body
        (list_audit_logs s.admin_service limit offset actor action resource_type)

  unfoldable pub handle : Call → ℕ → Handle
  unfolding as_admin as_super_admin create_site_call update_site_call update_site_status_call
      rotate_site_widget_key_call get_site_ai_config_call update_site_ai_config_call list_sites_call
      get_site_by_site_id_call get_site_by_domain_call create_agent_call get_agent_by_id_call
      list_agents_call update_agent_status_call reset_agent_password_call force_agent_logout_call
      list_audit_logs_call
  handle (creates_site auth site_id name domain domains random) now =
      as_admin s auth now (create_site_call site_id name domain domains random)
  handle (updates_site auth site_id name domains) now =
      as_admin s auth now (update_site_call site_id name domains)
  handle (updates_site_status auth site_id status) now =
      as_super_admin s auth now (update_site_status_call site_id status)
  handle (rotates_site_widget_key auth site_id random) now =
      as_super_admin s auth now (rotate_site_widget_key_call site_id random)
  handle (gets_site_ai_config site_id) now = get_site_ai_config_call site_id
  handle (updates_site_ai_config auth site_id enabled mode) now =
      as_super_admin s auth now (update_site_ai_config_call site_id enabled mode)
  handle (lists_sites auth limit offset) now =
      as_admin s auth now (λ claims. list_sites_call limit offset)
  handle (gets_site_by_site_id site_id) now = get_site_by_site_id_call site_id
  handle (gets_site_by_domain domain) now = get_site_by_domain_call domain
  handle (creates_agent auth input) now = as_super_admin s auth now (create_agent_call input)
  handle (gets_agent_by_id id) now = get_agent_by_id_call id
  handle (lists_agents auth limit offset) now =
      as_admin s auth now (λ claims. list_agents_call limit offset)
  handle (updates_agent_status auth id status) now =
      as_super_admin s auth now (update_agent_status_call id status)
  handle (resets_agent_password auth id password) now =
      as_super_admin s auth now (reset_agent_password_call id password)
  handle (forces_agent_logout auth id) now = as_super_admin s auth now (force_agent_logout_call id)
  handle (lists_audit_logs auth limit offset actor action resource_type) now =
      as_admin s auth now (λ claims. list_audit_logs_call limit offset actor action resource_type)
