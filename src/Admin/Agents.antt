-- ===== src/Admin/Agents.antt =====
-- The methods of AdminService on agents.
pub mod Revocation
use Prim.Native.String.{◌++◌}
use inline_chat.Prelude.{
  ℕ, String, true, not, ◌||◌, ◌&&◌, some, List, ◌==◌, str_eq, if◌then◌else◌, map,
}
use inline_chat.Prelude.Text.{trim_space, to_lower}
use inline_chat.Errors.{Result, ok, err, invalid, is_not_found, conflict}
use inline_chat.Effects.{Effect, pure, raise, raise_if, return, attempt, map_error, ◌>>=◌, ◌>>◌}
use inline_chat.Store.{Query}
use inline_chat.Accounts.{agent_by_id, create_agent_row, save_agent, super_admin_by_email}
use inline_chat.Accounts.Model.{Agent, SuperAdmin}
use inline_chat.Accounts.Versions.{next_token_version}
use inline_chat.Accounts.Passwords.{validate_password_policy}
use inline_chat.Admin.{
  Database, AdminService, ActorContext, on_accounts, as_resource_not_found, site_by_site_id,
  write_audit_log,
}
use inline_chat.Admin.Names.{
  normalize_agent_id, normalize_site_id, normalize_agent_status, format_agent_id,
  is_duplicate_error,
}

pub record CreateAgentInput : Type 0 where
  pub agent_id : String
  pub email : String
  pub password : String
  pub display_name : String
  pub role : String
  pub site_id : String

-- `role == ""` gives "agent", and no other role is taken.
abbrev pub agent_role : String → Result String
unfolding trim_space to_lower
agent_role raw =
    let role = trim_space (to_lower raw) in
    if str_eq role "" || str_eq role "agent" then ok "agent" else err (invalid "invalid role")

-- The columns that List selects: not the hash, and not the token version.
abbrev pub listed_columns : Agent → Agent
listed_columns a = record a { password_hash = ""; token_version = 0 }

-- The row with its new status: an agent that is switched off is logged out too.
abbrev pub with_status : String → Agent → Agent
with_status status a = record a {
  status = status;
  token_version =
      if not (str_eq status "active") then next_token_version a.token_version else a.token_version;
}

module _ {A P S D I L : Type 0} (svc : AdminService A P S D I L) where
  -- The email must not be that of a super admin.
  free_email : Result SuperAdmin → Effect (Database A P S D I L) (Unit {0})
  free_email (ok a) = raise conflict
  free_email (err e) = if not (is_not_found e) then raise e else pure tt

  check_free_email : String → Effect (Database A P S D I L) (Unit {0})
  unfolding free_email super_admin_by_email
  check_free_email email =
      let look =
        attempt (on_accounts (super_admin_by_email svc.account_tables email)) >>= free_email in
      if svc.has_super_admins then look else pure tt

  unfoldable pub create_agent :
      CreateAgentInput → ActorContext → Effect (Database A P S D I L) Agent
  unfolding normalize_agent_id normalize_site_id site_by_site_id check_free_email
      validate_password_policy create_agent_row is_duplicate_error write_audit_log format_agent_id
      trim_space to_lower
  create_agent input actor = do
    id ← return (normalize_agent_id input.agent_id)
    site ← return (normalize_site_id input.site_id)
    map_error (λ e. if is_not_found e then invalid "invalid site_id" else e)
        (site_by_site_id svc site)
    let email = trim_space (to_lower input.email)
    let display_name = trim_space input.display_name
    role ← return (agent_role input.role)
    raise_if (str_eq email "" || str_eq display_name "")
        (invalid "email and display_name are required")
    check_free_email email
    return (validate_password_policy svc.letters input.password)
    hash ← return (svc.crypto.hash input.password svc.bcrypt_cost)
    let agent : Agent = record {
      id = id;
      email = email;
      password_hash = hash;
      display_name = display_name;
      site_id = site;
      role = role;
      status = "active";
      token_version = 1;
    }
    map_error (λ e. if is_duplicate_error e then conflict else e)
        (on_accounts (create_agent_row svc.account_tables agent))
    write_audit_log svc actor "agent.create" "agent" (format_agent_id id)
        ("创建坐席 " ++ format_agent_id id)
    pure agent

  unfoldable pub list_agents : ℕ → ℕ → Effect (Database A P S D I L) (List Agent)
  list_agents limit offset w =
      let q : Query Agent = record {
        matches = λ a. true;
        descending = true;
        limit = some limit;
        offset = offset;
      } in
      (
        elim (svc.account_tables.agent_table.find q w.accounts.agents) [
          | ok found ↦ ok (map listed_columns found)
          | err e ↦ err e
        ],
        w,
      )

  -- `GetByID`, with the error for a missing row.
  found_agent : ℕ → Effect (Database A P S D I L) Agent
  unfolding agent_by_id
  found_agent id = map_error as_resource_not_found (on_accounts (agent_by_id svc.account_tables id))

  -- Save, and the log of it.
  save_logged : ActorContext → String → String → Agent → Effect (Database A P S D I L) Agent
  unfolding save_agent write_audit_log format_agent_id
  save_logged actor action summary a = do
    on_accounts (save_agent svc.account_tables a)
    write_audit_log svc actor action "agent" (format_agent_id a.id) summary
    pure a

  unfoldable pub get_agent_by_id : ℕ → Effect (Database A P S D I L) Agent
  unfolding found_agent
  get_agent_by_id id = do raise_if (id == 0) (invalid "agent_id is required"); found_agent id

  unfoldable pub update_agent_status :
      ℕ → String → ActorContext → Effect (Database A P S D I L) Agent
  unfolding normalize_agent_status found_agent save_logged
  update_agent_status id raw_status actor = do
    raise_if (id == 0) (invalid "agent_id is required")
    status ← return (normalize_agent_status raw_status)
    a ← found_agent id
    raise_if (str_eq a.role "super_admin" && not (str_eq status "active"))
        (invalid "invalid status transition for super_admin")
    save_logged actor "agent.update_status" ("坐席状态 " ++ a.status ++ " -> " ++ status)
        (with_status status a)

  unfoldable pub reset_agent_password :
      ℕ → String → ActorContext → Effect (Database A P S D I L) Agent
  unfolding validate_password_policy found_agent save_logged
  reset_agent_password id password actor = do
    raise_if (id == 0) (invalid "agent_id is required")
    return (validate_password_policy svc.letters password)
    a ← found_agent id
    hash ← return (svc.crypto.hash password svc.bcrypt_cost)
    save_logged actor "agent.reset_password" "重置坐席密码并强制下线"
        (record a { password_hash = hash; token_version = next_token_version a.token_version })

  unfoldable pub force_agent_logout : ℕ → ActorContext → Effect (Database A P S D I L) Agent
  unfolding found_agent save_logged
  force_agent_logout id actor = do
    raise_if (id == 0) (invalid "agent_id is required")
    a ← found_agent id
    save_logged actor "agent.force_logout" "强制坐席下线"
        (record a { token_version = next_token_version a.token_version })
