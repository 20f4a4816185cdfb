-- ===== src/Admin/Sessions.antt =====
-- ValidateAdminSession of admin_service.go, against the check of a session in auth-service.
pub mod Live
use inline_chat.Prelude.{ℕ, String, not, ◌||◌, ◌==◌, str_eq, if◌then◌else◌}
use inline_chat.Prelude.Text.{trim_space, to_lower}
use inline_chat.Errors.{Error, Result, ok, err, is_not_found, invalid_session}
use inline_chat.Effects.{Effect, raise, return, map_error, ◌>>=◌}
use inline_chat.Accounts.{agent_by_id, super_admin_by_id}
use inline_chat.Accounts.Versions.{normalize_token_version, is_active_lower}
use inline_chat.Admin.{Database, AdminService, on_accounts}

module _ {A P S D I L : Type 0} (svc : AdminService A P S D I L) where
  abbrev pub as_invalid_session : Error → Error
  as_invalid_session e = if is_not_found e then invalid_session else e

  -- The state and the version of an account against a token's version.
  check_account : String → ℕ → ℕ → Result (Unit {0})
  unfolding is_active_lower normalize_token_version
  check_account status version token_version =
      if not (is_active_lower status)
      then err invalid_session
      else if not (normalize_token_version version == normalize_token_version token_version)
      then err invalid_session
      else ok tt

  check_super_admin : ℕ → ℕ → Effect (Database A P S D I L) (Unit {0})
  unfolding check_account super_admin_by_id
  check_super_admin id version =
      let look =
        map_error as_invalid_session (on_accounts (super_admin_by_id svc.account_tables id))
        >>= λ a. return (check_account a.status a.token_version version) in
      if not svc.has_super_admins then raise invalid_session else look

  check_agent : ℕ → ℕ → Effect (Database A P S D I L) (Unit {0})
  unfolding check_account agent_by_id
  check_agent id version =
      map_error as_invalid_session (on_accounts (agent_by_id svc.account_tables id)) >>= λ a.
      return (check_account a.status a.token_version version)

  unfoldable pub validate_admin_session : String → ℕ → ℕ → Effect (Database A P S D I L) (Unit {0})
  unfolding check_super_admin check_agent normalize_token_version to_lower trim_space
  validate_admin_session role id version =
      let name = to_lower (trim_space role) in
      if str_eq (trim_space role) "" || id == 0 || normalize_token_version version == 0
      then raise invalid_session
      else if str_eq name "super_admin"
      then check_super_admin id version
      else if str_eq name "admin" || str_eq name "agent"
      then check_agent id version
      else raise invalid_session
