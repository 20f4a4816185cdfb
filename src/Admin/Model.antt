-- ===== src/Admin/Model.antt =====
-- services/admin-service/internal/model/model.go, less the columns created_at and updated_at. A site's
-- domains are kept in a table of their own.
use inline_chat.Prelude.{ℕ, String, Bool, List}

pub record SiteRow : Type 0 where
  pub id : ℕ
  pub site_id : String
  pub name : String
  pub widget_key : String
  pub status : String

-- A row with the field Domains, which its repository fills in.
pub record Site : Type 0 where
  pub row : SiteRow
  pub domains : List String

pub record SiteDomain : Type 0 where
  pub site_id : String
  pub domain : String

pub record SiteAiConfig : Type 0 where
  pub site_id : String
  pub enabled : Bool
  pub reply_mode : String

pub record AuditLog : Type 0 where
  pub id : ℕ
  pub actor_agent_id : ℕ
  pub actor_email : String
  pub actor_role : String
  pub action : String
  pub resource_type : String
  pub resource_id : String
  pub summary : String
  pub ip : String
  pub user_agent : String
