-- ===== src/Accounts/Model.antt =====
-- services/auth-service/internal/model and services/admin-service/internal/model, less the columns
-- created_at and updated_at.
use inline_chat.Prelude.{ℕ, String}

pub record Agent : Type 0 where
  pub id : ℕ
  pub email : String
  pub password_hash : String
  pub display_name : String
  pub site_id : String
  pub role : String
  pub status : String
  pub token_version : ℕ

pub record SuperAdmin : Type 0 where
  pub id : ℕ
  pub email : String
  pub password_hash : String
  pub display_name : String
  pub status : String
  pub token_version : ℕ
