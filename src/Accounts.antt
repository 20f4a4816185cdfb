-- ===== src/Accounts.antt =====
-- The accounts of agents and super admins, which services/auth-service and services/admin-service keep
-- in the same two tables of the database.
pub mod Model
pub mod Versions
pub mod Passwords
pub mod Tokens
pub mod Rows
pub mod Tests
use inline_chat.Prelude.{ℕ, String, Bool, ◌||◌, ◌==◌, str_eq, ◌≡◌}
use inline_chat.Errors.{ok, err}
use inline_chat.Effects.{Effect}
use inline_chat.Store.{Table, KeyedTable, or_not_found, first_where}
use inline_chat.Accounts.Model.{Agent, SuperAdmin}

pub record Accounts (A P : Type 0) : Type 0 where
  pub agents : A
  pub super_admins : P

-- The unique keys of the two tables.
abbrev pub same_agent : Agent → Agent → Bool
same_agent a b = str_eq a.email b.email || str_eq a.display_name b.display_name

abbrev pub same_super_admin : SuperAdmin → SuperAdmin → Bool
same_super_admin a b = str_eq a.email b.email

-- The columns that an INSERT fills in.
abbrev pub SuperAdminFills : SuperAdmin → SuperAdmin → Type 0
SuperAdminFills a b = b ≡ record a { id = b.id }

pub record AccountTables (A P : Type 0) : Type 0 where
  pub agent_table : KeyedTable A Agent (λ a. a.id) same_agent
  pub super_admin_table : Table P SuperAdmin (λ a. a.id) same_super_admin SuperAdminFills

module _ {A P : Type 0} (tables : AccountTables A P) where
  unfoldable pub agent_by_email : String → Effect (Accounts A P) Agent
  agent_by_email email w = (
    or_not_found (tables.agent_table.first (first_where (λ a. str_eq a.email email)) w.agents),
    w,
  )

  unfoldable pub agent_by_id : ℕ → Effect (Accounts A P) Agent
  agent_by_id id w =
      (or_not_found (tables.agent_table.first (first_where (λ a. a.id == id)) w.agents), w)

  unfoldable pub create_agent_row : Agent → Effect (Accounts A P) (Unit {0})
  create_agent_row a w = elim (tables.agent_table.insert a w.agents) [
    | ok s ↦ (ok tt, record w { agents = s })
    | err e ↦ (err e, w)
  ]

  unfoldable pub save_agent : Agent → Effect (Accounts A P) (Unit {0})
  save_agent a w = elim (tables.agent_table.save a w.agents) [
    | ok s ↦ (ok tt, record w { agents = s })
    | err e ↦ (err e, w)
  ]

  unfoldable pub super_admin_by_email : String → Effect (Accounts A P) SuperAdmin
  super_admin_by_email email w = (
    or_not_found
        (tables.super_admin_table.first (first_where (λ a. str_eq a.email email)) w.super_admins),
    w,
  )

  unfoldable pub super_admin_by_id : ℕ → Effect (Accounts A P) SuperAdmin
  super_admin_by_id id w = (
    or_not_found (tables.super_admin_table.first (first_where (λ a. a.id == id)) w.super_admins),
    w,
  )

  unfoldable pub create_super_admin : SuperAdmin → Effect (Accounts A P) (Unit {0})
  create_super_admin a w = elim (tables.super_admin_table.insert a w.super_admins) [
    | ok (a', s) ↦ (ok tt, record w { super_admins = s })
    | err e ↦ (err e, w)
  ]

  unfoldable pub save_super_admin : SuperAdmin → Effect (Accounts A P) (Unit {0})
  save_super_admin a w = elim (tables.super_admin_table.save a w.super_admins) [
    | ok s ↦ (ok tt, record w { super_admins = s })
    | err e ↦ (err e, w)
  ]
