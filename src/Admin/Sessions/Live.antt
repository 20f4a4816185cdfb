-- ===== src/Admin/Sessions/Live.antt =====
-- The accounts behind the sessions that pass.
use inline_chat.Prelude.{ℕ, String, true, ◌||◌, ◌≡◌, ◌⊎◌, inl, inr, str_eq, arith, Bool-cases, ◌==◌}
use inline_chat.Prelude.Text.{to_lower, trim_space}
use inline_chat.Errors.{Result-cases, ok}
use inline_chat.Accounts.{agent_by_id, super_admin_by_id}
use inline_chat.Accounts.Model.{Agent, SuperAdmin}
use inline_chat.Accounts.Tokens.{Claims}
use inline_chat.Accounts.Versions.{normalize_token_version, is_active_lower}
use inline_chat.Admin.{AdminService, Database}
use inline_chat.Admin.Sessions.{
  validate_admin_session, check_super_admin, check_agent, check_account,
}

module _ {A P S D I L : Type 0} (svc : AdminService A P S D I L) where
  -- An active state, and the version of the claims.
  abbrev pub Fits : String → ℕ → Claims → Type 0
  Fits status version c =
      (is_active_lower status ≡ true)
      × (normalize_token_version version ≡ normalize_token_version c.token_version)

  -- The account of the claims is stored, and fits them.
  abbrev pub Live : Claims → Database A P S D I L → Type 0
  Live c w =
      ((a : SuperAdmin) × ((super_admin_by_id svc.account_tables c.agent_id w.accounts).0 ≡ ok a)
        × Fits a.status a.token_version c)
      ⊎ ((a : Agent) × ((agent_by_id svc.account_tables c.agent_id w.accounts).0 ≡ ok a)
          × Fits a.status a.token_version c)

  check_account-ok :
      (status : String) (version token_version : ℕ)
      → check_account svc status version token_version ≡ ok tt
      → (is_active_lower status ≡ true)
        × (normalize_token_version version ≡ normalize_token_version token_version)
  unfolding check_account
  check_account-ok status version token_version h = (ground (arith, h), ground (arith, h))

  check_agent-Live :
      (c : Claims) (w : Database A P S D I L)
      → (check_agent svc c.agent_id c.token_version w).0 ≡ ok tt
      → Live c w
  unfolding check_agent
  check_agent-Live c w h =
      elim (Result-cases (agent_by_id svc.account_tables c.agent_id w.accounts).0) [
        | inl (x, e) ↦ absurd (ground (arith, e))
        | inr (a, e) ↦
            inr
              (a, e, check_account-ok a.status a.token_version c.token_version (ground (arith, e)))
      ]

  check_super_admin-Live :
      (c : Claims) (w : Database A P S D I L)
      → (check_super_admin svc c.agent_id c.token_version w).0 ≡ ok tt
      → Live c w
  unfolding check_super_admin
  check_super_admin-Live c w h = elim (Bool-cases svc.has_super_admins) [
    | inr none ↦ absurd (ground (arith, none))
    | inl some ↦
        elim (Result-cases (super_admin_by_id svc.account_tables c.agent_id w.accounts).0) [
          | inl (x, e) ↦ absurd (ground (arith, e, some))
          | inr (a, e) ↦ inl (
            a,
            e,
            check_account-ok a.status a.token_version c.token_version (ground (arith, e, some)),
          )
        ]
  ]

  pub validate_admin_session-Live :
      (c : Claims) (w : Database A P S D I L)
      → (validate_admin_session svc c.role c.agent_id c.token_version w).0 ≡ ok tt
      → Live c w
  unfolding validate_admin_session
  validate_admin_session-Live c w h =
      let name = to_lower (trim_space c.role) in
      elim (Bool-cases (
        str_eq (trim_space c.role) ""
        || c.agent_id == 0
        || normalize_token_version c.token_version == 0)) [
          | inl bad ↦ absurd (ground (arith, bad))
          | inr good ↦ elim (Bool-cases (str_eq name "super_admin")) [
            | inl root ↦ check_super_admin-Live c w (ground (arith, good, root))
            | inr other ↦ elim (Bool-cases (str_eq name "admin" || str_eq name "agent")) [
              | inl agent ↦ check_agent-Live c w (ground (arith, good, other, agent))
              | inr none ↦ absurd (ground (arith, good, other, none))
            ]
          ]
        ]
