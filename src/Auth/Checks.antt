-- ===== src/Auth/Checks.antt =====
-- The check of a session against the stored agent.
use inline_chat.Prelude.{
  ℕ, ◌≡◌, true, false, arith, refl, inl, inr, Bool-cases, str_eq, String, ◌≢◌,
}
use inline_chat.Errors.{Result-cases, ok, is_err}
use inline_chat.Accounts.{Accounts, agent_by_id}
use inline_chat.Accounts.Model.{Agent}
use inline_chat.Accounts.Tokens.{Claims}
use inline_chat.Auth.{AuthService, check_account, check_session}
use inline_chat.Accounts.Versions.{normalize_token_version}
use inline_chat.Prelude.Text.{to_lower, trim_space}

-- The role of the claims is not that of a super admin.
abbrev pub IsAgentRole : Claims → Type 0
IsAgentRole c = str_eq (to_lower (trim_space c.role)) "super_admin" ≡ false

module _ {A P : Type 0} (auth : AuthService A P) where
  agent_by_id-Reads : (id : ℕ) (w : Accounts A P) → (agent_by_id auth.tables id w).1 ≡ w
  unfolding agent_by_id
  agent_by_id-Reads id w = refl

  pub check_account-version :
      (status : String) (version : ℕ) (c : Claims)
      → is_err (check_account auth status version c) ≡ false
      → normalize_token_version c.token_version ≡ normalize_token_version version
  unfolding check_account
  check_account-version status version c h = ground arith

  -- A session that passes is that of a stored agent with the same token version.
  pub check_session-agent :
      (c : Claims) (w : Accounts A P)
      → IsAgentRole c
      → is_err (check_session auth c w).0 ≡ false
      → (a : Agent) × ((agent_by_id auth.tables c.agent_id w).0 ≡ ok a)
        × (is_err (check_account auth a.status a.token_version c) ≡ false)
  unfolding check_session
  check_session-agent c w role h = elim (Result-cases (agent_by_id auth.tables c.agent_id w).0) [
    | inl (x, e) ↦ absurd (ground (arith, e, role))
    | inr (a, e) ↦ (a, e, ground (arith, e, role))
  ]

  -- A session does not pass after the version of its agent has changed.
  pub check_session-changed :
      (c : Claims) (w : Accounts A P)
      → IsAgentRole c
      → ((a : Agent)
          → (agent_by_id auth.tables c.agent_id w).0 ≡ ok a
          → normalize_token_version c.token_version ≢ normalize_token_version a.token_version)
      → is_err (check_session auth c w).0 ≡ true
  check_session-changed c w role changed = elim (Bool-cases (is_err (check_session auth c w).0)) [
    | inl e ↦ e
    | inr e ↦
        let (a, found, passed) = check_session-agent c w role e in
        absurd (changed a found (check_account-version a.status a.token_version c passed))
  ]
