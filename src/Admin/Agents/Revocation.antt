-- ===== src/Admin/Agents/Revocation.antt =====
-- What the methods on agents do to the sessions that auth-service accepts.
use inline_chat.Prelude.{
  ℕ, ◌≡◌, true, false, ◌==◌, arith, refl, sym, ap, ◌∙◌, inl, inr, Bool-cases, str_eq, String, ◌<◌,
}
use inline_chat.Errors.{Result-cases, ok, is_err, ok-injective}
use inline_chat.Accounts.{AccountTables, agent_by_id, save_agent}
use inline_chat.Accounts.Model.{Agent}
use inline_chat.Accounts.Tokens.{Claims}
use inline_chat.Auth.{AuthService, check_session}
use inline_chat.Accounts.Versions.{
  normalize_token_version, next_token_version, uint64, normalize-next,
}
use inline_chat.Admin.{AdminService, write_audit_log, ActorContext, Database}
use inline_chat.Admin.Agents.{
  found_agent, save_logged, force_agent_logout, reset_agent_password, update_agent_status,
  with_status, get_agent_by_id,
}
use inline_chat.Admin.Names.{format_agent_id, normalize_agent_status}
use inline_chat.Effects.{Effect}
use Prim.Native.String.{◌++◌}
use inline_chat.Accounts.Passwords.{validate_password_policy}
use inline_chat.Accounts.Rows.{agent_by_id-id, save_agent-agent_by_id}
use inline_chat.Auth.Checks.{
  check_session-agent, check_session-changed, check_account-version, IsAgentRole,
}

-- The calls that end an agent's sessions: a logout, a new password, a state that reads as inactive.
pub data Revoking : Type 0 where
  logs_out : Revoking
  resets : String → Revoking
  switches_off : (raw : String) → normalize_agent_status raw ≡ ok "inactive" → Revoking

module _ {A P S D I L : Type 0} (svc : AdminService A P S D I L) where
  abbrev pub Tables : AccountTables A P
  Tables = svc.account_tables

  write_audit_log-accounts :
      (actor : ActorContext) (action resource id summary : String) (w : Database A P S D I L)
      → (write_audit_log svc actor action resource id summary w).1.accounts ≡ w.accounts
  unfolding write_audit_log
  write_audit_log-accounts actor action resource id summary w = ground arith

  -- The accounts after a save that is logged are those after the save.
  save_logged-agents :
      (actor : ActorContext) (action summary : String) (a : Agent) (w : Database A P S D I L)
      → is_err (save_logged svc actor action summary a w).0 ≡ false
      → (is_err (save_agent Tables a w.accounts).0 ≡ false)
        × ((save_logged svc actor action summary a w).1.accounts.agents
            ≡ (save_agent Tables a w.accounts).1.agents)
  unfolding save_logged
  save_logged-agents actor action summary a w h =
      elim (Result-cases (save_agent Tables a w.accounts).0) [
        | inl (x, e) ↦ absurd (ground (arith, e))
        | inr (u, e) ↦ (
          rw e refl,
          ground (
            arith,
            e,
            write_audit_log-accounts actor action "agent" (format_agent_id a.id) summary
                (record w { accounts = (save_agent Tables a w.accounts).1 }),
          ),
        )
      ]

  found_agent-row :
      (id : ℕ) (w : Database A P S D I L) (a : Agent)
      → (found_agent svc id w).0 ≡ ok a
      → (agent_by_id Tables id w.accounts).0 ≡ ok a
  unfolding found_agent
  found_agent-row id w a h = elim (Result-cases (agent_by_id Tables id w.accounts).0) [
    | inl (x, e) ↦ absurd (ground (arith, e))
    | inr (b, e) ↦ ground (arith, e)
  ]

  found_agent-Reads : (id : ℕ) (w : Database A P S D I L) → (found_agent svc id w).1 ≡ w
  unfolding found_agent agent_by_id
  found_agent-Reads id w = ground arith

  pub get_agent_by_id-Reads : (id : ℕ) (w : Database A P S D I L) → (get_agent_by_id svc id w).1 ≡ w
  unfolding get_agent_by_id
  get_agent_by_id-Reads id w = ground (arith, found_agent-Reads id w)

  -- A run of a method that saved the row it had found under an id with the next token version.
  abbrev Bumped : ℕ → Effect (Database A P S D I L) Agent → Database A P S D I L → Type 0
  Bumped id m w =
      (old : Agent) × ((agent_by_id Tables id w.accounts).0 ≡ ok old)
      × (changed : Agent) × (changed.id ≡ old.id)
      × (changed.token_version ≡ next_token_version old.token_version)
      × (is_err (save_agent Tables changed w.accounts).0 ≡ false)
      × ((m w).1.accounts.agents ≡ (save_agent Tables changed w.accounts).1.agents)

  Bumped-save_logged :
      (id : ℕ) (m : Effect (Database A P S D I L) Agent) (w : Database A P S D I L)
      (actor : ActorContext) (action summary : String) (a b : Agent)
      → (found_agent svc id w).0 ≡ ok a
      → b.id ≡ a.id
      → b.token_version ≡ next_token_version a.token_version
      → m w ≡ save_logged svc actor action summary b w
      → is_err (m w).0 ≡ false
      → Bumped id m w
  Bumped-save_logged id m w actor action summary a b found ids versions same h =
      let (fine, agents) =
        save_logged-agents actor action summary b w (ap (λ r. is_err r.0) (sym same) ∙ h) in
      (
        a,
        found_agent-row id w a found,
        b,
        ids,
        versions,
        fine,
        ap (λ r. r.1.accounts.agents) same ∙ agents,
      )

  force_agent_logout-Bumped :
      (id : ℕ) (actor : ActorContext) (w : Database A P S D I L)
      → is_err (force_agent_logout svc id actor w).0 ≡ false
      → Bumped id (force_agent_logout svc id actor) w
  unfolding force_agent_logout
  force_agent_logout-Bumped id actor w h = elim (Bool-cases (id == 0)) [
    | inl zero ↦ absurd (ground (arith, zero))
    | inr nonzero ↦ elim (Result-cases (found_agent svc id w).0) [
      | inl (x, e) ↦ absurd (ground (arith, e, nonzero))
      | inr (a, e) ↦
          Bumped-save_logged id (force_agent_logout svc id actor) w actor "agent.force_logout"
            "强制坐席下线" a (record a { token_version = next_token_version a.token_version }) e refl refl
            (ground (arith, e, nonzero, found_agent-Reads id w)) h
    ]
  ]

  reset_agent_password-Bumped :
      (id : ℕ) (password : String) (actor : ActorContext) (w : Database A P S D I L)
      → is_err (reset_agent_password svc id password actor w).0 ≡ false
      → Bumped id (reset_agent_password svc id password actor) w
  unfolding reset_agent_password
  reset_agent_password-Bumped id password actor w h = elim (Bool-cases (id == 0)) [
    | inl zero ↦ absurd (ground (arith, zero))
    | inr nonzero ↦ elim (Result-cases (validate_password_policy svc.letters password)) [
      | inl (x, e) ↦ absurd (ground (arith, e, nonzero))
      | inr (u, strong) ↦ elim (Result-cases (found_agent svc id w).0) [
        | inl (x, e) ↦ absurd (ground (arith, e, strong, nonzero))
        | inr (a, e) ↦ elim (Result-cases (svc.crypto.hash password svc.bcrypt_cost)) [
          | inl (x, e') ↦ absurd (ground (arith, e, e', strong, nonzero, found_agent-Reads id w))
          | inr (hash, e') ↦
              Bumped-save_logged id (reset_agent_password svc id password actor) w actor
                "agent.reset_password" "重置坐席密码并强制下线" a
                (record a {
                  password_hash = hash;
                  token_version = next_token_version a.token_version;
                })
                e refl refl (ground (arith, e, e', strong, nonzero, found_agent-Reads id w)) h
        ]
      ]
    ]
  ]

  update_agent_status-Bumped :
      (id : ℕ) (raw : String) (actor : ActorContext) (w : Database A P S D I L)
      → normalize_agent_status raw ≡ ok "inactive"
      → is_err (update_agent_status svc id raw actor w).0 ≡ false
      → Bumped id (update_agent_status svc id raw actor) w
  unfolding update_agent_status
  update_agent_status-Bumped id raw actor w off h = elim (Bool-cases (id == 0)) [
    | inl zero ↦ absurd (ground (arith, zero))
    | inr nonzero ↦ elim (Result-cases (found_agent svc id w).0) [
      | inl (x, e) ↦ absurd (ground (arith, e, off, nonzero))
      | inr (a, e) ↦ elim (Bool-cases (str_eq a.role "super_admin")) [
        | inl root ↦ absurd (ground (arith, e, off, nonzero, root, found_agent-Reads id w))
        | inr other ↦
            Bumped-save_logged id (update_agent_status svc id raw actor) w actor
              "agent.update_status" ("坐席状态 " ++ a.status ++ " -> " ++ "inactive") a
              (with_status "inactive" a) e refl refl
              (ground (arith, e, off, nonzero, other, found_agent-Reads id w)) h
      ]
    ]
  ]

  -- After such a run, a session of the agent that passed before does not pass.
  Bumped-check_session :
      (auth : AuthService A P) (id : ℕ) (m : Effect (Database A P S D I L) Agent)
      (w : Database A P S D I L) (c : Claims)
      → let twin = record auth { tables = Tables } in
        c.agent_id ≡ id
        → IsAgentRole c
        → ((a : Agent) → (agent_by_id Tables id w.accounts).0 ≡ ok a → a.token_version < uint64)
        → is_err (check_session twin c w.accounts).0 ≡ false
        → Bumped id m w
        → is_err (check_session twin c (m w).1.accounts).0 ≡ true
  Bumped-check_session auth id m w c mine role small passed
        (old, found, changed, ids, versions, fine, agents) =
      let twin : AuthService A P = record auth { tables = Tables } in
      let (old', found', passes) = check_session-agent twin c w.accounts role passed in
      let known = check_account-version twin old'.status old'.token_version c passes in
      let same : old' ≡ old =
        ok-injective (sym found' ∙ (ap (λ k. (agent_by_id Tables k w.accounts).0) mine ∙ found)) in
      let key : c.agent_id ≡ changed.id =
        mine ∙ sym (ids ∙ agent_by_id-id Tables id w.accounts old found) in
      check_session-changed twin c (m w).1.accounts role (λ a now e.
        let kept : a ≡ changed =
          save_agent-agent_by_id Tables changed a w.accounts (m w).1.accounts fine agents
            (ap (λ k. (agent_by_id Tables k (m w).1.accounts).0) (sym key) ∙ now) in
        normalize-next old.token_version (small old found) (
          ap normalize_token_version (sym versions)
          ∙ (ap (λ (b : Agent). normalize_token_version b.token_version) (sym kept)
              ∙ (sym e
                  ∙ (known ∙ ap (λ (b : Agent). normalize_token_version b.token_version) same)))))

  unfoldable pub revoke : Revoking → ℕ → ActorContext → Effect (Database A P S D I L) Agent
  unfolding force_agent_logout reset_agent_password update_agent_status
  revoke logs_out id actor = force_agent_logout svc id actor
  revoke (resets password) id actor = reset_agent_password svc id password actor
  revoke (switches_off raw off) id actor = update_agent_status svc id raw actor

  revoke-Bumped :
      (r : Revoking) (id : ℕ) (actor : ActorContext) (w : Database A P S D I L)
      → is_err (revoke r id actor w).0 ≡ false
      → Bumped id (revoke r id actor) w
  unfolding revoke
  revoke-Bumped logs_out id actor w h = force_agent_logout-Bumped id actor w h
  revoke-Bumped (resets password) id actor w h = reset_agent_password-Bumped id password actor w h
  revoke-Bumped (switches_off raw off) id actor w h =
      update_agent_status-Bumped id raw actor w off h

  -- A token of an agent or admin that auth-service accepts is refused after admin-service has logged
  -- the agent out, has given it a new password or has switched it off, where both work on the same
  -- accounts and the stored token version fits its 64 bits, also when the version wraps around.
  pub revoke-check_session :
      (auth : AuthService A P) (r : Revoking) (id : ℕ) (actor : ActorContext)
      (w : Database A P S D I L) (c : Claims)
      → c.agent_id ≡ id
      → IsAgentRole c
      → ((a : Agent) → (agent_by_id Tables id w.accounts).0 ≡ ok a → a.token_version < uint64)
      → is_err (check_session (record auth { tables = Tables }) c w.accounts).0 ≡ false
      → is_err (revoke r id actor w).0 ≡ false
      → is_err
          (check_session (record auth { tables = Tables }) c (revoke r id actor w).1.accounts).0
        ≡ true
  revoke-check_session auth r id actor w c mine role small passed done =
      Bumped-check_session auth id (revoke r id actor) w c mine role small passed
        (revoke-Bumped r id actor w done)
