-- ===== src/Auth/Sessions.antt =====
-- Logins, and the tokens that they give.
use Prim.Native.String.{◌++◌}
use inline_chat.Prelude.{
  ℕ, ◌+◌, ◌≡◌, String, true, arith, inl, inr, none, Option-cases, Bool-cases, ◌⊎◌, refl, ◌∙◌, sym,
  ap, subst, List, ◌∷◌, ◌≤◌, false, ◌<◌,
}
use inline_chat.Prelude.Text.{format_uint, to_lower, trim_space, is_empty}
use inline_chat.Errors.{ok, Result-cases, Result, err, is_not_found}
use inline_chat.Accounts.{Accounts, super_admin_by_email, agent_by_email}
use inline_chat.Accounts.Model.{Agent, SuperAdmin}
use inline_chat.Accounts.Versions.{normalize_token_version, is_active}
use inline_chat.Accounts.Tokens.{Claims, issue_token, parse_token_any}
use inline_chat.Auth.{
  AuthService, AuthResult, as_agent, login_super_admin, check_password, issue, login_agent,
  login_found, login, parse_token, validate_token, check_session, ◌>>=◌, pure,
}

normalize-normalize :
    (v : ℕ) → normalize_token_version (normalize_token_version v) ≡ normalize_token_version v
unfolding normalize_token_version
normalize-normalize v = ground arith

module _ {A P : Type 0} (svc : AuthService A P) where
  -- The claims that a login puts into a token.
  abbrev pub claims_of : Agent → ℕ → Claims
  claims_of a now = record {
    agent_id = a.id;
    email = a.email;
    role = a.role;
    token_version = normalize_token_version a.token_version;
    issuer = svc.jwt_issuer;
    subject = "agent:" ++ format_uint a.id;
    issued_at = now;
    not_before = now;
    expires_at = now + svc.jwt_expire;
  }

  -- The account is active, and the password matches the hash.
  abbrev pub Admitted : String → String → String → Type 0
  Admitted status hash password =
      (is_active status ≡ true) × (svc.crypto.compare_hash hash password ≡ none)

  abbrev pub Signed : ℕ → AuthResult → Type 0
  Signed now r = svc.crypto.sign svc.jwt_secret (claims_of r.agent now) ≡ ok r.token

  check_password-none :
      (hash raw : String)
      → check_password svc hash raw ≡ ok tt
      → svc.crypto.compare_hash hash raw ≡ none
  unfolding check_password
  check_password-none hash raw h = elim (Option-cases (svc.crypto.compare_hash hash raw)) [
    | inl e ↦ e
    | inr (x, e) ↦ ground (arith, e)
  ]

  -- The steps that a login takes once the account is found.
  abbrev Steps : String → String → String → ℕ → String → String → ℕ → ℕ → String → Type 0
  Steps status hash password id email role version now token =
      (is_active status ≡ true)
      × (check_password svc hash password ≡ ok tt)
      × (issue svc id email role (normalize_token_version version) now ≡ ok token)

  login_super_admin-Steps :
      (password : String) (now : ℕ) (a : SuperAdmin) (w : Accounts A P) (r : AuthResult)
      → (login_super_admin svc password now a w).0 ≡ ok r
      → Steps a.status a.password_hash password a.id a.email "super_admin" a.token_version now
          r.token
        × (r.agent ≡ as_agent a)
  unfolding login_super_admin
  login_super_admin-Steps password now a w r h = elim (Bool-cases (is_active a.status)) [
    | inr off ↦ absurd (ground (arith, off))
    | inl on ↦ elim (Result-cases (check_password svc a.password_hash password)) [
      | inl (x, e) ↦ absurd (ground (arith, on, e))
      | inr (u, e) ↦
          elim (Result-cases
            (issue svc a.id a.email "super_admin" (normalize_token_version a.token_version) now)) [
              | inl (x, e') ↦ absurd (ground (arith, on, e, e'))
              | inr (t, e') ↦
                  let made : r ≡ record { token = t; agent = as_agent a } =
                    ground (arith, on, e, e') in
                  (
                    (on, e, (e' ∙ ap (λ (q : AuthResult). ok q.token) (sym made))),
                    ap (λ q. q.agent) made,
                  )
            ]
    ]
  ]

  login_agent-Steps :
      (password : String) (now : ℕ) (a : Agent) (w : Accounts A P) (r : AuthResult)
      → (login_agent svc password now a w).0 ≡ ok r
      → Steps a.status a.password_hash password a.id a.email a.role a.token_version now r.token
        × (r.agent ≡ a)
  unfolding login_agent
  login_agent-Steps password now a w r h = elim (Bool-cases (is_active a.status)) [
    | inr off ↦ absurd (ground (arith, off))
    | inl on ↦ elim (Result-cases (check_password svc a.password_hash password)) [
      | inl (x, e) ↦ absurd (ground (arith, on, e))
      | inr (u, e) ↦
          elim (Result-cases
            (issue svc a.id a.email a.role (normalize_token_version a.token_version) now)) [
              | inl (x, e') ↦ absurd (ground (arith, on, e, e'))
              | inr (t, e') ↦
                  let made : r ≡ record { token = t; agent = a } = ground (arith, on, e, e') in
                  (
                    (on, e, (e' ∙ ap (λ (q : AuthResult). ok q.token) (sym made))),
                    ap (λ q. q.agent) made,
                  )
            ]
    ]
  ]

  -- The account that a login stands on: a super admin with the email, or else an agent.
  abbrev Granted : String → String → ℕ → Accounts A P → AuthResult → Type 0
  Granted email password now w r =
      ((a : SuperAdmin) × ((super_admin_by_email svc.tables email w).0 ≡ ok a)
        × (r.agent ≡ as_agent a)
        × Steps a.status a.password_hash password a.id a.email "super_admin" a.token_version now
            r.token)
      ⊎ ((a : Agent) × ((agent_by_email svc.tables email w).0 ≡ ok a)
          × (r.agent ≡ a)
          × Steps a.status a.password_hash password a.id a.email a.role a.token_version now r.token)

  agent_by_email-Reads :
      (email : String) (w : Accounts A P) → (agent_by_email svc.tables email w).1 ≡ w
  unfolding agent_by_email
  agent_by_email-Reads email w = refl

  super_admin_by_email-Reads :
      (email : String) (w : Accounts A P) → (super_admin_by_email svc.tables email w).1 ≡ w
  unfolding super_admin_by_email
  super_admin_by_email-Reads email w = refl

  login_found-Granted :
      (email password : String) (now : ℕ) (found : Result SuperAdmin) (w : Accounts A P)
      (r : AuthResult)
      → found ≡ (super_admin_by_email svc.tables email w).0
      → (login_found svc email password now found w).0 ≡ ok r
      → Granted email password now w r
  unfolding login_found
  login_found-Granted email password now (ok a) w r f h =
      let (steps, same) = login_super_admin-Steps password now a w r h in
      inl (a, sym f, same, steps)
  login_found-Granted email password now (err x) w r f h = elim (Bool-cases (is_not_found x)) [
    | inr other ↦ absurd (ground (arith, other))
    | inl missing ↦ elim (Result-cases (agent_by_email svc.tables email w).0) [
      | inl (y, e) ↦ absurd (ground (arith, missing, e))
      | inr (a, e) ↦
          let (steps, same) =
            login_agent-Steps password now a w r
              (ground (arith, missing, e, agent_by_email-Reads email w)) in
          inr (a, e, same, steps)
    ]
  ]

  login-Granted :
      (raw password : String) (now : ℕ) (w : Accounts A P) (r : AuthResult)
      → (login svc raw password now w).0 ≡ ok r
      → Granted (to_lower (trim_space raw)) password now w r
  unfolding login
  login-Granted raw password now w r h =
      let email = to_lower (trim_space raw) in
      let found = super_admin_by_email svc.tables email w in
      login_found-Granted email password now found.0 w r refl
        (ground (arith, super_admin_by_email-Reads email w))

  -- A login succeeds only for an account that is stored under the email, trimmed and in lower case,
  -- is active, and has a hash that the password matches: a super admin, or else an agent.
  pub login-Admitted :
      (raw password : String) (now : ℕ) (w : Accounts A P) (r : AuthResult)
      → (login svc raw password now w).0 ≡ ok r
      → ((a : SuperAdmin) × ((super_admin_by_email svc.tables (to_lower (trim_space raw)) w).0
            ≡ ok a)
          × (r.agent ≡ as_agent a)
          × Admitted a.status a.password_hash password)
        ⊎ ((a : Agent) × ((agent_by_email svc.tables (to_lower (trim_space raw)) w).0 ≡ ok a)
            × (r.agent ≡ a)
            × Admitted a.status a.password_hash password)
  login-Admitted raw password now w r h = elim (login-Granted raw password now w r h) [
    | inl (a, found, same, (on, checked, token)) ↦
        inl (a, found, same, (on, check_password-none a.password_hash password checked))
    | inr (a, found, same, (on, checked, token)) ↦
        inr (a, found, same, (on, check_password-none a.password_hash password checked))
  ]

  issue-Signed :
      (a : Agent) (now : ℕ) (token : String)
      → issue svc a.id a.email a.role (normalize_token_version a.token_version) now ≡ ok token
      → svc.crypto.sign svc.jwt_secret (claims_of a now) ≡ ok token
  unfolding issue issue_token
  issue-Signed a now token h = h

  issue-Signed_super_admin :
      (a : SuperAdmin) (now : ℕ) (token : String)
      → issue svc a.id a.email "super_admin" (normalize_token_version a.token_version) now
        ≡ ok token
      → svc.crypto.sign svc.jwt_secret (claims_of (as_agent a) now) ≡ ok token
  issue-Signed_super_admin a now token h =
      issue-Signed (as_agent a) now token (rw (normalize-normalize a.token_version) h)

  login-Signed :
      (raw password : String) (now : ℕ) (w : Accounts A P) (r : AuthResult)
      → (login svc raw password now w).0 ≡ ok r
      → Signed now r
  login-Signed raw password now w r h = elim (login-Granted raw password now w r h) [
    | inl (a, found, same, (on, checked, token)) ↦
        subst (λ b. svc.crypto.sign svc.jwt_secret (claims_of b now) ≡ ok r.token) (sym same)
          (issue-Signed_super_admin a now r.token token)
    | inr (a, found, same, (on, checked, token)) ↦
        subst (λ b. svc.crypto.sign svc.jwt_secret (claims_of b now) ≡ ok r.token) (sym same)
          (issue-Signed a now r.token token)
  ]

  -- The secret that signs is the first of those that verify.
  abbrev pub SignsWithFirst : List String → Type 0
  SignsWithFirst others =
      (svc.jwt_verify_secrets ≡ svc.jwt_secret ∷ others) × (is_empty svc.jwt_secret ≡ false)

  parse_token-Signed :
      (others : List String) (a : Agent) (now later : ℕ) (token : String)
      → SignsWithFirst others
      → svc.crypto.sign svc.jwt_secret (claims_of a now) ≡ ok token
      → now ≤ later
      → later < now + svc.jwt_expire
      → parse_token svc token later ≡ ok (claims_of a now)
  unfolding parse_token parse_token_any
  parse_token-Signed others a now later token (first, filled) signed early late =
      let parsed =
        svc.crypto.parse_signed svc.jwt_secret (claims_of a now) token later signed early late in
      rw first (rw (filled, parsed) refl)

  -- Until it expires, the token of a login is valid for as long as the account's state, role and token
  -- version pass the check of a session: validation is that check on the claims of the login. The
  -- secret that signs is the first of those that verify.
  pub login-validate_token :
      (others : List String) (raw password : String) (now later : ℕ) (w w' : Accounts A P)
      (r : AuthResult)
      → SignsWithFirst others
      → (login svc raw password now w).0 ≡ ok r
      → now ≤ later
      → later < now + svc.jwt_expire
      → validate_token svc r.token later w'
        ≡ (check_session svc (claims_of r.agent now) >>= λ u. pure (claims_of r.agent now)) w'
  unfolding validate_token
  login-validate_token others raw password now later w w' r first h early late =
      rw
        (parse_token-Signed others r.agent now later r.token first
          (login-Signed raw password now w r h) early late)
        refl
