-- ===== src/Admin/Server/Access.antt =====
-- Who may change what.
use inline_chat.Prelude.{
  ap, ◌∙◌, ℕ, String, Bool, true, false, not, ◌&&◌, ◌||◌, ◌≡◌, ◌⊎◌, inl, inr, str_eq, refl, arith,
  Bool-cases,
}
use inline_chat.Prelude.Text.{trim_space, parse_bearer_token}
use inline_chat.Errors.{Result-cases, ok, err, Result, Error}
use inline_chat.Grpc.{answered, is_refused}
use inline_chat.Accounts.Tokens.{Claims, parse_token_any}
use inline_chat.Admin.{Database}
use inline_chat.Admin.Sessions.{validate_admin_session}
use inline_chat.Admin.Sessions.Live.{Live, validate_admin_session-Live}
use inline_chat.Admin.Server.{
  AdminServer, Handler, require_admin, with_claims, session_reply, as_admin, after, as_super_admin,
  Reply, refuse_if, refused, permission_denied,
}
use inline_chat.Admin.Agents.Revocation.{get_agent_by_id-Reads}
use inline_chat.Admin.Server.Calls.{
  Call, creates_site, updates_site, updates_site_status, rotates_site_widget_key,
  gets_site_ai_config, updates_site_ai_config, lists_sites, gets_site_by_site_id,
  gets_site_by_domain, creates_agent, gets_agent_by_id, lists_agents, updates_agent_status,
  resets_agent_password, forces_agent_logout, lists_audit_logs, Body, handle,
}
use inline_chat.Admin.Sites.Reads.{
  get_site_ai_config-Reads, get_site_by_site_id-Reads, get_site_by_domain-Reads,
}

-- The header of a call; the calls for all have none.
abbrev pub header_of : Call → String
header_of (creates_site auth site_id name domain domains random) = auth
header_of (updates_site auth site_id name domains) = auth
header_of (updates_site_status auth site_id status) = auth
header_of (rotates_site_widget_key auth site_id random) = auth
header_of (gets_site_ai_config site_id) = ""
header_of (updates_site_ai_config auth site_id enabled mode) = auth
header_of (lists_sites auth limit offset) = auth
header_of (gets_site_by_site_id site_id) = ""
header_of (gets_site_by_domain domain) = ""
header_of (creates_agent auth input) = auth
header_of (gets_agent_by_id id) = ""
header_of (lists_agents auth limit offset) = auth
header_of (updates_agent_status auth id status) = auth
header_of (resets_agent_password auth id password) = auth
header_of (forces_agent_logout auth id) = auth
header_of (lists_audit_logs auth limit offset actor action resource_type) = auth

-- What an admin may ask for too; the rest of the changes is for super admins.
abbrev pub admin_may : Call → Bool
admin_may (creates_site auth site_id name domain domains random) = true
admin_may (updates_site auth site_id name domains) = true
admin_may (updates_site_status auth site_id status) = false
admin_may (rotates_site_widget_key auth site_id random) = false
admin_may (gets_site_ai_config site_id) = true
admin_may (updates_site_ai_config auth site_id enabled mode) = false
admin_may (lists_sites auth limit offset) = true
admin_may (gets_site_by_site_id site_id) = true
admin_may (gets_site_by_domain domain) = true
admin_may (creates_agent auth input) = false
admin_may (gets_agent_by_id id) = true
admin_may (lists_agents auth limit offset) = true
admin_may (updates_agent_status auth id status) = false
admin_may (resets_agent_password auth id password) = false
admin_may (forces_agent_logout auth id) = false
admin_may (lists_audit_logs auth limit offset actor action resource_type) = true

module _ {A P S D I L : Type 0} (s : AdminServer A P S D I L) where
  -- The token of a header verifies, its role is that of an admin, and its account is live.
  abbrev pub Admin : String → ℕ → Claims → Database A P S D I L → Type 0
  Admin header now c w =
      (parse_token_any s.admin_service.crypto s.jwt_secrets s.jwt_issuer now
          (parse_bearer_token header)
        ≡ ok c)
      × ((str_eq c.role "admin" || str_eq c.role "super_admin") ≡ true)
      × Live s.admin_service c w

  session_reply-err : (c : Claims) (e : Error) → is_refused (session_reply s c (err e)) ≡ true
  unfolding session_reply
  session_reply-err c e = ground arith

  with_claims-Admin :
      (parsed : Result Claims) (w : Database A P S D I L)
      → (is_refused (with_claims s parsed w) ≡ true)
        ⊎ ((c : Claims) × (parsed ≡ ok c)
            × (with_claims s parsed w ≡ answered c)
            × ((str_eq c.role "admin" || str_eq c.role "super_admin") ≡ true)
            × Live s.admin_service c w)
  unfolding with_claims
  with_claims-Admin (err e) w = inl refl
  with_claims-Admin (ok c) w =
      elim (Bool-cases (not (str_eq c.role "admin") && not (str_eq c.role "super_admin"))) [
        | inl neither ↦ inl (ground (arith, neither))
        | inr either ↦
            elim (Result-cases
              (validate_admin_session s.admin_service c.role c.agent_id c.token_version w).0) [
                | inl (x, e) ↦ inl (ground (arith, either, e, session_reply-err c x))
                | inr (u, e) ↦ inr (
                  c,
                  refl,
                  ground (arith, either, e),
                  ground (arith, either),
                  validate_admin_session-Live s.admin_service c w e,
                )
              ]
      ]

  require_admin-Admin :
      (header : String) (now : ℕ) (w : Database A P S D I L)
      → (is_refused (require_admin s header now w) ≡ true)
        ⊎ ((c : Claims) × (require_admin s header now w ≡ answered c) × Admin header now c w)
  unfolding require_admin
  require_admin-Admin header now w =
      let token = parse_bearer_token header in
      let parsed = parse_token_any s.admin_service.crypto s.jwt_secrets s.jwt_issuer now token in
      elim (Bool-cases (str_eq token "")) [
        | inl none ↦ inl (ground (arith, none))
        | inr some ↦ elim (with_claims-Admin parsed w) [
          | inl out ↦ inl (ground (arith, some, out))
          | inr (c, e, fine, role, live) ↦ inr (c, ground (arith, some, fine), (e, role, live))
        ]
      ]

  after-refused :
      {X : Type 0} (r : Reply Claims) (m : Claims → Handler (Database A P S D I L) X)
      (w : Database A P S D I L)
      → is_refused r ≡ true
      → (after s r m w).1 ≡ w
  unfolding after
  after-refused (answered c) m w h = absurd (ground (arith, h))
  after-refused (refused t) m w h = refl

  -- A handler behind the check leaves the database as it is, or has an admin's claims.
  as_admin-Admin :
      {X : Type 0} (header : String) (now : ℕ) (m : Claims → Handler (Database A P S D I L) X)
      (w : Database A P S D I L)
      → ((as_admin s header now m w).1 ≡ w)
        ⊎ ((c : Claims) × Admin header now c w × (as_admin s header now m w ≡ m c w))
  unfolding as_admin after
  as_admin-Admin header now m w = elim (require_admin-Admin header now w) [
    | inl out ↦ inl (after-refused (require_admin s header now w) m w out)
    | inr (c, e, admin) ↦ inr (c, admin, ap (λ r. after s r m w) e)
  ]

  -- Whose claims are behind a change.
  abbrev pub Authorized : Call → ℕ → Database A P S D I L → Type 0
  Authorized q now w =
      (c : Claims) × Admin (header_of q) now c w
      × ((str_eq c.role "super_admin" || admin_may q) ≡ true)

  as_admin-Authorized :
      (q : Call) (now : ℕ) (m : Claims → Handler (Database A P S D I L) Body)
      (w : Database A P S D I L)
      → admin_may q ≡ true
      → ((as_admin s (header_of q) now m w).1 ≡ w) ⊎ Authorized q now w
  as_admin-Authorized q now m w may = elim (as_admin-Admin (header_of q) now m w) [
    | inl same ↦ inl same
    | inr (c, admin, e) ↦ inr (c, admin, ground (arith, may))
  ]

  as_super_admin-Authorized :
      (q : Call) (now : ℕ) (m : Claims → Handler (Database A P S D I L) Body)
      (w : Database A P S D I L)
      → ((as_super_admin s (header_of q) now m w).1 ≡ w) ⊎ Authorized q now w
  unfolding as_super_admin
  as_super_admin-Authorized q now m w =
      elim (as_admin-Admin (header_of q) now
        (λ (c : Claims).
          refuse_if (not (str_eq c.role "super_admin"))
            (record { code = permission_denied; text = "super_admin role required" }) (m c))
        w) [
          | inl same ↦ inl same
          | inr (c, admin, e) ↦ elim (Bool-cases (str_eq c.role "super_admin")) [
            | inl root ↦ inr (c, admin, ground (arith, root))
            | inr other ↦ inl (ap (λ r. r.1) e ∙ ground (arith, other))
          ]
        ]

  -- A call leaves the database as it is, or its header bears a token that verifies with one of the
  -- secrets, of the role admin or super_admin, whose account is stored, active, and has the token's
  -- version; for the changes that are kept from admins the role is super_admin.
  pub handle-Authorized :
      (q : Call) (now : ℕ) (w : Database A P S D I L)
      → ((handle s q now w).1 ≡ w) ⊎ Authorized q now w
  unfolding handle
  handle-Authorized (creates_site auth site_id name domain domains random) now w =
      as_admin-Authorized (creates_site auth site_id name domain domains random) now _ w refl
  handle-Authorized (updates_site auth site_id name domains) now w =
      as_admin-Authorized (updates_site auth site_id name domains) now _ w refl
  handle-Authorized (updates_site_status auth site_id status) now w =
      as_super_admin-Authorized (updates_site_status auth site_id status) now _ w
  handle-Authorized (rotates_site_widget_key auth site_id random) now w =
      as_super_admin-Authorized (rotates_site_widget_key auth site_id random) now _ w
  handle-Authorized (gets_site_ai_config site_id) now w =
      inl (get_site_ai_config-Reads s.admin_service site_id w)
  handle-Authorized (updates_site_ai_config auth site_id enabled mode) now w =
      as_super_admin-Authorized (updates_site_ai_config auth site_id enabled mode) now _ w
  handle-Authorized (lists_sites auth limit offset) now w =
      as_admin-Authorized (lists_sites auth limit offset) now _ w refl
  handle-Authorized (gets_site_by_site_id site_id) now w =
      inl (ground (arith, get_site_by_site_id-Reads s.admin_service (trim_space site_id) w))
  handle-Authorized (gets_site_by_domain domain) now w =
      inl (ground (arith, get_site_by_domain-Reads s.admin_service (trim_space domain) w))
  handle-Authorized (creates_agent auth input) now w =
      as_super_admin-Authorized (creates_agent auth input) now _ w
  handle-Authorized (gets_agent_by_id id) now w =
      inl (ground (arith, get_agent_by_id-Reads s.admin_service id w))
  handle-Authorized (lists_agents auth limit offset) now w =
      as_admin-Authorized (lists_agents auth limit offset) now _ w refl
  handle-Authorized (updates_agent_status auth id status) now w =
      as_super_admin-Authorized (updates_agent_status auth id status) now _ w
  handle-Authorized (resets_agent_password auth id password) now w =
      as_super_admin-Authorized (resets_agent_password auth id password) now _ w
  handle-Authorized (forces_agent_logout auth id) now w =
      as_super_admin-Authorized (forces_agent_logout auth id) now _ w
  handle-Authorized (lists_audit_logs auth limit offset actor action resource_type) now w =
      as_admin-Authorized (lists_audit_logs auth limit offset actor action resource_type) now _ w
        refl
