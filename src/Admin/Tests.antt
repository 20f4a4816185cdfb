-- ===== src/Admin/Tests.antt =====
-- An admin-service in memory, on the accounts of the auth-service's.
use inline_chat.Prelude.{
  true, false, ◌≡◌, ◌⊎◌, ◌<◌, refl, subst, List, [], ◌∷◌, some, none, arith, head?, filter, str_eq,
  ◌++◌, not, sym, ◌∙◌, Option, ap, eq_refl,
}
use inline_chat.Prelude.Text.{to_lower, trim_space}
use inline_chat.Errors.{ok, is_err, ok-injective}
use inline_chat.Store.Memory.{memory_table, insert_row}
use inline_chat.Accounts.{agent_by_id}
use inline_chat.Accounts.Model.{Agent, SuperAdmin}
use inline_chat.Accounts.Versions.{uint64, next_token_version}
use inline_chat.Accounts.Tests.{tables, crypto, ascii, accounts, ann, ann_claims}
use inline_chat.Auth.{check_session}
use inline_chat.Auth.Tests.{service as auth}
use inline_chat.Admin.{
  Database, AdminService, DomainTable, ConfigTable, ActorContext, same_site, SiteFills, AuditFills,
}
use inline_chat.Admin.Model.{SiteRow, SiteDomain, SiteAiConfig, AuditLog}
use inline_chat.Admin.Agents.Revocation.{revoke, logs_out, revoke-check_session}
use inline_chat.Admin.Server.{AdminServer}
use inline_chat.Admin.Server.Calls.{handle, forces_agent_logout}
use inline_chat.Admin.Server.Access.{handle-Authorized, Authorized}

abbrev domains : DomainTable (List SiteDomain)
domains = record {
  of_site = λ site ds. ok (filter (λ d. str_eq d.site_id site) ds);
  of_domain = λ domain ds. ok (head? (filter (λ d. str_eq d.domain domain) ds));
  delete_site = λ site ds. ok (filter (λ d. not (str_eq d.site_id site)) ds);
  insert_all = λ new ds. ok (ds ++ new);
}

pub newest_config :
    (c : SiteAiConfig) (s s' : List SiteAiConfig) (found : Option SiteAiConfig)
    → ok (c ∷ s) ≡ ok s'
    → ok (head? (filter (λ d. str_eq d.site_id c.site_id) s')) ≡ ok found
    → found ≡ some c
newest_config c s s' found e e' =
    sym (
      ok-injective
        (ap (λ x. ok (head? (filter (λ d. str_eq d.site_id c.site_id) x))) (ok-injective e) ∙ e'))
    ∙ rw (eq_refl c.site_id) refl

-- The newest setting of a site comes first.
abbrev configs : ConfigTable (List SiteAiConfig)
configs = record {
  of_site = λ site cs. ok (head? (filter (λ c. str_eq c.site_id site) cs));
  upsert = λ c cs. ok (c ∷ cs);
  of_site-upsert = newest_config;
}

abbrev Memory : Type 0
Memory =
    Database (List Agent) (List SuperAdmin) (List SiteRow) (List SiteDomain) (List SiteAiConfig)
      (List AuditLog)

abbrev admin :
    AdminService
      (List Agent)
      (List SuperAdmin)
      (List SiteRow)
      (List SiteDomain)
      (List SiteAiConfig)
      (List AuditLog)
admin = record {
  account_tables = tables;
  site_table =
      memory_table (λ r. r.id) same_site (λ n r. record r { id = n }) SiteFills (λ n r. refl)
        (λ n r. refl);
  domain_table = domains;
  config_table = configs;
  audit_table =
      memory_table (λ r. r.id) (λ a b. false) (λ n r. record r { id = n }) AuditFills (λ n r. refl)
        (λ n r. refl);
  has_super_admins = true;
  has_ai_configs = true;
  has_audit = true;
  begin_fault = λ w. none;
  commit_fault = λ w. none;
  crypto = crypto;
  letters = ascii;
  bcrypt_cost = 10;
}

abbrev memory : Memory
memory = record {
  accounts = accounts;
  sites = [];
  site_domains = [];
  ai_configs = [];
  audit_logs = [];
}

abbrev actor : ActorContext
actor = record { agent_id = 1; email = "root@x.io"; role = "super_admin"; ip = ""; user_agent = "" }

passes : is_err (check_session (record auth { tables = tables }) ann_claims accounts).0 ≡ false
unfolding check_session
passes = refl

logged_out : is_err (revoke admin logs_out 7 actor memory).0 ≡ false
unfolding revoke
logged_out = refl

found_ann : (agent_by_id tables 7 accounts).0 ≡ ok ann
unfolding agent_by_id
found_ann = refl

revoke-check_session_example :
    is_err
      (check_session
        (record auth { tables = tables })
        ann_claims
        (revoke admin logs_out 7 actor memory).1.accounts).0
    ≡ true
unfolding to_lower trim_space
revoke-check_session_example =
    revoke-check_session admin auth logs_out 7 actor memory ann_claims refl refl
      (λ a e.
        subst (λ b. b.token_version < uint64) (ok-injective (sym found_ann ∙ e)) (omega arith))
      passes logged_out

abbrev server :
    AdminServer
      (List Agent)
      (List SuperAdmin)
      (List SiteRow)
      (List SiteDomain)
      (List SiteAiConfig)
      (List AuditLog)
server = record { admin_service = admin; jwt_secrets = "secret" ∷ []; jwt_issuer = "inlinechat" }

-- The super admin's call goes through.
bumped :
    (handle server (forces_agent_logout "Bearer token-1" 7) 2000 memory).1.accounts.agents
    ≡ record ann { token_version = 4 } ∷ []
unfolding handle insert_row next_token_version
bumped = refl

handle-Authorized_example :
    ((handle server (forces_agent_logout "Bearer token-1" 7) 2000 memory).1 ≡ memory)
    ⊎ Authorized server (forces_agent_logout "Bearer token-1" 7) 2000 memory
handle-Authorized_example =
    handle-Authorized server (forces_agent_logout "Bearer token-1" 7) 2000 memory
