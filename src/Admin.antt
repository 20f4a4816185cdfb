-- ===== src/Admin.antt =====
-- services/admin-service: sites, agents, and the log of what was done to them. Here: the fields of
-- AdminService, its repositories over the tables, and writeAuditLog.
pub mod Model
pub mod Names
pub mod Agents
pub mod Sites
pub mod Sessions
pub mod Server
pub mod Tests
use inline_chat.Prelude.{
  ℕ, String, Bool, true, false, not, ◌||◌, ◌&&◌, Option, none, some, List, [], ◌∷◌, map, ◌==◌, ◌≡◌,
  ltb, str_eq, if◌then◌else◌,
}
use inline_chat.Prelude.Int.{ℤ, positive_or, is_negative, to_nat}
use inline_chat.Prelude.Text.{trim_space}
use inline_chat.Errors.{Error, Result, ok, err, invalid, is_not_found, resource_not_found}
use inline_chat.Effects.{Effect, pure, raise_if, attempt, ◌>>=◌, ◌>>◌}
use inline_chat.Store.{Table, Query, or_not_found, first_where}
use inline_chat.Accounts.{Accounts, AccountTables}
use inline_chat.Accounts.Passwords.{Letters}
use inline_chat.Accounts.Tokens.{Crypto}
use inline_chat.Admin.Model.{SiteRow, Site, SiteDomain, SiteAiConfig, AuditLog}

pub record Database (A P S D I L : Type 0) : Type 0 where
  pub accounts : Accounts A P
  pub sites : S
  pub site_domains : D
  pub ai_configs : I
  pub audit_logs : L

-- The unique keys of the table sites.
abbrev pub same_site : SiteRow → SiteRow → Bool
same_site a b = str_eq a.site_id b.site_id || str_eq a.widget_key b.widget_key

abbrev pub SiteFills : SiteRow → SiteRow → Type 0
SiteFills a b = b ≡ record a { id = b.id }

abbrev pub AuditFills : AuditLog → AuditLog → Type 0
AuditFills a b = b ≡ record a { id = b.id }

-- The statements on the table site_domains: the rows of a site in the order of their domains, the row
-- of a domain, DELETE for a site, and the INSERT of several rows.
pub record DomainTable (D : Type 0) : Type 0 where
  pub of_site : String → D → Result (List SiteDomain)
  pub of_domain : String → D → Result (Option SiteDomain)
  pub delete_site : String → D → Result D
  pub insert_all : List SiteDomain → D → Result D

-- The statements on the table site_ai_configs. The upsert sets enabled and reply_mode of the site's row,
-- or makes the row, and leaves the other rows.
pub record ConfigTable (I : Type 0) : Type 0 where
  pub of_site : String → I → Result (Option SiteAiConfig)
  pub upsert : SiteAiConfig → I → Result I
  pub of_site-upsert :
      (c : SiteAiConfig) (s s' : I) (found : Option SiteAiConfig)
      → upsert c s ≡ ok s'
      → of_site c.site_id s' ≡ ok found
      → found ≡ some c

-- The fields of AdminService. The repositories of super admins, AI settings and audit logs may be
-- missing; a transaction may fail to begin and to commit.
pub record AdminService (A P S D I L : Type 0) : Type 0 where
  pub account_tables : AccountTables A P
  pub site_table : Table S SiteRow (λ r. r.id) same_site SiteFills
  pub domain_table : DomainTable D
  pub config_table : ConfigTable I
  pub audit_table : Table L AuditLog (λ a. a.id) (λ a b. false) AuditFills
  pub has_super_admins : Bool
  pub has_ai_configs : Bool
  pub has_audit : Bool
  pub begin_fault : Database A P S D I L → Option Error
  pub commit_fault : Database A P S D I L → Option Error
  pub crypto : Crypto
  pub letters : Letters
  pub bcrypt_cost : ℕ

pub record ActorContext : Type 0 where
  pub agent_id : ℕ
  pub email : String
  pub role : String
  pub ip : String
  pub user_agent : String

-- `if errors.Is(err, repository.ErrNotFound) { return ErrNotFound }`
abbrev pub as_resource_not_found : Error → Error
as_resource_not_found e = if is_not_found e then resource_not_found else e

-- "-" for an empty text.
abbrev pub or_dash : String → String
or_dash s = if str_eq s "" then "-" else s

module _ {A P S D I L : Type 0} where
  -- A statement on the accounts.
  abbrev pub on_accounts : {X : Type 0} → Effect (Accounts A P) X → Effect (Database A P S D I L) X
  on_accounts m w = let (r, a) = m w.accounts in (r, record w { accounts = a })

module _ {A P S D I L : Type 0} (svc : AdminService A P S D I L) where
  -- GormSiteRepository, in a transaction of gorm.
  finish :
      {X : Type 0}
      → Database A P S D I L
      → Result X × Database A P S D I L
      → Result X × Database A P S D I L
  finish before (err e, after) = (err e, before)
  finish before (ok x, after) = elim (svc.commit_fault after) [
    | none ↦ (ok x, after)
    | some e ↦ (err e, before)
  ]

  unfoldable pub transaction :
      {X : Type 0} → Effect (Database A P S D I L) X → Effect (Database A P S D I L) X
  unfolding finish
  transaction m w = elim (svc.begin_fault w) [ some e ↦ (err e, w) | none ↦ finish w (m w) ]

  insert_site_row : SiteRow → Effect (Database A P S D I L) SiteRow
  insert_site_row r w = elim (svc.site_table.insert r w.sites) [
    | ok (r', s) ↦ (ok r', record w { sites = s })
    | err e ↦ (err e, w)
  ]

  save_site_row : SiteRow → Effect (Database A P S D I L) (Unit {0})
  save_site_row r w = elim (svc.site_table.save r w.sites) [
    | ok s ↦ (ok tt, record w { sites = s })
    | err e ↦ (err e, w)
  ]

  on_domains : (D → Result D) → Effect (Database A P S D I L) (Unit {0})
  on_domains f w = elim (f w.site_domains) [
    | ok s ↦ (ok tt, record w { site_domains = s })
    | err e ↦ (err e, w)
  ]

  insert_domains : List SiteDomain → Effect (Database A P S D I L) (Unit {0})
  unfolding on_domains
  insert_domains [] = pure tt
  insert_domains (d ∷ ds) = on_domains (svc.domain_table.insert_all (d ∷ ds))

  sync_site_domains : String → List String → Effect (Database A P S D I L) (Unit {0})
  unfolding on_domains insert_domains
  sync_site_domains site domains = do
    on_domains (svc.domain_table.delete_site site)
    insert_domains (map (λ d. record { site_id = site; domain = d }) domains)

  unfoldable pub create_site_row : Site → Effect (Database A P S D I L) Site
  unfolding transaction insert_site_row sync_site_domains
  create_site_row site = transaction (do
    row ← insert_site_row site.row
    sync_site_domains row.site_id site.domains
    pure (record site { row = row }))

  unfoldable pub save_site : Site → Effect (Database A P S D I L) (Unit {0})
  unfolding transaction save_site_row sync_site_domains
  save_site site =
      transaction (do save_site_row site.row; sync_site_domains site.row.site_id site.domains)

  -- populateSingleSiteDomains, after the preloading of the domains.
  with_domains : SiteRow → Effect (Database A P S D I L) Site
  with_domains row w = (
    elim (svc.domain_table.of_site row.site_id w.site_domains) [
      | ok ds ↦ ok (record { row = row; domains = map (λ d. d.domain) ds })
      | err e ↦ err e
    ],
    w,
  )

  site_row : String → Effect (Database A P S D I L) SiteRow
  site_row site w =
      (or_not_found (svc.site_table.first (first_where (λ r. str_eq r.site_id site)) w.sites), w)

  unfoldable pub site_by_site_id : String → Effect (Database A P S D I L) Site
  unfolding site_row with_domains
  site_by_site_id site = do row ← site_row site; with_domains row

  unfoldable pub site_by_domain : String → Effect (Database A P S D I L) Site
  unfolding site_row with_domains
  site_by_domain domain = do
    d ← λ w. (or_not_found (svc.domain_table.of_domain domain w.site_domains), w)
    row ← site_row d.site_id
    with_domains row

  with_domains_each : List SiteRow → Effect (Database A P S D I L) (List Site)
  unfolding with_domains
  with_domains_each [] = pure []
  with_domains_each (r ∷ rs) = do s ← with_domains r; ss ← with_domains_each rs; pure (s ∷ ss)

  unfoldable pub list_site_rows : ℕ → ℕ → Effect (Database A P S D I L) (List Site)
  unfolding with_domains_each
  list_site_rows limit offset =
      let q : Query SiteRow = record {
        matches = λ r. true;
        descending = true;
        limit = some limit;
        offset = offset;
      } in
      (λ w. (svc.site_table.find q w.sites, w)) >>= with_domains_each

  -- GormAuditLogRepository.Create
  create_audit_log : AuditLog → Effect (Database A P S D I L) (Unit {0})
  create_audit_log a w = elim (svc.audit_table.insert a w.audit_logs) [
    | ok (a', s) ↦ (ok tt, record w { audit_logs = s })
    | err e ↦ (err e, w)
  ]

  -- Its callers drop its error.
  unfoldable pub write_audit_log :
      ActorContext → String → String → String → String → Effect (Database A P S D I L) (Unit {0})
  unfolding create_audit_log trim_space
  write_audit_log actor action resource_type resource_id summary =
      let log =
        attempt (
          create_audit_log (record {
            id = 0;
            actor_agent_id = actor.agent_id;
            actor_email = or_dash (trim_space actor.email);
            actor_role = or_dash (trim_space actor.role);
            action = trim_space action;
            resource_type = trim_space resource_type;
            resource_id = trim_space resource_id;
            summary = trim_space summary;
            ip = trim_space actor.ip;
            user_agent = trim_space actor.user_agent;
          }))
        >> pure tt in
      if not svc.has_audit || str_eq (trim_space action) "" || actor.agent_id == 0
      then pure tt
      else log

  -- The WHERE clauses of GormAuditLogRepository.List, each added under its test.
  abbrev pub audited : ℕ → String → String → AuditLog → Bool
  unfolding trim_space
  audited actor action resource_type a =
      (actor == 0 || a.actor_agent_id == actor)
      && (str_eq (trim_space action) "" || str_eq a.action (trim_space action))
      && (str_eq (trim_space resource_type) "" || str_eq a.resource_type (trim_space resource_type))

  find_audit_logs : ℕ → ℕ → (AuditLog → Bool) → Effect (Database A P S D I L) (List AuditLog)
  find_audit_logs limit offset matches w =
      let q : Query AuditLog = record {
        matches = matches;
        descending = true;
        limit = some limit;
        offset = offset;
      } in
      (svc.audit_table.find q w.audit_logs, w)

  checked_audit_logs : ℕ → ℤ → ℕ → String → String → Effect (Database A P S D I L) (List AuditLog)
  unfolding find_audit_logs trim_space
  checked_audit_logs limit offset actor action resource_type = do
    raise_if (ltb 200 limit) (invalid "invalid limit")
    raise_if (is_negative offset) (invalid "invalid offset")
    find_audit_logs limit (to_nat offset)
        (audited actor (trim_space action) (trim_space resource_type))

  unfoldable pub list_audit_logs :
      ℤ → ℤ → ℕ → String → String → Effect (Database A P S D I L) (List AuditLog)
  unfolding checked_audit_logs
  list_audit_logs raw_limit offset actor action resource_type =
      if not svc.has_audit
      then pure []
      else checked_audit_logs (positive_or 50 raw_limit) offset actor action resource_type
