-- ===== src/Admin/Sites.antt =====
-- The methods of AdminService on sites and their AI settings.
pub mod Reads
use Prim.Native.String.{◌++◌, char_at}
use inline_chat.Prelude.{
  ℕ, ◌/◌, ◌%◌, String, Bool, true, false, not, Option, none, some, List, [], ◌∷◌, str_eq,
  if◌then◌else◌,
}
use inline_chat.Prelude.Text.{trim_space}
use inline_chat.Errors.{Error, Result, ok, err, invalid, conflict}
use inline_chat.Effects.{Effect, pure, raise_if, return, map_error, ◌>>=◌, ◌>>◌}
use inline_chat.Admin.{
  Database, AdminService, ActorContext, as_resource_not_found, site_by_site_id, site_by_domain,
  list_site_rows, create_site_row, save_site, write_audit_log,
}
use inline_chat.Admin.Model.{Site, SiteRow, SiteAiConfig}
use inline_chat.Admin.Names.{
  normalize_site_id, normalize_site_domain, normalize_site_domains, normalize_site_status,
  normalize_site_ai_reply_mode, unassigned_auto_reply, is_duplicate_error,
}

-- hex.EncodeToString
abbrev pub hex : List ℕ → String
hex [] = ""
hex (b ∷ bs) =
    String.◌∷◌ (char_at "0123456789abcdef" (b / 16 % 16))
      (String.◌∷◌ (char_at "0123456789abcdef" (b % 16)) (hex bs))

-- `random` is what crypto/rand reads into the 16 bytes.
unfoldable pub widget_key_of : Result (List ℕ) → Result String
widget_key_of (ok bytes) = ok ("wk_" ++ hex bytes)
widget_key_of (err e) = err e

abbrev pub as_conflict : Error → Error
unfolding is_duplicate_error
as_conflict e = if is_duplicate_error e then conflict else e

-- The verb %t.
abbrev pub format_bool : Bool → String
format_bool true = "true"
format_bool false = "false"

module _ {A P S D I L : Type 0} (svc : AdminService A P S D I L) where
  unfoldable pub create_site :
      String
      → String
      → String
      → List String
      → Result (List ℕ)
      → ActorContext
      → Effect (Database A P S D I L) Site
  unfolding normalize_site_id normalize_site_domains widget_key_of create_site_row write_audit_log
      trim_space
  create_site raw_site_id raw_name domain domains random actor = do
    site_id ← return (normalize_site_id raw_site_id)
    let name = trim_space raw_name
    normalized ← return (normalize_site_domains domains domain)
    raise_if (str_eq name "") (invalid "name is required")
    key ← return (widget_key_of random)
    let row : SiteRow = record {
      id = 0;
      site_id = site_id;
      name = name;
      widget_key = key;
      status = "active";
    }
    site ← map_error as_conflict (create_site_row svc (record { row = row; domains = normalized }))
    write_audit_log svc actor "site.create" "site" site_id ("创建站点 " ++ site_id)
    pure site

  unfoldable pub list_sites : ℕ → ℕ → Effect (Database A P S D I L) (List Site)
  unfolding list_site_rows
  list_sites limit offset = list_site_rows svc limit offset

  -- `GetBySiteID`, with the error for a missing row.
  found_site : String → Effect (Database A P S D I L) Site
  unfolding site_by_site_id
  found_site site_id = map_error as_resource_not_found (site_by_site_id svc site_id)

  unfoldable pub get_site_by_site_id : String → Effect (Database A P S D I L) Site
  unfolding found_site trim_space
  get_site_by_site_id raw = do
    raise_if (str_eq (trim_space raw) "") (invalid "site_id is required")
    found_site (trim_space raw)

  unfoldable pub get_site_by_domain : String → Effect (Database A P S D I L) Site
  unfolding normalize_site_domain site_by_domain
  get_site_by_domain raw = do
    domain ← return (normalize_site_domain raw)
    map_error as_resource_not_found (site_by_domain svc domain)

  -- Save, and the log of it.
  save_logged : ActorContext → String → String → Site → Effect (Database A P S D I L) Site
  unfolding save_site write_audit_log
  save_logged actor action summary site = do
    save_site svc site
    write_audit_log svc actor action "site" site.row.site_id summary
    pure site

  unfoldable pub update_site :
      String → String → List String → ActorContext → Effect (Database A P S D I L) Site
  unfolding normalize_site_domains found_site save_site write_audit_log trim_space
  update_site raw_site_id raw_name domains actor = do
    let site_id = trim_space raw_site_id
    raise_if (str_eq site_id "") (invalid "site_id is required")
    let name = trim_space raw_name
    raise_if (str_eq name "") (invalid "name is required")
    normalized ← return (normalize_site_domains domains "")
    found ← found_site site_id
    let site : Site = record { row = record (found.row) { name = name }; domains = normalized }
    map_error as_conflict (save_site svc site)
    write_audit_log svc actor "site.update" "site" site.row.site_id ("更新站点 " ++ site.row.site_id)
    pure site

  unfoldable pub update_site_status :
      String → String → ActorContext → Effect (Database A P S D I L) Site
  unfolding normalize_site_status found_site save_logged trim_space
  update_site_status raw_site_id raw_status actor = do
    let site_id = trim_space raw_site_id
    raise_if (str_eq site_id "") (invalid "site_id is required")
    status ← return (normalize_site_status raw_status)
    found ← found_site site_id
    save_logged actor "site.update_status" ("站点状态 " ++ found.row.status ++ " -> " ++ status)
        (record found { row = record (found.row) { status = status } })

  unfoldable pub rotate_site_widget_key :
      String → Result (List ℕ) → ActorContext → Effect (Database A P S D I L) Site
  unfolding widget_key_of found_site save_logged trim_space
  rotate_site_widget_key raw_site_id random actor = do
    let site_id = trim_space raw_site_id
    raise_if (str_eq site_id "") (invalid "site_id is required")
    found ← found_site site_id
    key ← return (widget_key_of random)
    save_logged actor "site.rotate_widget_key" "轮换站点 widget_key"
        (record found { row = record (found.row) { widget_key = key } })

  abbrev pub default_config : String → SiteAiConfig
  default_config site_id = record {
    site_id = site_id;
    enabled = false;
    reply_mode = unassigned_auto_reply;
  }

  config_or_default : String → Result (Option SiteAiConfig) → Result SiteAiConfig
  config_or_default site_id (err e) = err e
  config_or_default site_id (ok none) = ok (default_config site_id)
  config_or_default site_id (ok (some c)) = ok c

  config_of : String → Effect (Database A P S D I L) SiteAiConfig
  unfolding config_or_default
  config_of site_id w =
      if not svc.has_ai_configs
      then (ok (default_config site_id), w)
      else (config_or_default site_id (svc.config_table.of_site site_id w.ai_configs), w)

  unfoldable pub get_site_ai_config : String → Effect (Database A P S D I L) SiteAiConfig
  unfolding found_site config_of trim_space
  get_site_ai_config raw = do
    let site_id = trim_space raw
    raise_if (str_eq site_id "") (invalid "site_id is required")
    found_site site_id
    config_of site_id

  upsert_config : SiteAiConfig → Effect (Database A P S D I L) (Unit {0})
  upsert_config c w = elim (svc.config_table.upsert c w.ai_configs) [
    | ok s ↦ (ok tt, record w { ai_configs = s })
    | err e ↦ (err e, w)
  ]

  -- The current row is read first, for its created_at; its absence is no error.
  unfoldable pub update_site_ai_config :
      String → Bool → String → ActorContext → Effect (Database A P S D I L) SiteAiConfig
  unfolding normalize_site_ai_reply_mode found_site upsert_config write_audit_log get_site_ai_config
      trim_space
  update_site_ai_config raw enabled raw_mode actor = do
    let site_id = trim_space raw
    raise_if (str_eq site_id "") (invalid "site_id is required")
    mode ← return (normalize_site_ai_reply_mode raw_mode)
    found_site site_id
    raise_if (not svc.has_ai_configs) (invalid "site ai config repository is unavailable")
    λ w. (svc.config_table.of_site site_id w.ai_configs, w)
    upsert_config (record { site_id = site_id; enabled = enabled; reply_mode = mode })
    write_audit_log svc actor "site.update_ai_config" "site_ai_config" site_id
        ("更新站点 AI 配置 enabled=" ++ format_bool enabled ++ " reply_mode=" ++ mode)
    get_site_ai_config site_id
