-- ===== src/Admin/Sites/Reads.antt =====
-- The methods on sites that only read.
use inline_chat.Prelude.{String, ◌≡◌, arith, inl, inr}
use inline_chat.Prelude.Text.{trim_space}
use inline_chat.Admin.Names.{normalize_site_domain}
use inline_chat.Errors.{Result-cases}
use inline_chat.Admin.{AdminService, Database, site_by_site_id, site_by_domain}
use inline_chat.Admin.Sites.{
  found_site, get_site_by_site_id, get_site_by_domain, get_site_ai_config, config_of,
}

module _ {A P S D I L : Type 0} (svc : AdminService A P S D I L) where
  site_by_site_id-Reads :
      (id : String) (w : Database A P S D I L) → (site_by_site_id svc id w).1 ≡ w
  unfolding site_by_site_id
  site_by_site_id-Reads id w = ground arith

  site_by_domain-Reads :
      (domain : String) (w : Database A P S D I L) → (site_by_domain svc domain w).1 ≡ w
  unfolding site_by_domain
  site_by_domain-Reads domain w = ground arith

  found_site-Reads : (id : String) (w : Database A P S D I L) → (found_site svc id w).1 ≡ w
  unfolding found_site
  found_site-Reads id w = ground (arith, site_by_site_id-Reads id w)

  config_of-Reads : (id : String) (w : Database A P S D I L) → (config_of svc id w).1 ≡ w
  unfolding config_of
  config_of-Reads id w = ground arith

  pub get_site_by_site_id-Reads :
      (raw : String) (w : Database A P S D I L) → (get_site_by_site_id svc raw w).1 ≡ w
  unfolding get_site_by_site_id
  get_site_by_site_id-Reads raw w = ground (arith, found_site-Reads (trim_space raw) w)

  pub get_site_by_domain-Reads :
      (raw : String) (w : Database A P S D I L) → (get_site_by_domain svc raw w).1 ≡ w
  unfolding get_site_by_domain
  get_site_by_domain-Reads raw w = elim (Result-cases (normalize_site_domain raw)) [
    | inl (x, e) ↦ ground (arith, e)
    | inr (domain, e) ↦ ground (arith, e, site_by_domain-Reads domain w)
  ]

  pub get_site_ai_config-Reads :
      (raw : String) (w : Database A P S D I L) → (get_site_ai_config svc raw w).1 ≡ w
  unfolding get_site_ai_config
  get_site_ai_config-Reads raw w =
      ground (arith, found_site-Reads (trim_space raw) w, config_of-Reads (trim_space raw) w)
