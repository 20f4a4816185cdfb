-- ===== src/Realtime/Origins.antt =====
-- Which origins may connect, and which hosts a site names: the functions on addresses of
-- services/realtime-service/internal/ws/handler.go.
use Prim.Native.String.{◌++◌}
use inline_chat.Prelude.{
  String, Bool, true, false, not, ◌&&◌, ◌||◌, Option, none, some, List, [], ◌∷◌, str_eq,
  if◌then◌else◌,
}
use inline_chat.Prelude.{◌++◌ as append}
use inline_chat.Prelude.Text.{trim_space, to_lower, equal_fold, trim_prefix, trim_suffix}
use inline_chat.Http.{Url, UrlParser}
use inline_chat.Realtime.Upstream.{SiteView}

abbrev pub has_text : String → List String → Bool
has_text s [] = false
has_text s (t ∷ ts) = str_eq t s || has_text s ts

module _ (urls : UrlParser) where
  origin_of : Option Url → String
  unfolding to_lower
  origin_of none = ""
  origin_of (some u) =
      if str_eq u.scheme "" || str_eq u.host "" then "" else u.scheme ++ "://" ++ to_lower u.host

  unfoldable pub normalize_origin : String → String
  unfolding origin_of trim_space to_lower
  normalize_origin raw =
      let trimmed = trim_space (to_lower raw) in
      if str_eq trimmed "" then "" else origin_of (urls trimmed)

  with_host : Option Url → Option Url
  with_host none = none
  with_host (some u) = if not (str_eq u.host "") then some u else none

  parse_url_like : String → Option Url
  unfolding with_host trim_space
  parse_url_like raw =
      let text = trim_space raw in if str_eq text "" then none else with_host (urls text)

  normalize_host_from_url : Url → String
  unfolding to_lower trim_space equal_fold
  normalize_host_from_url u =
      let host = to_lower (trim_space u.hostname) in
      let port = trim_space u.port in
      if str_eq host ""
      then ""
      else if str_eq port ""
          || (equal_fold u.scheme "http" && str_eq port "80")
          || (equal_fold u.scheme "https" && str_eq port "443")
      then host
      else host ++ ":" ++ port

  host_or_empty : Option Url → String
  unfolding normalize_host_from_url
  host_or_empty none = ""
  host_or_empty (some u) = normalize_host_from_url u

  -- A text that is no address is read as a host, less one dot at each end.
  bare_host : String → String
  unfolding trim_space to_lower trim_prefix trim_suffix parse_url_like host_or_empty
  bare_host raw =
      let text = trim_suffix (trim_prefix (trim_space (to_lower raw)) ".") "." in
      if str_eq text "" then "" else host_or_empty (parse_url_like ("https://" ++ text))

  unfoldable pub normalize_host_like : String → String
  unfolding parse_url_like normalize_host_from_url bare_host
  normalize_host_like raw = elim (parse_url_like raw) [
    | some u ↦ normalize_host_from_url u
    | none ↦ bare_host raw
  ]

  is_localhost_host : String → Bool
  unfolding parse_url_like equal_fold trim_space
  is_localhost_host raw = elim (parse_url_like ("https://" ++ trim_space raw)) [
    | none ↦ false
    | some u ↦ equal_fold (trim_space u.hostname) "localhost"
  ]

  unfoldable pub matches_site_domain : String → String → Bool
  unfolding normalize_host_like is_localhost_host
  matches_site_domain site_domain raw =
      let domain = normalize_host_like site_domain in
      let host = normalize_host_like raw in
      if str_eq domain "" || str_eq host ""
      then false
      else if str_eq domain host
      then true
      else is_localhost_host domain && is_localhost_host host

  unfoldable pub matches_any_site_domain : List String → String → Bool
  unfolding matches_site_domain
  matches_any_site_domain [] raw = false
  matches_any_site_domain (item ∷ items) raw =
      matches_site_domain item raw || matches_any_site_domain items raw

  collect_hosts : List String → List String → List String
  unfolding normalize_host_like
  collect_hosts [] out = out
  collect_hosts (item ∷ items) out =
      let host = normalize_host_like item in
      collect_hosts items
        (if str_eq host "" || has_text host out then out else append out (host ∷ []))

  -- `site.Domains`, or the single domain of an older site.
  raw_domains : SiteView → List String
  unfolding trim_space
  raw_domains site = elim site.domains [
    | d ∷ ds ↦ d ∷ ds
    | [] ↦ if not (str_eq (trim_space site.domain) "") then site.domain ∷ [] else []
  ]

  unfoldable pub allowed_site_domains : Option SiteView → List String
  unfolding collect_hosts raw_domains
  allowed_site_domains none = []
  allowed_site_domains (some site) = collect_hosts (raw_domains site) []
