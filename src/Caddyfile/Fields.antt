-- ===== src/Caddyfile/Fields.antt =====
-- Which field each option of the Caddyfile block sets.
use caddy_protector.Base.{Bool, Option, List, if◌then◌else◌}
use caddy_protector.Base.Int.{ℤ}
use caddy_protector.Text.{Bytes, codes, same}
use caddy_protector.Protector.{HeaderSubstringRule, Settings}

pub data FieldValue : Type 0 where
  text_value : Bytes → FieldValue
  texts_value countries_value : List Bytes → FieldValue
  time_value : ℤ → FieldValue
  flag_value : Bool → FieldValue
  choice_value : Option Bool → FieldValue
  rules_value : List HeaderSubstringRule → FieldValue
  no_field : FieldValue

-- The field that is named by an option, as the README lists them.
unfoldable pub field_of : Bytes → Settings → FieldValue
field_of name s =
    if same name (codes "cap_api_url")
    then text_value s.cap_api_url
    else if same name (codes "cap_site_key")
    then text_value s.cap_site_key
    else if same name (codes "cap_secret_key")
    then text_value s.cap_secret_key
    else if same name (codes "bypass_api_key")
    then text_value s.bypass_api_key
    else if same name (codes "cookie_name")
    then text_value s.cookie_name
    else if same name (codes "cookie_path")
    then text_value s.cookie_path
    else if same name (codes "cookie_domain")
    then text_value s.cookie_domain
    else if same name (codes "cookie_same_site")
    then text_value s.cookie_same_site
    else if same name (codes "verify_path")
    then text_value s.verify_path
    else if same name (codes "deny_path_prefix")
    then texts_value s.deny_path_prefixes
    else if same name (codes "deny_query_substring")
    then texts_value s.deny_query_substrings
    else if same name (codes "whitelist_ip")
    then texts_value s.whitelist_ips
    else if same name (codes "whitelist_file")
    then text_value s.whitelist_file
    else if same name (codes "whitelist_url")
    then text_value s.whitelist_url
    else if same name (codes "blacklist_ip")
    then texts_value s.blacklist_ips
    else if same name (codes "blacklist_file")
    then text_value s.blacklist_file
    else if same name (codes "blacklist_url")
    then text_value s.blacklist_url
    else if same name (codes "country_url")
    then text_value s.country_url
    else if same name (codes "template")
    then text_value s.template_path
    else if same name (codes "allow_for")
    then time_value s.allow_for
    else if same name (codes "whitelist_refresh")
    then time_value s.whitelist_refresh
    else if same name (codes "blacklist_refresh")
    then time_value s.blacklist_refresh
    else if same name (codes "country_url_refresh")
    then time_value s.country_refresh
    else if same name (codes "cookie_secure")
    then choice_value s.cookie_secure
    else if same name (codes "cookie_http_only")
    then choice_value s.cookie_http_only
    else if same name (codes "disable_csp_header")
    then flag_value s.disable_csp_header
    else if same name (codes "whitelist_country")
    then countries_value s.whitelist_countries
    else if same name (codes "blacklist_country")
    then countries_value s.blacklist_countries
    else if same name (codes "deny_header_substring")
    then rules_value s.deny_header_substrings
    else no_field
