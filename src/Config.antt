-- ===== src/Config.antt =====
-- config.go, Provision and Validate, with the checks of the configuration of refresh.go.
pub mod Provision
pub mod Ready
pub mod Served
pub mod FirstReader
use caddy_protector.Base.{
  ℕ, ◌+◌, Bool, true, false, not, ◌&&◌, ◌||◌, Option, none, some, List, [], ◌∷◌, ◌++◌, ltb,
  if◌then◌else◌, is_nil, is_some, length,
}
use caddy_protector.Base.Int.{ℤ, pos, leb_ℤ, ltb_ℤ}
use caddy_protector.Base.Result.{Result, ok, err, or_err, require, ◌>>=◌}
use caddy_protector.Text.{Bytes, codes, same, has_prefix}
use caddy_protector.Text.Unicode.{Unicode, equal_fold, trim_space}
use caddy_protector.Netip.{Addr}
use caddy_protector.Netip.Classes.{is_loopback}
use caddy_protector.Protector.{Protector}
use caddy_protector.IpList.{AddressParser, ListError, parse_allowlist_entry}
use caddy_protector.Filters.{Escapes, RuleError, compile_request_rules, with_rules}
use caddy_protector.Country.{CountryError, normalize_country_codes, country_code_set}
use caddy_protector.Token.{Crypto, derive_mac_key, parse_same_site_mode}

-- A URL as net/url parses it, with its Hostname, and with its user, its path and its fragment as they
-- are escaped.
pub record Url : Type 0 where
  pub scheme : Bytes
  pub opaque_part : Bytes
  pub user : Option Bytes
  pub host : Bytes
  pub hostname : Bytes
  pub omit_host : Bool
  pub escaped_path : Bytes
  pub force_query : Bool
  pub raw_query : Bytes
  pub escaped_fragment : Bytes

-- url.Parse and net.ParseIP
pub record UrlParser : Type 0 where
  pub parse_url : Bytes → Option Url
  pub parse_ip : Bytes → Option Addr

pub data ConfigError : Type 0 where
  country_error : CountryError → ConfigError
  list_error : ListError → ConfigError
  rule_error : RuleError → ConfigError
  bad_url insecure_url negative_refresh : Bytes → ConfigError
  country_url_missing allow_for_not_positive : ConfigError
  empty_field bad_path : Bytes → ConfigError
  weak_bypass_key bad_same_site : ConfigError
  template_error country_db_error : ConfigError

abbrev pub http_scheme : Bytes
http_scheme = codes "http"

abbrev pub https_scheme : Bytes
https_scheme = codes "https"

abbrev pub country_checked {ℓ} : {A : Type ℓ} → Result CountryError A → Result ConfigError A
country_checked (ok a) = ok a
country_checked (err e) = err (country_error e)

abbrev pub list_checked {ℓ} : {A : Type ℓ} → Result ListError A → Result ConfigError A
list_checked (ok a) = ok a
list_checked (err e) = err (list_error e)

abbrev pub rules_checked {ℓ} : {A : Type ℓ} → Result RuleError A → Result ConfigError A
rules_checked (ok a) = ok a
rules_checked (err e) = err (rule_error e)

abbrev pub loopback_ip : Option Addr → Bool
loopback_ip none = false
loopback_ip (some ip) = is_loopback ip

module _ ⦃urls : UrlParser⦄ ⦃u : Unicode⦄ where
  unfoldable pub is_loopback_host : Bytes → Bool
  is_loopback_host raw =
      let host = trim_space raw in
      if equal_fold host (codes "localhost") then true else loopback_ip (urls.parse_ip host)

  -- HTTPS, or HTTP to this machine.
  abbrev pub is_secure : Url → Bool
  is_secure url =
      same url.scheme https_scheme || (same url.scheme http_scheme && is_loopback_host url.hostname)

  unfoldable pub validate_remote_url : Bytes → Bytes → Result ConfigError (Unit {0})
  validate_remote_url field_name raw_url = do
    url ← or_err (urls.parse_url (trim_space raw_url)) (bad_url field_name)
    absolute ← require (not (is_nil url.scheme || is_nil url.host)) (bad_url field_name)
    require (is_secure url) (insecure_url field_name)

  -- `if rawURL != "" { ... }`
  abbrev pub check_optional_url : Bytes → Bytes → Result ConfigError (Unit {0})
  check_optional_url field_name [] = ok tt
  check_optional_url field_name (c ∷ url) = validate_remote_url field_name (c ∷ url)

  module _ ⦃net : AddressParser⦄ where
    unfoldable pub check_inline : Bytes → ℕ → List Bytes → Result ConfigError (Unit {0})
    check_inline source line_no [] = ok tt
    check_inline source line_no (entry ∷ inline) = do
      parsed ← list_checked (parse_allowlist_entry source (line_no + 1) entry)
      check_inline source (line_no + 1) inline

    unfoldable pub validate_ip_list_config :
        Bytes → List Bytes → Bytes → ℤ → Result ConfigError (Unit {0})
    validate_ip_list_config kind inline raw_url refresh = do
      url ← check_optional_url (kind ++ codes "_url") raw_url
      interval ← require (leb_ℤ (pos 0) refresh) (negative_refresh kind)
      check_inline (kind ++ codes ":inline") 0 inline

  unfoldable pub validate_country_config :
      List Bytes → List Bytes → Bytes → ℤ → Result ConfigError (Unit {0})
  validate_country_config whitelist blacklist raw_url refresh = do
    url ← check_optional_url (codes "country_url") raw_url
    interval ← require (leb_ℤ (pos 0) refresh) (negative_refresh (codes "country_url"))
    require ((is_nil whitelist && is_nil blacklist) || not (is_nil raw_url)) country_url_missing

  -- Validate: the country rules, with the fields that are derived from them.
  unfoldable pub validate_countries : Protector → Result ConfigError Protector
  validate_countries bb = do
    whitelist ←
        country_checked (normalize_country_codes (codes "whitelist_country") bb.whitelist_countries)
    blacklist ←
        country_checked (normalize_country_codes (codes "blacklist_country") bb.blacklist_countries)
    ok (record bb {
      settings = record bb.settings {
        whitelist_countries = whitelist;
        blacklist_countries = blacklist;
      };
      whitelist_country_set = country_code_set whitelist;
      blacklist_country_set = country_code_set blacklist;
      has_country_rules = not (is_nil whitelist) || not (is_nil blacklist);
      has_country_whitelist = not (is_nil whitelist);
    })

  -- len(key) >= 32 and no white space around it, if there is a key
  abbrev pub good_bypass_key : Bytes → Bool
  good_bypass_key key = is_nil key || (not (ltb (length key) 32) && same (trim_space key) key)

  unfoldable pub validate_secrets : Protector → Result ConfigError (Unit {0})
  validate_secrets bb = do
    positive ← require (ltb_ℤ (pos 0) bb.allow_for) allow_for_not_positive
    site_key ←
        require (not (is_nil (trim_space bb.cap_site_key))) (empty_field (codes "cap_site_key"))
    secret_key ←
        require (not (is_nil (trim_space bb.cap_secret_key))) (empty_field (codes "cap_secret_key"))
    bypass ← require (good_bypass_key bb.bypass_api_key) weak_bypass_key
    validate_remote_url (codes "cap_api_url") bb.cap_api_url

  unfoldable pub validate_cookie : Protector → Result ConfigError (Unit {0})
  validate_cookie bb = do
    verify_path ← require (has_prefix bb.verify_path (codes "/")) (bad_path (codes "verify_path"))
    name ← require (not (is_nil bb.cookie_name)) (empty_field (codes "cookie_name"))
    cookie_path ← require (has_prefix bb.cookie_path (codes "/")) (bad_path (codes "cookie_path"))
    require (is_some (parse_same_site_mode bb.cookie_same_site)) bad_same_site

  module _ ⦃crypto : Crypto⦄ where
    abbrev pub return_state_context : Bytes
    return_state_context = codes "caddy_protector:return_state:v1"

    abbrev pub cookie_mac_context : Bytes
    cookie_mac_context = codes "caddy_protector:cookie_mac:v1"

    abbrev pub with_keys : Protector → Protector
    with_keys bb = record bb {
      return_state_mac_key = derive_mac_key return_state_context bb.cap_secret_key;
      cookie_mac_key = derive_mac_key cookie_mac_context bb.cap_secret_key;
    }

    module _ ⦃escapes : Escapes⦄ ⦃net : AddressParser⦄ where
      -- A module whose configuration is refused is dropped.
      unfoldable pub validate : Protector → Result ConfigError Protector
      validate given = do
        bb ← validate_countries given
        whitelist ←
            validate_ip_list_config (codes "whitelist") bb.whitelist_ips bb.whitelist_url
              bb.whitelist_refresh
        blacklist ←
            validate_ip_list_config (codes "blacklist") bb.blacklist_ips bb.blacklist_url
              bb.blacklist_refresh
        countries ←
            validate_country_config bb.whitelist_countries bb.blacklist_countries bb.country_url
              bb.country_refresh
        secrets ← validate_secrets bb
        cookie ← validate_cookie bb
        rules ← rules_checked (compile_request_rules bb.settings)
        ok (with_rules (with_keys bb) rules)
