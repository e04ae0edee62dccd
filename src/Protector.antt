-- ===== src/Protector.antt =====
-- caddyprotector.go: the types of the module. `Settings` are the fields that the configuration
-- sets, `Protector` adds what validation derives from them and what changes while requests are served.
use caddy_protector.Base.{ℕ, Bool, Option, List}
use caddy_protector.Base.Int.{ℤ}
use caddy_protector.Text.{Bytes}
use caddy_protector.Netip.{Addr, Prefix}
use caddy_protector.RateLimit.{Limits}

pub record HeaderSubstringRule : Type 0 where
  pub name : Bytes
  pub needle : Bytes

pub record CompiledStringRule : Type 0 where
  pub value : Bytes
  pub source : Bytes

pub record CompiledHeaderRule : Type 0 where
  pub name : Bytes
  pub needle : Bytes
  pub source : Bytes

pub record Settings : Type 0 where
  pub template_path : Bytes
  pub disable_csp_header : Bool
  pub allow_for : ℤ
  pub verify_path : Bytes
  pub cap_api_url : Bytes
  pub cap_site_key : Bytes
  pub cap_secret_key : Bytes
  pub bypass_api_key : Bytes
  pub cookie_name : Bytes
  pub cookie_path : Bytes
  pub cookie_domain : Bytes
  pub cookie_secure : Option Bool
  pub cookie_http_only : Option Bool
  pub cookie_same_site : Bytes
  pub deny_path_prefixes : List Bytes
  pub deny_query_substrings : List Bytes
  pub deny_header_substrings : List HeaderSubstringRule
  pub whitelist_ips : List Bytes
  pub whitelist_file : Bytes
  pub whitelist_url : Bytes
  pub whitelist_refresh : ℤ
  pub whitelist_countries : List Bytes
  pub blacklist_ips : List Bytes
  pub blacklist_file : Bytes
  pub blacklist_url : Bytes
  pub blacklist_refresh : ℤ
  pub blacklist_countries : List Bytes
  pub country_url : Bytes
  pub country_refresh : ℤ

-- A Go set of keys is a map to the empty struct.
abbrev pub KeySet : Type 0 → Type 0
KeySet K = List (K × Unit {0})

-- ipAllowlist
pub record IpAllowlist : Type 0 where
  pub exact_ips : KeySet Addr
  pub prefixes : List Prefix
  pub sources : List Bytes
  pub entries : ℕ

-- A database reader: its handle, and the country code that it has for an address, if it decodes.
pub record Reader : Type 0 where
  pub handle : ℕ
  pub iso_code : Addr → Option Bytes

pub record CountryDb : Type 0 where
  pub reader : Option Reader
  pub source : Bytes
  pub size : ℕ

pub record Protector : Type 0 where
  pub settings : Settings
  pub open settings use *
  pub allowlist : Option IpAllowlist
  pub blacklist : Option IpAllowlist
  pub country_db : Option CountryDb
  pub whitelist_country_set : KeySet Bytes
  pub blacklist_country_set : KeySet Bytes
  pub has_country_rules : Bool
  pub has_country_whitelist : Bool
  pub return_state_mac_key : Bytes
  pub cookie_mac_key : Bytes
  pub compiled_path_rules : List CompiledStringRule
  pub compiled_query_rules : List CompiledStringRule
  pub compiled_header_rules : List CompiledHeaderRule
  pub verify_rate_limits : Option Limits
