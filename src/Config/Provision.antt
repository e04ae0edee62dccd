-- ===== src/Config/Provision.antt =====
-- config.go, Provision: the defaults, the validation, and what is loaded before requests are served.
use caddy_protector.Base.{
  ℕ, ◌++◌, length, ◌*◌, Bool, true, false, not, ◌&&◌, ◌||◌, Option, none, some, if◌then◌else◌,
  is_nil,
}
use caddy_protector.Base.Int.{ℤ, pos, ltb_ℤ, eqb_ℤ}
use caddy_protector.Base.Result.{Result, ok, err, require, ◌>>=◌}
use caddy_protector.Text.{Bytes, codes}
use caddy_protector.Text.Unicode.{Unicode}
use caddy_protector.Netip.{Addr}
use caddy_protector.Protector.{Protector, IpAllowlist, CountryDb}
use caddy_protector.RateLimit.{second, reset_verify_rate_limits}
use caddy_protector.IpList.{AddressParser, ListError, load_ip_list}
use caddy_protector.Filters.{Escapes}
use caddy_protector.Token.{Crypto}
use caddy_protector.Config.{
  UrlParser, ConfigError, template_error, country_db_error, list_checked, validate,
}

-- defaultAllowFor
abbrev pub default_allow_for : ℤ
default_allow_for = pos (1800 * 60 * second)

abbrev pub default_verify_path : Bytes
default_verify_path = codes "/__caddy_protector/verify"

abbrev pub default_cookie_name : Bytes
default_cookie_name = codes "caddy_protector"

abbrev pub or_default : Bytes → Bytes → Bytes
or_default s fallback = if is_nil s then fallback else s

-- A flag that is not set is set to true.
abbrev pub or_true : Option Bool → Option Bool
or_true none = some true
or_true (some b) = some b

abbrev pub with_defaults : Protector → Protector
with_defaults bb = record bb {
  settings = record bb.settings {
    allow_for = if eqb_ℤ bb.allow_for (pos 0) then default_allow_for else bb.allow_for;
    verify_path = or_default bb.verify_path default_verify_path;
    cookie_name = or_default bb.cookie_name default_cookie_name;
    cookie_path = or_default bb.cookie_path (codes "/");
    cookie_secure = or_true bb.cookie_secure;
    cookie_http_only = or_true bb.cookie_http_only;
    cookie_same_site = or_default bb.cookie_same_site (codes "Lax");
  };
}

-- Which refresh loops are started.
pub record Loops : Type 0 where
  pub allowlist_loop : Bool
  pub blacklist_loop : Bool
  pub country_loop : Bool

-- What maxminddb.OpenBytes makes of a text: the code of an address.
abbrev pub Opened : Type 0
Opened = Option (Addr → Option Bytes)

-- What Provision and a refresh read: files, URLs, whether the embedded template parses and the one
-- in a file, and what a text opens as. A URL of the kind "country" is that of the database.
pub record Sources : Type 0 where
  pub read_file : Bytes → Option Bytes
  pub fetch_url : Bytes → Bytes → Option Bytes
  pub default_parses : Bool
  pub file_parses : Bytes → Bool
  pub open_bytes : Bytes → Opened

abbrev pub loops_of : Protector → Loops
loops_of bb = record {
  allowlist_loop =
      ltb_ℤ (pos 0) bb.whitelist_refresh
      && (not (is_nil bb.whitelist_file) || not (is_nil bb.whitelist_url));
  blacklist_loop =
      ltb_ℤ (pos 0) bb.blacklist_refresh
      && (not (is_nil bb.blacklist_file) || not (is_nil bb.blacklist_url));
  country_loop =
      ltb_ℤ (pos 0) bb.country_refresh && not (is_nil bb.country_url) && bb.has_country_rules;
}

-- loadChallengeTemplate: the embedded template, or the one in the file, if it parses.
unfoldable pub load_challenge_template : Sources → Protector → Bool
load_challenge_template from bb =
    if is_nil bb.template_path then from.default_parses else from.file_parses bb.template_path

abbrev pub opened_db : ℕ → Bytes → Bytes → (Addr → Option Bytes) → CountryDb
opened_db handle url body iso_code = record {
  reader = some (record { handle = handle; iso_code = iso_code });
  source = codes "country:url:" ++ url;
  size = length body;
}

abbrev pub opened_as : ℕ → Bytes → Bytes → Opened → Option CountryDb
opened_as handle url body none = none
opened_as handle url body (some iso_code) = some (opened_db handle url body iso_code)

abbrev pub opened_body : ℕ → Sources → Bytes → Option Bytes → Option CountryDb
opened_body handle from url none = none
opened_body handle from url (some body) = opened_as handle url body (from.open_bytes body)

-- loadCountryDB, with a handle for the reader that it opens
unfoldable pub load_country_db : ℕ → Sources → Bytes → Option CountryDb
load_country_db handle from url = opened_body handle from url (from.fetch_url (codes "country") url)

-- The database is loaded only if there are country rules.
abbrev pub load_country :
    Bool → Option CountryDb → Option CountryDb → Result ConfigError (Option CountryDb)
load_country false found before = ok before
load_country true none before = err country_db_error
load_country true (some db) before = ok (some db)

module _ ⦃net : AddressParser⦄ where
  abbrev pub load_allowlist : Sources → Protector → Result ListError IpAllowlist
  load_allowlist from bb =
      load_ip_list from.read_file from.fetch_url (codes "whitelist") bb.whitelist_ips
        bb.whitelist_file bb.whitelist_url

  abbrev pub load_blacklist : Sources → Protector → Result ListError IpAllowlist
  load_blacklist from bb =
      load_ip_list from.read_file from.fetch_url (codes "blacklist") bb.blacklist_ips
        bb.blacklist_file bb.blacklist_url

module _ ⦃urls : UrlParser⦄ ⦃u : Unicode⦄ ⦃crypto : Crypto⦄ ⦃escapes : Escapes⦄
    ⦃net : AddressParser⦄ where
  unfoldable pub provision : Sources → Protector → Result ConfigError (Protector × Loops)
  provision from given = do
    bb ← validate (with_defaults given)
    template ← require (load_challenge_template from bb) template_error
    allowlist ← list_checked (load_allowlist from bb)
    blacklist ← list_checked (load_blacklist from bb)
    db ← load_country bb.has_country_rules (load_country_db 0 from bb.country_url) bb.country_db
    ok (
      record bb {
        verify_rate_limits = reset_verify_rate_limits bb.verify_rate_limits;
        allowlist = some allowlist;
        blacklist = some blacklist;
        country_db = db;
      },
      loops_of bb,
    )
