-- ===== src/Config/Served.antt =====
-- What Provision leaves to the handlers.
use caddy_protector.Base.{
  ◌≡◌, ◌⊎◌, inl, inr, refl, subst, sym, ap, Bool, true, false, not, ◌||◌, ℕ, Option, Option-cases,
  none, some, List, [], is_some, arith,
}
use caddy_protector.Base.Result.{ok, require->>=, ok-injective, >>=-eq-ok}
use caddy_protector.Text.{Bytes, codes}
use caddy_protector.Text.Unicode.{Unicode}
use caddy_protector.Netip.{Addr}
use caddy_protector.Protector.{Protector, IpAllowlist, CountryDb}
use caddy_protector.RateLimit.{made, Limits, reset_verify_rate_limits}
use caddy_protector.RateLimit.Table.{IsValid}
use caddy_protector.IpList.{AddressParser, join_lines, current_ip_list, ip_list_contains}
use caddy_protector.IpList.Names.{text_lists, source_lists, load_ip_list-lists}
use caddy_protector.Filters.{Escapes}
use caddy_protector.Token.{Crypto}
use caddy_protector.Config.{UrlParser, template_error, list_checked, validate}
use caddy_protector.Config.Provision.{
  opened_db, opened_body, Sources, Loops, with_defaults, load_challenge_template, load_allowlist,
  load_blacklist, load_country, load_country_db, provision,
}
use caddy_protector.Config.Ready.{IsReady, validate-IsReady, list_checked-eq-ok}

no_limits : IsValid []
no_limits = record { distinct = tt; small = tt; bounded = omega arith }

load_country-is_some :
    (wanted : Bool) (found before : Option CountryDb) {db : Option CountryDb}
    → load_country wanted found before ≡ ok db
    → (not wanted || is_some db) ≡ true
load_country-is_some false found before h = refl
load_country-is_some true none before h = cc
load_country-is_some true (some d) before h = ap is_some (sym (ok-injective h))

opened_body-cases :
    (handle : ℕ) (from : Sources) (url : Bytes) (found : Option Bytes)
    → (opened_body handle from url found ≡ none)
      ⊎ ((body : Bytes) × (iso_code : Addr → Option Bytes) × (opened_body handle from url found
            ≡ some (opened_db handle url body iso_code)))
opened_body-cases handle from url none = inl refl
opened_body-cases handle from url (some body) = elim (Option-cases (from.open_bytes body)) [
  | inl unreadable ↦ inl (rw unreadable)
  | inr (iso_code, read) ↦ inr (body, iso_code, rw read)
]

-- A database that is loaded has the reader that was opened for it.
pub load_country_db-cases :
    (handle : ℕ) (from : Sources) (url : Bytes)
    → (load_country_db handle from url ≡ none)
      ⊎ ((body : Bytes) × (iso_code : Addr → Option Bytes) × (load_country_db handle from url
            ≡ some (opened_db handle url body iso_code)))
unfolding load_country_db
load_country_db-cases handle from url =
    opened_body-cases handle from url (from.fetch_url (codes "country") url)

pub load_country-origin :
    (wanted : Bool) (found before : Option CountryDb) {db : Option CountryDb}
    → load_country wanted found before ≡ ok db
    → (db ≡ before) ⊎ ((loaded : CountryDb) × (found ≡ some loaded) × (db ≡ some loaded))
load_country-origin false found before h = inl (sym (ok-injective h))
load_country-origin true none before h = cc
load_country-origin true (some loaded) before h = inr (loaded, refl, sym (ok-injective h))

module _ ⦃urls : UrlParser⦄ ⦃u : Unicode⦄ ⦃crypto : Crypto⦄ ⦃escapes : Escapes⦄
    ⦃net : AddressParser⦄ where
  -- What is loaded does not touch the settings and the keys.
  abbrev with_loaded :
      Protector → Option Limits → IpAllowlist → IpAllowlist → Option CountryDb → Protector
  with_loaded bb limits allowlist blacklist db = record bb {
    verify_rate_limits = limits;
    allowlist = some allowlist;
    blacklist = some blacklist;
    country_db = db;
  }

  loaded-IsReady :
      (bb : Protector) (limits : Option Limits) (allowlist blacklist : IpAllowlist)
      (db : Option CountryDb)
      → IsReady bb
      → IsReady (with_loaded bb limits allowlist blacklist db)
  loaded-IsReady bb limits allowlist blacklist db h = record {
    state_key = h.state_key;
    cookie_key = h.cookie_key;
    lasting = h.lasting;
    site_key = h.site_key;
    secret_key = h.secret_key;
    bypass = h.bypass;
    cap_url = h.cap_url;
    cap_url_parsed = h.cap_url_parsed;
    cap_url_secure = h.cap_url_secure;
    verify_path_absolute = h.verify_path_absolute;
    cookie_named = h.cookie_named;
    cookie_path_absolute = h.cookie_path_absolute;
    mode = h.mode;
    mode_parsed = h.mode_parsed;
    countries = record {
      rules = h.countries.rules;
      whitelist = h.countries.whitelist;
      whitelist_set = h.countries.whitelist_set;
      blacklist_set = h.countries.blacklist_set;
    };
  }

  -- An address is listed by the texts of a list's sources.
  abbrev pub listed : Sources → Bytes → List Bytes → Bytes → Bytes → Addr → Bool
  listed from kind inline file_path raw_url a =
      text_lists (join_lines inline) a
      || source_lists file_path (from.read_file file_path) a
      || source_lists raw_url (from.fetch_url kind raw_url) a

  -- A module that serves requests.
  pub record IsServed (from : Sources) (bb : Protector) : Type 0 where
    pub ready : IsReady bb
    pub limits : IsValid (made bb.verify_rate_limits)
    pub allows :
        (a : Addr)
        → ip_list_contains (current_ip_list bb.allowlist) a
          ≡ listed from (codes "whitelist") bb.whitelist_ips bb.whitelist_file bb.whitelist_url a
    pub blocks :
        (a : Addr)
        → ip_list_contains (current_ip_list bb.blacklist) a
          ≡ listed from (codes "blacklist") bb.blacklist_ips bb.blacklist_file bb.blacklist_url a
    pub database : (not bb.has_country_rules || is_some bb.country_db) ≡ true

  -- A module that Provision accepts is ready, its rate limits are well formed, its two IP lists
  -- contain exactly the addresses that their sources name, and it has a database if it has country
  -- rules.
  pub provision-IsServed :
      (from : Sources) (given bb : Protector) (loops : Loops)
      → provision from given ≡ ok (bb, loops)
      → IsServed from bb
  unfolding provision current_ip_list reset_verify_rate_limits
  provision-IsServed from given bb loops h =
      let (checked, valid, h1) = >>=-eq-ok (validate (with_defaults given)) _ h in
      let (template, h2) = require->>= (load_challenge_template from checked) template_error _ h1 in
      let (allowlist, allowed, h3) = >>=-eq-ok (list_checked (load_allowlist from checked)) _ h2 in
      let (blacklist, blocked, h4) = >>=-eq-ok (list_checked (load_blacklist from checked)) _ h3 in
      let (db, loaded, h5) =
        >>=-eq-ok
          (load_country checked.has_country_rules (load_country_db 0 from checked.country_url)
            checked.country_db)
          _ h4 in
      subst (IsServed from) (ap (λ p. p.0) (ok-injective h5)) (record {
        ready =
            loaded-IsReady checked (reset_verify_rate_limits checked.verify_rate_limits) allowlist
              blacklist db (validate-IsReady (with_defaults given) checked valid);
        limits = no_limits;
        allows = λ a.
            load_ip_list-lists from.read_file from.fetch_url (codes "whitelist")
              checked.whitelist_ips checked.whitelist_file checked.whitelist_url allowlist a
              (list_checked-eq-ok _ allowed);
        blocks = λ a.
            load_ip_list-lists from.read_file from.fetch_url (codes "blacklist")
              checked.blacklist_ips checked.blacklist_file checked.blacklist_url blacklist a
              (list_checked-eq-ok _ blocked);
        database =
            load_country-is_some checked.has_country_rules
              (load_country_db 0 from checked.country_url) checked.country_db loaded;
      })
