-- ===== src/Config/FirstReader.antt =====
-- What Provision does to the country database: Validate leaves it alone.
use caddy_protector.Base.{◌≡◌, ◌∙◌, ◌⊎◌, inl, inr, ap, sym, subst, Bool, Option, none, some}
use caddy_protector.Base.Result.{ok, >>=-eq-ok, require->>=, ok-injective}
use caddy_protector.Text.{Bytes, codes}
use caddy_protector.Text.Unicode.{Unicode}
use caddy_protector.Netip.{Addr}
use caddy_protector.Protector.{Protector, CountryDb}
use caddy_protector.IpList.{AddressParser}
use caddy_protector.Filters.{Escapes, compile_request_rules}
use caddy_protector.Country.{normalize_country_codes}
use caddy_protector.Token.{Crypto}
use caddy_protector.Config.{
  UrlParser, country_checked, list_checked, rules_checked, template_error, validate_ip_list_config,
  validate_country_config, validate_countries, validate_secrets, validate_cookie, validate,
}
use caddy_protector.Config.Provision.{
  Sources, Loops, opened_db, load_country_db, load_country, with_defaults, load_challenge_template,
  load_allowlist, load_blacklist, provision,
}
use caddy_protector.Config.Served.{load_country_db-cases, load_country-origin}

module _ ⦃urls : UrlParser⦄ ⦃u : Unicode⦄ where
  validate_countries-db :
      (given : Protector) {bb : Protector}
      → validate_countries given ≡ ok bb
      → bb.country_db ≡ given.country_db
  unfolding validate_countries
  validate_countries-db given h =
      let (whitelist, e1, h1) =
        >>=-eq-ok
          (country_checked
            (normalize_country_codes (codes "whitelist_country") given.whitelist_countries))
          _ h in
      let (blacklist, e2, h2) =
        >>=-eq-ok
          (country_checked
            (normalize_country_codes (codes "blacklist_country") given.blacklist_countries))
          _ h1 in
      ap (λ (bb : Protector). bb.country_db) (sym (ok-injective h2))

module _ ⦃urls : UrlParser⦄ ⦃u : Unicode⦄ ⦃crypto : Crypto⦄ ⦃escapes : Escapes⦄
    ⦃net : AddressParser⦄ where
  validate-db : (given bb : Protector) → validate given ≡ ok bb → bb.country_db ≡ given.country_db
  unfolding validate
  validate-db given bb h =
      let (named, e1, h1) = >>=-eq-ok (validate_countries given) _ h in
      let (_, e2, h2) =
        >>=-eq-ok
          (validate_ip_list_config (codes "whitelist") named.whitelist_ips named.whitelist_url
            named.whitelist_refresh)
          _ h1 in
      let (_, e3, h3) =
        >>=-eq-ok
          (validate_ip_list_config (codes "blacklist") named.blacklist_ips named.blacklist_url
            named.blacklist_refresh)
          _ h2 in
      let (_, e4, h4) =
        >>=-eq-ok
          (validate_country_config named.whitelist_countries named.blacklist_countries
            named.country_url named.country_refresh)
          _ h3 in
      let (_, e5, h5) = >>=-eq-ok (validate_secrets named) _ h4 in
      let (_, e6, h6) = >>=-eq-ok (validate_cookie named) _ h5 in
      let (rules, e7, h7) = >>=-eq-ok (rules_checked (compile_request_rules named.settings)) _ h6 in
      ap (λ (b : Protector). b.country_db) (sym (ok-injective h7)) ∙ validate_countries-db given e1

  -- No database, or one with the first reader that was opened.
  abbrev pub IsFirst : Option CountryDb → Type 0
  IsFirst db =
      (db ≡ none)
      ⊎ ((url : Bytes) × (body : Bytes) × (iso_code : Addr → Option Bytes) × (db
            ≡ some (opened_db 0 url body iso_code)))

  loaded-IsFirst :
      (wanted : Bool) (from : Sources) (url : Bytes) (before : Option CountryDb)
      {db : Option CountryDb}
      → before ≡ none
      → load_country wanted (load_country_db 0 from url) before ≡ ok db
      → IsFirst db
  loaded-IsFirst wanted from url before fresh h =
      elim (load_country-origin wanted (load_country_db 0 from url) before h) [
        | inl kept ↦ inl (kept ∙ fresh)
        | inr (loaded, found, used) ↦ elim (load_country_db-cases 0 from url) [
          | inl failed ↦ cc (failed, found)
          | inr (body, iso_code, opened) ↦ inr (url, body, iso_code, used ∙ sym found ∙ opened)
        ]
      ]

  pub provision-IsFirst :
      (from : Sources) (given bb : Protector) (loops : Loops)
      → given.country_db ≡ none
      → provision from given ≡ ok (bb, loops)
      → IsFirst bb.country_db
  unfolding provision
  provision-IsFirst from given bb loops fresh h =
      let (checked, valid, h1) = >>=-eq-ok (validate (with_defaults given)) _ h in
      let (template, h2) = require->>= (load_challenge_template from checked) template_error _ h1 in
      let (allowlist, allowed, h3) = >>=-eq-ok (list_checked (load_allowlist from checked)) _ h2 in
      let (blacklist, blocked, h4) = >>=-eq-ok (list_checked (load_blacklist from checked)) _ h3 in
      let (db, loaded, h5) =
        >>=-eq-ok
          (load_country checked.has_country_rules (load_country_db 0 from checked.country_url)
            checked.country_db)
          _ h4 in
      subst IsFirst (ap (λ p. p.0.country_db) (ok-injective h5)) (
        loaded-IsFirst checked.has_country_rules from checked.country_url checked.country_db
          (validate-db (with_defaults given) checked valid ∙ fresh) loaded)
