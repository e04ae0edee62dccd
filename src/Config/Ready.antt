-- ===== src/Config/Ready.antt =====
-- What holds of a module that Validate and Provision accept.
use caddy_protector.Base.{
  ◌≡◌, ◌⊎◌, ◌≤◌, inl, inr, [], ◌∷◌, Bool-cases, refl, subst, ap, true, false, not, ◌||◌, Option,
  none, some, is_nil, is_some, length, arith,
}
use caddy_protector.Base.Int.{pos, ltb_ℤ}
use caddy_protector.Base.Result.{
  Result, ok, err, or_err, require->>=, require-eq-ok, or_err-eq-ok, ok-injective, >>=-eq-ok,
}
use caddy_protector.Text.{Bytes, codes, same, same_iff, has_prefix}
use caddy_protector.Text.Unicode.{Unicode, trim_space}
use caddy_protector.Http.{SameSite}
use caddy_protector.Protector.{Protector}
use caddy_protector.IpList.{AddressParser, ListError}
use caddy_protector.Filters.{Escapes, RuleError, compile_request_rules}
use caddy_protector.Country.{CountryError, normalize_country_codes, country_code_set}
use caddy_protector.Token.{Crypto, derive_mac_key, parse_same_site_mode}
use caddy_protector.Config.{
  Url, UrlParser, country_checked, list_checked, rules_checked, is_secure, is_loopback_host,
  validate_remote_url, validate_ip_list_config, validate_country_config, validate_countries,
  good_bypass_key, validate_secrets, validate_cookie, validate, bad_url, insecure_url,
  bad_same_site,
}

country_checked-eq-ok {ℓ} :
    {A : Type ℓ} (m : Result CountryError A) {a : A} → country_checked m ≡ ok a → m ≡ ok a
country_checked-eq-ok (ok b) h = ap ok (ok-injective h)
country_checked-eq-ok (err e) h = cc

rules_checked-eq-ok {ℓ} :
    {A : Type ℓ} (m : Result RuleError A) {a : A} → rules_checked m ≡ ok a → m ≡ ok a
rules_checked-eq-ok (ok b) h = ap ok (ok-injective h)
rules_checked-eq-ok (err e) h = cc

pub list_checked-eq-ok {ℓ} :
    {A : Type ℓ} (m : Result ListError A) {a : A} → list_checked m ≡ ok a → m ≡ ok a
list_checked-eq-ok (ok b) h = ap ok (ok-injective h)
list_checked-eq-ok (err e) h = cc

module _ ⦃urls : UrlParser⦄ ⦃u : Unicode⦄ where
  -- No key, or a long one without white space around it.
  abbrev pub IsStrong : Bytes → Type 0
  IsStrong key = (key ≡ []) ⊎ ((32 ≤ length key) × (trim_space key ≡ key))

  good_bypass_key-IsStrong : (key : Bytes) → good_bypass_key key ≡ true → IsStrong key
  good_bypass_key-IsStrong [] h = inl refl
  good_bypass_key-IsStrong (c ∷ key) h =
      inr (ground arith, (same_iff (trim_space (c ∷ key)) (c ∷ key)).0 (ground arith))

  -- HTTPS, or HTTP to a name or an address of this machine.
  abbrev pub IsSafe : Url → Type 0
  IsSafe url =
      (url.scheme ≡ codes "https")
      ⊎ ((url.scheme ≡ codes "http") × (is_loopback_host url.hostname ≡ true))

  is_secure-IsSafe : (url : Url) → is_secure url ≡ true → IsSafe url
  is_secure-IsSafe url h = elim (Bool-cases (same url.scheme (codes "https"))) [
    | inl secure ↦ inl ((same_iff url.scheme (codes "https")).0 secure)
    | inr plain ↦ inr ((same_iff url.scheme (codes "http")).0 (ground arith), ground arith)
  ]

  remote-eq-ok :
      (field_name raw_url : Bytes) {t : Unit {0}}
      → validate_remote_url field_name raw_url ≡ ok t
      → (url : Url) × (urls.parse_url (trim_space raw_url) ≡ some url) × (is_secure url ≡ true)
  unfolding validate_remote_url
  remote-eq-ok field_name raw_url h =
      let (url, parsed, h1) =
        >>=-eq-ok (or_err (urls.parse_url (trim_space raw_url)) (bad_url field_name)) _ h in
      let (absolute, h2) =
        require->>= (not (is_nil url.scheme || is_nil url.host)) (bad_url field_name) _ h1 in
      (url, or_err-eq-ok _ _ parsed, require-eq-ok (is_secure url) (insecure_url field_name) h2)

  -- The derived fields of the country rules.
  pub record HasCountries (bb : Protector) : Type 0 where
    pub rules :
        bb.has_country_rules
        ≡ (not (is_nil bb.whitelist_countries) || not (is_nil bb.blacklist_countries))
    pub whitelist : bb.has_country_whitelist ≡ not (is_nil bb.whitelist_countries)
    pub whitelist_set : bb.whitelist_country_set ≡ country_code_set bb.whitelist_countries
    pub blacklist_set : bb.blacklist_country_set ≡ country_code_set bb.blacklist_countries

  validate_countries-HasCountries :
      (given : Protector) {bb : Protector} → validate_countries given ≡ ok bb → HasCountries bb
  unfolding validate_countries
  validate_countries-HasCountries given h =
      let (whitelist, e1, h1) =
        >>=-eq-ok
          (country_checked
            (normalize_country_codes (codes "whitelist_country") given.whitelist_countries))
          _ h in
      let (blacklist, e2, h2) =
        >>=-eq-ok
          (country_checked
            (normalize_country_codes (codes "blacklist_country") given.blacklist_countries))
          _ h1 in
      subst HasCountries (ok-injective h2)
        (record { rules = refl; whitelist = refl; whitelist_set = refl; blacklist_set = refl })

  secrets-eq-ok :
      (bb : Protector) {t : Unit {0}}
      → validate_secrets bb ≡ ok t
      → (ltb_ℤ (pos 0) bb.allow_for ≡ true)
        × (is_nil (trim_space bb.cap_site_key) ≡ false)
        × (is_nil (trim_space bb.cap_secret_key) ≡ false)
        × IsStrong bb.bypass_api_key
        × ((url : Url) × (urls.parse_url (trim_space bb.cap_api_url) ≡ some url) × IsSafe url)
  unfolding validate_secrets
  secrets-eq-ok bb h =
      let (positive, h1) = require->>= (ltb_ℤ (pos 0) bb.allow_for) _ _ h in
      let (site_key, h2) = require->>= (not (is_nil (trim_space bb.cap_site_key))) _ _ h1 in
      let (secret_key, h3) = require->>= (not (is_nil (trim_space bb.cap_secret_key))) _ _ h2 in
      let (bypass, h4) = require->>= (good_bypass_key bb.bypass_api_key) _ _ h3 in
      let (url, parsed, secure) = remote-eq-ok (codes "cap_api_url") bb.cap_api_url h4 in
      (
        positive,
        ground arith,
        ground arith,
        good_bypass_key-IsStrong bb.bypass_api_key bypass,
        (url, parsed, is_secure-IsSafe url secure),
      )

  is_some-cases : {A : Type 0} (o : Option A) → is_some o ≡ true → (a : A) × (o ≡ some a)
  is_some-cases none h = cc
  is_some-cases (some a) h = (a, refl)

  cookie-eq-ok :
      (bb : Protector) {t : Unit {0}}
      → validate_cookie bb ≡ ok t
      → (has_prefix bb.verify_path (codes "/") ≡ true)
        × (is_nil bb.cookie_name ≡ false)
        × (has_prefix bb.cookie_path (codes "/") ≡ true)
        × ((mode : SameSite) × (parse_same_site_mode bb.cookie_same_site ≡ some mode))
  unfolding validate_cookie
  cookie-eq-ok bb h =
      let (verify_path, h1) = require->>= (has_prefix bb.verify_path (codes "/")) _ _ h in
      let (name, h2) = require->>= (not (is_nil bb.cookie_name)) _ _ h1 in
      let (cookie_path, h3) = require->>= (has_prefix bb.cookie_path (codes "/")) _ _ h2 in
      (
        verify_path,
        ground arith,
        cookie_path,
        is_some-cases (parse_same_site_mode bb.cookie_same_site)
            (require-eq-ok (is_some (parse_same_site_mode bb.cookie_same_site)) bad_same_site h3),
      )

module _ ⦃urls : UrlParser⦄ ⦃u : Unicode⦄ ⦃crypto : Crypto⦄ ⦃escapes : Escapes⦄
    ⦃net : AddressParser⦄ where
  -- What the handlers rely on.
  pub record IsReady (bb : Protector) : Type 0 where
    pub state_key : length bb.return_state_mac_key ≡ 32
    pub cookie_key : length bb.cookie_mac_key ≡ 32
    pub lasting : ltb_ℤ (pos 0) bb.allow_for ≡ true
    pub site_key : is_nil (trim_space bb.cap_site_key) ≡ false
    pub secret_key : is_nil (trim_space bb.cap_secret_key) ≡ false
    pub bypass : IsStrong bb.bypass_api_key
    pub cap_url : Url
    pub cap_url_parsed : urls.parse_url (trim_space bb.cap_api_url) ≡ some cap_url
    pub cap_url_secure : IsSafe cap_url
    pub verify_path_absolute : has_prefix bb.verify_path (codes "/") ≡ true
    pub cookie_named : is_nil bb.cookie_name ≡ false
    pub cookie_path_absolute : has_prefix bb.cookie_path (codes "/") ≡ true
    pub mode : SameSite
    pub mode_parsed : parse_same_site_mode bb.cookie_same_site ≡ some mode
    pub countries : HasCountries bb

  -- A module that Validate accepts has MAC keys of 32 bytes, a positive time for its cookie, a Cap
  -- site key and a secret that are not blank, no bypass key or one of at least 32 bytes without
  -- white space around it, a Cap URL that is HTTPS, or HTTP to this machine, absolute paths, a
  -- cookie name that is not empty, a SameSite mode that parses, and country fields that fit its
  -- country codes.
  pub validate-IsReady : (given bb : Protector) → validate given ≡ ok bb → IsReady bb
  unfolding validate derive_mac_key
  validate-IsReady given bb h =
      let (named, e1, h1) = >>=-eq-ok (validate_countries given) _ h in
      let (_, e2, h2) =
        >>=-eq-ok
          (validate_ip_list_config (codes "whitelist") named.whitelist_ips named.whitelist_url
            named.whitelist_refresh)
          _ h1 in
      let (_, e3, h3) =
        >>=-eq-ok
          (validate_ip_list_config (codes "blacklist") named.blacklist_ips named.blacklist_url
            named.blacklist_refresh)
          _ h2 in
      let (_, e4, h4) =
        >>=-eq-ok
          (validate_country_config named.whitelist_countries named.blacklist_countries
            named.country_url named.country_refresh)
          _ h3 in
      let (_, e5, h5) = >>=-eq-ok (validate_secrets named) _ h4 in
      let (_, e6, h6) = >>=-eq-ok (validate_cookie named) _ h5 in
      let (rules, e7, h7) = >>=-eq-ok (rules_checked (compile_request_rules named.settings)) _ h6 in
      let (lasting, site_key, secret_key, bypass, found_url) = secrets-eq-ok named e5 in
      let (verify_path, name, cookie_path, found_mode) = cookie-eq-ok named e6 in
      let countries = validate_countries-HasCountries given e1 in
      subst IsReady (ok-injective h7) (record {
        state_key = crypto.derive_key-length _ _;
        cookie_key = crypto.derive_key-length _ _;
        lasting = lasting;
        site_key = site_key;
        secret_key = secret_key;
        bypass = bypass;
        cap_url = found_url.0;
        cap_url_parsed = found_url.1;
        cap_url_secure = found_url.2;
        verify_path_absolute = verify_path;
        cookie_named = name;
        cookie_path_absolute = cookie_path;
        mode = found_mode.0;
        mode_parsed = found_mode.1;
        countries = record {
          rules = countries.rules;
          whitelist = countries.whitelist;
          whitelist_set = countries.whitelist_set;
          blacklist_set = countries.blacklist_set;
        };
      })
