-- ===== src/Token/AllowCookie.antt =====
-- writeAllowCookie and hasValidAllowCookie.
use caddy_protector.Base.{
  ℕ, ◌+◌, ◌*◌, ◌<◌, ◌≤◌, ◌↔◌, Bool, Option, none, ◌≡◌, refl, sym, ap, subst, ◌∙◌, inl, inr, true,
  ◌&&◌, some, length, arith, Option-cases,
}
use caddy_protector.Base.Int.{pos, leb_ℤ, ltb_ℤ, eqb_ℤ, ◌+ℤ◌}
use caddy_protector.Base.Result.{Result, ok, err, or_err, ◌>>=◌, >>=-eq-ok, ok-injective}
use caddy_protector.Text.{Bytes}
use caddy_protector.Text.Unicode.{Unicode}
use caddy_protector.Http.{Request, Cookie, SameSite, cookie_of}
use caddy_protector.Protector.{Protector}
use caddy_protector.Token.{
  Crypto, Codec, AllowCookieClaims, TokenError, bad_same_site, token_version, unix, sign_value,
  verify_signed_value, parse_same_site_mode, write_allow_cookie, has_valid_allow_cookie,
  check_allow_cookie, allow_cookie, flag, whole_seconds,
}
use caddy_protector.RateLimit.{second}
use caddy_protector.Token.MaxAge.{whole_seconds_lem}
use caddy_protector.Token.Signed.{verify-sign, IsAuthentic, verify_signed_value-IsAuthentic}

-- What writeAllowCookie signs.
abbrev pub claims_at : Protector → ℕ → AllowCookieClaims
claims_at bb now = record {
  version = token_version;
  issued_at = unix (pos now);
  expires_at = unix (pos now +ℤ bb.allow_for);
}

-- A cookie as the configuration wants it, for `lasts` nanoseconds.
pub record IsConfigured (bb : Protector) (now lasts : ℕ) (mode : SameSite) (c : Cookie)
    : Type 0 where
  pub name : c.name ≡ bb.cookie_name
  pub path : c.path ≡ bb.cookie_path
  pub domain : c.domain ≡ bb.cookie_domain
  pub secure : (c.secure ≡ true) ↔ (bb.cookie_secure ≡ some true)
  pub http_only : (c.http_only ≡ true) ↔ (bb.cookie_http_only ≡ some true)
  pub same_site : c.same_site ≡ mode
  pub expires : c.expires ≡ pos (now + lasts)
  pub age : ℕ
  pub max_age : c.max_age ≡ pos age
  pub long : lasts < (age + 1) * second
  pub short : age * second ≤ lasts + 1907

flag_iff : (o : Option Bool) → (flag o ≡ true) ↔ (o ≡ some true)
flag_iff none = (λ h. cc, λ h. cc)
flag_iff (some b) = (λ h. ap some h, λ h. cc)

allow_cookie-IsConfigured :
    (bb : Protector) (now lasts : ℕ) (value : Bytes) (mode : SameSite)
    → bb.allow_for ≡ pos lasts
    → IsConfigured bb now lasts mode (allow_cookie bb now value mode)
allow_cookie-IsConfigured bb now lasts value mode time = record {
  name = refl;
  path = refl;
  domain = refl;
  secure = flag_iff bb.cookie_secure;
  http_only = flag_iff bb.cookie_http_only;
  same_site = refl;
  expires = rw time refl;
  age = whole_seconds lasts;
  max_age = rw time refl;
  long = (whole_seconds_lem lasts).0;
  short = (whole_seconds_lem lasts).1;
}

module _ ⦃crypto : Crypto⦄ ⦃u : Unicode⦄ (codec : Codec AllowCookieClaims) where
  pub write_allow_cookie-made :
      (bb : Protector) (now : ℕ) (mode : SameSite)
      → length bb.cookie_mac_key ≡ 32
      → codec.carries (claims_at bb now) ≡ true
      → parse_same_site_mode bb.cookie_same_site ≡ some mode
      → (cookie : Cookie) × (write_allow_cookie codec bb now ≡ ok cookie)
        × (cookie ≡ allow_cookie bb now cookie.value mode)
        × (verify_signed_value codec cookie.value bb.cookie_mac_key ≡ ok (claims_at bb now))
  unfolding write_allow_cookie
  write_allow_cookie-made bb now mode size fits parsed =
      let (raw, made, read) = verify-sign codec (claims_at bb now) bb.cookie_mac_key size fits in
      (allow_cookie bb now raw mode, rw (made, parsed), refl, read)

  -- With a MAC key of 32 bytes, claims that fit JSON, a SameSite mode that parses and a time that
  -- is not negative, a cookie is made: its name, path, domain and SameSite mode are the configured
  -- ones, it is secure and hidden from scripts exactly if that is switched on, it expires the
  -- configured time from now, its Max-Age is the seconds of that time that fit, or one more if at
  -- most 1907 nanoseconds are missing, and its value verifies to the seconds of its making and of
  -- its expiry.
  pub write_allow_cookie_total :
      (bb : Protector) (now lasts : ℕ) (mode : SameSite)
      → length bb.cookie_mac_key ≡ 32
      → codec.carries (claims_at bb now) ≡ true
      → parse_same_site_mode bb.cookie_same_site ≡ some mode
      → bb.allow_for ≡ pos lasts
      → (cookie : Cookie) × (write_allow_cookie codec bb now ≡ ok cookie)
        × IsConfigured bb now lasts mode cookie
        × (verify_signed_value codec cookie.value bb.cookie_mac_key ≡ ok (claims_at bb now))
  unfolding write_allow_cookie
  write_allow_cookie_total bb now lasts mode size fits parsed time =
      let (cookie, made, value, read) = write_allow_cookie-made bb now mode size fits parsed in
      (
        cookie,
        made,
        subst (IsConfigured bb now lasts mode) (sym value)
            (allow_cookie-IsConfigured bb now lasts cookie.value mode time),
        read,
      )

  abbrev with_mode : Protector → ℕ → Bytes → Result TokenError Cookie
  with_mode bb now value = do
    mode ← or_err (parse_same_site_mode bb.cookie_same_site) bad_same_site
    ok (allow_cookie bb now value mode)

  -- A cookie that is made has the configured name.
  pub write_allow_cookie-name :
      (bb : Protector) (now : ℕ) {cookie : Cookie}
      → write_allow_cookie codec bb now ≡ ok cookie
      → cookie.name ≡ bb.cookie_name
  unfolding write_allow_cookie
  write_allow_cookie-name bb now h =
      let (value, signed, set) =
        >>=-eq-ok (sign_value codec (claims_at bb now) bb.cookie_mac_key) (λ v. with_mode bb now v)
          h in
      let (mode, parsed, e) =
        >>=-eq-ok (or_err (parse_same_site_mode bb.cookie_same_site) bad_same_site)
          (λ m. ok (allow_cookie bb now value m)) set in
      ap (λ (c : Cookie). c.name) (sym (ok-injective e))

  -- A request that sends back a cookie that was set, to a module with the same MAC key of 32 bytes,
  -- is let through from the second in which the cookie was made until the second in which it
  -- expires, and not before or after, if the claims fit JSON.
  pub valid-write_allow_cookie :
      (bb bb' : Protector) (now : ℕ) (cookie : Cookie) (r : Request) (later : ℕ)
      → length bb.cookie_mac_key ≡ 32
      → codec.carries (claims_at bb now) ≡ true
      → write_allow_cookie codec bb now ≡ ok cookie
      → bb'.cookie_mac_key ≡ bb.cookie_mac_key
      → cookie_of bb'.cookie_name r ≡ some cookie.value
      → has_valid_allow_cookie codec bb' r later ≡ (
          ltb_ℤ (unix (pos later)) (unix (pos now +ℤ bb.allow_for))
          && leb_ℤ (unix (pos now)) (unix (pos later)))
  unfolding write_allow_cookie has_valid_allow_cookie
  valid-write_allow_cookie bb bb' now cookie r later size fits written same_key sent =
      let (raw, made, read) = verify-sign codec (claims_at bb now) bb.cookie_mac_key size fits in
      let (value, signed, set) =
        >>=-eq-ok (sign_value codec (claims_at bb now) bb.cookie_mac_key) (λ v. with_mode bb now v)
          written in
      let (mode, parsed, e) =
        >>=-eq-ok (or_err (parse_same_site_mode bb.cookie_same_site) bad_same_site)
          (λ m. ok (allow_cookie bb now value m)) set in
      let same_value : raw ≡ cookie.value =
        ok-injective (sym made ∙ signed) ∙ ap (λ (c : Cookie). c.value) (ok-injective e) in
      rw (sent, ← same_value, same_key, read)

  pub record IsGoodCookie (bb : Protector) (r : Request) (now : ℕ) : Type 0 where
    pub value : Bytes
    pub claims : AllowCookieClaims
    pub sent : cookie_of bb.cookie_name r ≡ some value
    pub authentic : IsAuthentic codec bb.cookie_mac_key value claims
    pub current_version : eqb_ℤ claims.version token_version ≡ true
    pub not_expired : ltb_ℤ (unix (pos now)) claims.expires_at ≡ true
    pub not_early : leb_ℤ claims.issued_at (unix (pos now)) ≡ true

  check_allow_cookie-eq-true :
      (read : Result TokenError AllowCookieClaims) (now : ℕ)
      → check_allow_cookie codec read now ≡ true
      → (claims : AllowCookieClaims) × (read ≡ ok claims)
        × (eqb_ℤ claims.version token_version ≡ true)
        × (ltb_ℤ (unix (pos now)) claims.expires_at ≡ true)
        × (leb_ℤ claims.issued_at (unix (pos now)) ≡ true)
  check_allow_cookie-eq-true (err e) now h = cc
  check_allow_cookie-eq-true (ok claims) now h =
      (claims, refl, ground arith, ground arith, ground arith)

  -- A cookie that lets a request through is authentic under the MAC key, has the current version,
  -- has not expired and was not made in the future.
  pub has_valid_allow_cookie-IsGoodCookie :
      (bb : Protector) (r : Request) (now : ℕ)
      → has_valid_allow_cookie codec bb r now ≡ true
      → IsGoodCookie bb r now
  unfolding has_valid_allow_cookie
  has_valid_allow_cookie-IsGoodCookie bb r now h =
      elim (Option-cases (cookie_of bb.cookie_name r)) [
        | inl missing ↦ cc (rw missing at h)
        | inr (value, sent) ↦
            let (claims, read, version, expiry, start) =
              check_allow_cookie-eq-true (verify_signed_value codec value bb.cookie_mac_key) now
                (rw sent at h) in
            record {
              value = value;
              claims = claims;
              sent = sent;
              authentic = verify_signed_value-IsAuthentic codec value bb.cookie_mac_key read;
              current_version = version;
              not_expired = expiry;
              not_early = start;
            }
      ]
