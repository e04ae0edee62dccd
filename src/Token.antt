-- ===== src/Token.antt =====
-- verification.go: signed values, the return state of a challenge and the allow cookie. BLAKE3 and
-- the JSON encoding of the two kinds of claims are parameters.
pub mod Signed
pub mod ReturnState
pub mod AllowCookie
pub mod MaxAge
use caddy_protector.Base.{
  ℕ, zero, suc, leb, ◌-◌, ◌/◌, ◌%◌, ◌^◌, ◌+◌, ◌*◌, ◌≡◌, Bool, true, false, not, ◌&&◌, ◌||◌, Option,
  none, some, ◌∷◌, ◌++◌, if◌then◌else◌, is_nil, is_some, length,
}
use caddy_protector.Base.Int.{ℤ, pos, ◌+ℤ◌, leb_ℤ, ltb_ℤ, eqb_ℤ, div_ℤ, negsuc}
use caddy_protector.Base.Result.{Result, ok, err, or_err, ◌>>=◌}
use caddy_protector.Text.{Bytes, codes, same, cut}
use caddy_protector.Text.Unicode.{Unicode, to_lower, trim_space}
use caddy_protector.Base64
use caddy_protector.Base64.RoundTrip.{IsBytes}
use caddy_protector.Http.{Request, Cookie, SameSite, lax, strict, no_site, cookie_of}
use caddy_protector.Protector.{Protector}
use caddy_protector.RateLimit.{second}
use caddy_protector.ReturnPath.{root, safe_return_path_from}

-- BLAKE3 in its keyed mode, which takes keys of 32 bytes alone and gives 32 bytes, and its mode
-- that derives a key.
pub record Crypto : Type 0 where
  pub keyed_mac : Bytes → Bytes → Option Bytes
  pub derive_key : Bytes → Bytes → Bytes
  pub keyed_mac_total : (key text : Bytes) → length key ≡ 32 → is_some (keyed_mac key text) ≡ true
  pub keyed_mac-length : (key text mac : Bytes) → keyed_mac key text ≡ some mac → length mac ≡ 32
  pub keyed_mac-IsBytes : (key text mac : Bytes) → keyed_mac key text ≡ some mac → IsBytes mac
  pub derive_key-length : (context secret : Bytes) → length (derive_key context secret) ≡ 32

-- encoding/json for one type. `carries` tells the values that JSON gives back: their texts are
-- UTF-8 and their numbers fit an int64.
pub record Codec (A : Type 0) : Type 0 where
  pub marshal : A → Bytes
  pub unmarshal : Bytes → Option A
  pub carries : A → Bool
  pub marshal-IsBytes : (a : A) → IsBytes (marshal a)
  pub marshal-is_nil : (a : A) → is_nil (marshal a) ≡ false
  pub unmarshal-marshal : (a : A) → carries a ≡ true → unmarshal (marshal a) ≡ some a

pub record ReturnStateClaims : Type 0 where
  pub version : ℤ
  pub return_path : Bytes
  pub expires_at : ℤ

pub record AllowCookieClaims : Type 0 where
  pub version : ℤ
  pub issued_at : ℤ
  pub expires_at : ℤ

pub data TokenError : Type 0 where
  bad_format mac_failed bad_mac_encoding wrong_mac bad_payload_encoding bad_payload : TokenError
  wrong_version expired bad_return_to bad_same_site : TokenError

-- tokenVersion
abbrev pub token_version : ℤ
token_version = pos 1

-- returnStateValidFor
abbrev pub return_state_valid_for : ℕ
return_state_valid_for = 15 * 60 * second

-- time.Time.Unix, of a time in nanoseconds
abbrev pub unix : ℤ → ℤ
unix t = div_ℤ t second

abbrev pub period : ℕ
period = b'.'

module _ ⦃crypto : Crypto⦄ where
  unfoldable pub keyed_mac : Bytes → Bytes → Result TokenError Bytes
  keyed_mac key text = or_err (crypto.keyed_mac key text) mac_failed

  -- deriveMACKey
  unfoldable pub derive_mac_key : Bytes → Bytes → Bytes
  derive_mac_key context secret = crypto.derive_key context secret

  module _ {A : Type 0} where
    unfoldable pub sign_value : Codec A → A → Bytes → Result TokenError Bytes
    unfolding keyed_mac
    sign_value codec payload key =
        let payload_part = Base64.encode (codec.marshal payload) in
        do mac ← keyed_mac key payload_part; ok (payload_part ++ period ∷ Base64.encode mac)

    unfoldable pub verify_signed_value : Codec A → Bytes → Bytes → Result TokenError A
    unfolding keyed_mac
    verify_signed_value codec raw key =
        let parts = cut raw period in
        if not parts.found || is_nil parts.before || is_nil parts.after then err bad_format else (do
          expected_mac ← keyed_mac key parts.before
          mac ← or_err (Base64.decode parts.after) bad_mac_encoding
          if not (same expected_mac mac) then err wrong_mac else (do
            payload_json ← or_err (Base64.decode parts.before) bad_payload_encoding
            or_err (codec.unmarshal payload_json) bad_payload))

  module _ (codec : Codec ReturnStateClaims) where
    unfoldable pub create_return_state : Bytes → Bytes → ℕ → Result TokenError Bytes
    create_return_state key return_path now =
        sign_value codec
          (record {
            version = token_version;
            return_path = safe_return_path_from return_path;
            expires_at = unix (pos (now + return_state_valid_for));
          })
          key

    abbrev pub check_return_state : ReturnStateClaims → ℕ → Result TokenError ReturnStateClaims
    check_return_state claims now =
        if not (eqb_ℤ claims.version token_version)
        then err wrong_version
        else if leb_ℤ claims.expires_at (unix (pos now))
        then err expired
        else if is_nil claims.return_path
            || (same (safe_return_path_from claims.return_path) root
                && not (same claims.return_path root))
        then err bad_return_to
        else ok claims

    unfoldable pub verify_return_state : Bytes → Bytes → ℕ → Result TokenError ReturnStateClaims
    verify_return_state key raw now = do
      claims ← verify_signed_value codec raw key
      check_return_state claims now

abbrev pub flag : Option Bool → Bool
flag none = false
flag (some b) = b

abbrev pub cookie_secure_value : Protector → Bool
cookie_secure_value bb = flag bb.cookie_secure

abbrev pub cookie_http_only_value : Protector → Bool
cookie_http_only_value bb = flag bb.cookie_http_only

module _ ⦃u : Unicode⦄ where
  -- challenge.go, parseSameSiteMode
  unfoldable pub parse_same_site_mode : Bytes → Option SameSite
  parse_same_site_mode raw =
      let mode = to_lower (trim_space raw) in
      if same mode (codes "lax")
      then some lax
      else if same mode (codes "strict")
      then some strict
      else if same mode (codes "none")
      then some no_site
      else none

-- The largest power of two, from p on, that is not above n, if the fuel is enough for the doublings.
unfoldable pub power_below : ℕ → ℕ → ℕ → ℕ
power_below zero p n = p
power_below (suc fuel) p n =
    let next = power_below fuel (2 * p) n in if leb (2 * p) n then next else p

-- int(d.Seconds()), of n nanoseconds. The float64 next to the sum of the seconds and of the rest,
-- which was rounded when it was divided, is the next number of seconds if no more than half a step
-- between two floats is missing: 2 ^ (k - 53) from 2 ^ k seconds on, and 2 ^ -54 for the rest. An
-- int64 of nanoseconds has less than 2 ^ 34 seconds.
unfoldable pub whole_seconds : ℕ → ℕ
unfolding power_below
whole_seconds n =
    let seconds = n / second in
    let missing = second - n % second in
    if leb 1 seconds && leb (missing * 2 ^ 54) (second * (2 * power_below 34 1 seconds + 1))
    then suc seconds
    else seconds

abbrev pub negated : ℕ → ℤ
negated zero = pos 0
negated (suc n) = negsuc n

abbrev pub seconds_of : ℤ → ℤ
seconds_of (pos n) = pos (whole_seconds n)
seconds_of (negsuc n) = negated (whole_seconds (suc n))

-- The cookie that is set.
abbrev pub allow_cookie : Protector → ℕ → Bytes → SameSite → Cookie
allow_cookie bb now value same_site = record {
  name = bb.cookie_name;
  value = value;
  path = bb.cookie_path;
  domain = bb.cookie_domain;
  http_only = cookie_http_only_value bb;
  secure = cookie_secure_value bb;
  same_site = same_site;
  expires = pos now +ℤ bb.allow_for;
  max_age = seconds_of bb.allow_for;
}

module _ ⦃crypto : Crypto⦄ ⦃u : Unicode⦄ (codec : Codec AllowCookieClaims) where
  unfoldable pub write_allow_cookie : Protector → ℕ → Result TokenError Cookie
  write_allow_cookie bb now = do
    value ←
        sign_value codec
          (record {
            version = token_version;
            issued_at = unix (pos now);
            expires_at = unix (pos now +ℤ bb.allow_for);
          })
          bb.cookie_mac_key
    same_site ← or_err (parse_same_site_mode bb.cookie_same_site) bad_same_site
    ok (allow_cookie bb now value same_site)

module _ ⦃crypto : Crypto⦄ (codec : Codec AllowCookieClaims) where
  abbrev pub check_allow_cookie : Result TokenError AllowCookieClaims → ℕ → Bool
  check_allow_cookie (err e) now = false
  check_allow_cookie (ok claims) now =
      if not (eqb_ℤ claims.version token_version)
      then false
      else ltb_ℤ (unix (pos now)) claims.expires_at && leb_ℤ claims.issued_at (unix (pos now))

  abbrev pub check_cookie_value : Protector → Option Bytes → ℕ → Bool
  check_cookie_value bb none now = false
  check_cookie_value bb (some value) now =
      check_allow_cookie (verify_signed_value codec value bb.cookie_mac_key) now

  unfoldable pub has_valid_allow_cookie : Protector → Request → ℕ → Bool
  has_valid_allow_cookie bb r now = check_cookie_value bb (cookie_of bb.cookie_name r) now
