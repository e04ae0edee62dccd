-- ===== src/Tests/Tokens.antt =====
-- Signed values at concrete inputs.
use caddy_protector.Base.{ℕ, ◌+◌, ◌≡◌, refl, ◌&&◌, if◌then◌else◌, some, arith}
use caddy_protector.Base.Int.{pos, leb_ℤ, ltb_ℤ, ◌+ℤ◌}
use caddy_protector.Base.Result.{ok, err}
use caddy_protector.Base64
use caddy_protector.Base64.RoundTrip.{decode-encode}
use caddy_protector.Text.{Bytes, codes, cut}
use caddy_protector.Text.Segments.{clean}
use caddy_protector.Text.Unicode.{to_lower, trim_space, trim_left, trim_back}
use caddy_protector.ReturnPath.{safe_return_path_from}
use caddy_protector.RateLimit.{second}
use caddy_protector.Base.{◌*◌}
use caddy_protector.Http.{Cookie, cookie_of, lax}
use caddy_protector.Token.{
  expired, return_state_valid_for, unix, keyed_mac, sign_value, verify_signed_value,
  create_return_state, verify_return_state, parse_same_site_mode, write_allow_cookie,
  has_valid_allow_cookie,
}
use caddy_protector.Token.Signed.{verify-sign, IsAuthentic, verify_signed_value-IsAuthentic}
use caddy_protector.Token.ReturnState.{
  claims_for, verify-create_return_state, IsGoodState, verify_return_state-IsGoodState,
}
use caddy_protector.Token.AllowCookie.{
  claims_at, IsConfigured, write_allow_cookie_total, valid-write_allow_cookie, IsGoodCookie,
  has_valid_allow_cookie-IsGoodCookie,
}
use caddy_protector.Tests.Fixtures.{ascii_only, toy_crypto, toy_states, toy_cookies}
use caddy_protector.Tests.Site.{
  site, cookie_request, raw_state, site_cookie, start, solved_at, next_at, key,
}

decode-encode_example : Base64.decode (Base64.encode (codes "any text?")) ≡ some (codes "any text?")
decode-encode_example = decode-encode (codes "any text?") (
  omega arith,
  (
    omega arith,
    (
      omega arith,
      (omega arith, (omega arith, (omega arith, (omega arith, (omega arith, (omega arith, tt)))))),
    ),
  ),
)

verify-sign_example :
    (raw : Bytes) × (sign_value toy_states (claims_for (codes "/shop?id=7") start) key ≡ ok raw)
    × (verify_signed_value toy_states raw key ≡ ok (claims_for (codes "/shop?id=7") start))
unfolding safe_return_path_from cut clean
verify-sign_example = verify-sign toy_states (claims_for (codes "/shop?id=7") start) key refl refl

verify_signed_value-IsAuthentic_example :
    IsAuthentic toy_states key raw_state (claims_for (codes "/shop?id=7") start)
unfolding verify_signed_value keyed_mac cut clean safe_return_path_from Base64.decode Base64.values
    Base64.octets Base64.value_of Base64.encode Base64.sextets Base64.char_of
verify_signed_value-IsAuthentic_example =
    verify_signed_value-IsAuthentic toy_states raw_state key refl

verify-create_return_state_example :
    (raw : Bytes) × (create_return_state toy_states key (codes "/shop?id=7") start ≡ ok raw)
    × ((later : ℕ)
        → verify_return_state toy_states key raw later ≡ (
            if leb_ℤ (unix (pos (start + return_state_valid_for))) (unix (pos later))
            then err expired
            else ok (claims_for (codes "/shop?id=7") start)))
unfolding safe_return_path_from cut clean
verify-create_return_state_example =
    verify-create_return_state toy_states key (codes "/shop?id=7") start refl refl

verify_return_state-IsGoodState_example :
    IsGoodState toy_states key raw_state solved_at (claims_for (codes "/shop?id=7") start)
unfolding verify_return_state verify_signed_value keyed_mac cut clean safe_return_path_from
    Base64.decode Base64.values Base64.octets Base64.value_of Base64.encode Base64.sextets
    Base64.char_of
verify_return_state-IsGoodState_example =
    verify_return_state-IsGoodState toy_states key raw_state solved_at refl

write_allow_cookie_total_example :
    (cookie : Cookie) × (write_allow_cookie toy_cookies site solved_at ≡ ok cookie)
    × IsConfigured site solved_at (3600 * second) lax cookie
    × (verify_signed_value toy_cookies cookie.value key ≡ ok (claims_at site solved_at))
unfolding parse_same_site_mode to_lower trim_space trim_left trim_back
write_allow_cookie_total_example =
    write_allow_cookie_total toy_cookies site solved_at (3600 * second) lax refl refl refl refl

valid-write_allow_cookie_example :
    has_valid_allow_cookie toy_cookies site cookie_request next_at ≡ (
      ltb_ℤ (unix (pos next_at)) (unix (pos solved_at +ℤ site.allow_for))
      && leb_ℤ (unix (pos solved_at)) (unix (pos next_at)))
unfolding cookie_of write_allow_cookie sign_value keyed_mac Base64.encode Base64.sextets
    Base64.char_of parse_same_site_mode to_lower trim_space trim_left trim_back
valid-write_allow_cookie_example =
    valid-write_allow_cookie toy_cookies site site solved_at site_cookie cookie_request next_at refl
      refl refl refl refl

has_valid_allow_cookie-IsGoodCookie_example : IsGoodCookie toy_cookies site cookie_request next_at
unfolding has_valid_allow_cookie cookie_of verify_signed_value keyed_mac cut Base64.decode
    Base64.values Base64.octets Base64.value_of Base64.encode Base64.sextets Base64.char_of
has_valid_allow_cookie-IsGoodCookie_example =
    has_valid_allow_cookie-IsGoodCookie toy_cookies site cookie_request next_at refl
