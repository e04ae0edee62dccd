-- ===== src/Handler/Decision.antt =====
-- When a request reaches the upstream, when its connection is cut, and when it gets a challenge.
use caddy_protector.Base.{
  ◌≡◌, ◌↔◌, Bool, true, not, ◌&&◌, ◌||◌, Option, is_some, arith, if◌then◌else◌,
}
use caddy_protector.Text.{same}
use caddy_protector.Text.Unicode.{Unicode}
use caddy_protector.Http.{Request, Response}
use caddy_protector.Netip.{Addr}
use caddy_protector.IpList.{AddressParser}
use caddy_protector.Protector.{Protector}
use caddy_protector.Filters.{Escapes, match_request_rules}
use caddy_protector.Country.{lookup_country_code}
use caddy_protector.Challenge.{Template, serve_challenge}
use caddy_protector.Token.{
  Crypto, Codec, ReturnStateClaims, AllowCookieClaims, has_valid_allow_cookie,
}
use caddy_protector.Verify.{Parsers, get_client_ip}
use caddy_protector.Handler.{
  Outcome, passed, cut_off, answered, Outside, is_blacklisted, is_allowlisted, has_bypass_key,
  country_denies, serve_address, serve_country, serve_rules, serve_http,
}

module _ ⦃parsers : Parsers⦄ ⦃u : Unicode⦄ ⦃escapes : Escapes⦄ ⦃crypto : Crypto⦄
    ⦃net : AddressParser⦄ (states : Codec ReturnStateClaims) (cookies : Codec AllowCookieClaims)
    (template : Template) where
  abbrev pub client : Request → Option Addr
  client r = net.parse_addr (get_client_ip r)

  -- A deny rule, a country rule or the blacklist applies.
  abbrev pub denied : Protector → Request → Bool
  denied bb r =
      is_some (match_request_rules bb r)
      || (bb.has_country_rules
          && country_denies states cookies template bb (lookup_country_code bb (client r)))
      || is_blacklisted bb (client r)

  -- The allowlist or a cookie lets the client through.
  abbrev pub cleared : Protector → Request → Outside → Bool
  cleared bb r out =
      is_allowlisted bb (client r) || has_valid_allow_cookie cookies bb r out.cookie_time

  abbrev pub is_verify : Protector → Request → Bool
  is_verify bb r = same r.path bb.verify_path

  -- Off the verify path, the answer in terms of the three questions above.
  abbrev pub decision : Protector → Request → Outside → Response → Outcome
  decision bb r out w =
      if has_bypass_key bb r || (not (denied bb r) && cleared bb r out)
      then passed
      else if denied bb r
      then cut_off
      else answered (serve_challenge states template bb r out.challenge_time out.random w)

  pub serve_rules-decision :
      (bb : Protector) (r : Request) (out : Outside) (w : Response)
      → serve_rules states cookies template bb r out w ≡ decision bb r out w
  unfolding serve_rules serve_country serve_address
  serve_rules-decision bb r out w = ground arith

  -- A request reaches the upstream exactly if it is not to the verify path and either has the
  -- bypass key or is not denied by a rule, a country or the blacklist and is let through by the
  -- allowlist or by its cookie.
  pub serve_http-passed_iff :
      (bb : Protector) (r : Request) (out : Outside) (w : Response)
      → ((serve_http states cookies template bb r out w).1 ≡ passed) ↔ (
          (not (is_verify bb r) && (has_bypass_key bb r || (not (denied bb r) && cleared bb r out)))
          ≡ true)
  unfolding serve_http
  serve_http-passed_iff bb r out w = ground (arith, serve_rules-decision bb r out w)

  -- A connection is cut exactly if the request is not to the verify path, has no bypass key, and is
  -- denied by a rule, a country or the blacklist.
  pub serve_http-cut_off_iff :
      (bb : Protector) (r : Request) (out : Outside) (w : Response)
      → ((serve_http states cookies template bb r out w).1 ≡ cut_off)
        ↔ ((not (is_verify bb r) && not (has_bypass_key bb r) && denied bb r) ≡ true)
  unfolding serve_http
  serve_http-cut_off_iff bb r out w = ground (arith, serve_rules-decision bb r out w)

  pub serve_http-challenge :
      (bb : Protector) (r : Request) (out : Outside) (w : Response)
      → (not (is_verify bb r)
          && not (has_bypass_key bb r)
          && not (denied bb r)
          && not (cleared bb r out))
        ≡ true
      → serve_http states cookies template bb r out w
        ≡ (bb, answered (serve_challenge states template bb r out.challenge_time out.random w))
  unfolding serve_http
  serve_http-challenge bb r out w h = ground (arith, serve_rules-decision bb r out w)
