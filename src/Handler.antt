-- ===== src/Handler.antt =====
-- handler.go, ServeHTTP: what becomes of a request.
pub mod Decision
pub mod Flow
pub mod Journey
pub mod Asked
pub mod Challenged
use caddy_protector.Base.{
  ℕ, Bool, true, false, not, ◌&&◌, ◌||◌, Option, none, some, List, [], ◌∷◌, if◌then◌else◌, is_nil,
  is_some,
}
use caddy_protector.Text.{Bytes, codes, same}
use caddy_protector.Text.Unicode.{Unicode}
use caddy_protector.Http.{Request, Response, header_values, set_header, http_error}
use caddy_protector.Netip.{Addr}
use caddy_protector.IpList.{AddressParser, current_ip_list, ip_list_contains}
use caddy_protector.Protector.{Protector}
use caddy_protector.Filters.{Escapes, match_request_rules}
use caddy_protector.Country.{lookup_country_code, is_country_blacklisted, is_country_whitelisted}
use caddy_protector.Challenge.{Template, serve_challenge}
use caddy_protector.Token.{
  Crypto, Codec, ReturnStateClaims, AllowCookieClaims, has_valid_allow_cookie,
}
use caddy_protector.Verify.{Parsers, Content, get_client_ip, handle_verify}

-- The upstream's handler runs, the connection is cut without an answer, or the module answers.
pub data Outcome : Type 0 where
  passed : Outcome
  cut_off : Outcome
  answered : Response → Outcome

-- How a connection is cut: it is closed, or the handler panics with http.ErrAbortHandler.
pub data CutOff : Type 0 where
  connection_closed handler_aborted : CutOff

-- writeBlacklistedResponse: whether the response controller gives the connection away, and whether
-- the writer does, if it is a http.Hijacker.
unfoldable pub write_blacklisted_response : Bool → Option Bool → CutOff
write_blacklisted_response true hijacked = connection_closed
write_blacklisted_response false (some true) = connection_closed
write_blacklisted_response false (some false) = handler_aborted
write_blacklisted_response false none = handler_aborted

-- What the outside gives one request: its body, Cap's answers, random bytes for a nonce, and the
-- clock where the cookie is checked, where a challenge is made and where a verification begins.
pub record Outside : Type 0 where
  pub body : Content
  pub ask_cap : Bytes → Option Bool
  pub random : ℕ → Option Bytes
  pub cookie_time : ℕ
  pub challenge_time : ℕ
  pub verify_time : ℕ

-- isBlacklisted, of an address that parsed
unfoldable pub is_blacklisted : Protector → Option Addr → Bool
is_blacklisted bb none = false
is_blacklisted bb (some addr) = ip_list_contains (current_ip_list bb.blacklist) addr

-- isAllowlisted, of an address that parsed
unfoldable pub is_allowlisted : Protector → Option Addr → Bool
is_allowlisted bb none = false
is_allowlisted bb (some addr) = ip_list_contains (current_ip_list bb.allowlist) addr

-- Exactly one X-API-Key, and it is the configured one.
abbrev pub only_key : Bytes → List Bytes → Bool
only_key key (given ∷ []) = same given key
only_key key _ = false

unfoldable pub has_bypass_key : Protector → Request → Bool
has_bypass_key bb r =
    not (is_nil bb.bypass_api_key)
    && only_key bb.bypass_api_key (header_values (codes "X-Api-Key") r.headers)

abbrev pub country_blacklisted : Protector → Option Bytes → Bool
country_blacklisted bb none = false
country_blacklisted bb (some code) = is_country_blacklisted bb code

abbrev pub country_whitelisted : Protector → Option Bytes → Bool
country_whitelisted bb none = false
country_whitelisted bb (some code) = is_country_whitelisted bb code

abbrev pub post : Bytes
post = codes "POST"

module _ ⦃parsers : Parsers⦄ ⦃u : Unicode⦄ ⦃escapes : Escapes⦄ ⦃crypto : Crypto⦄
    ⦃net : AddressParser⦄ (states : Codec ReturnStateClaims) (cookies : Codec AllowCookieClaims)
    (template : Template) where
  -- The end of ServeHTTP: the lists of addresses, the cookie and the challenge.
  unfoldable pub serve_address : Protector → Request → Outside → Option Addr → Response → Outcome
  serve_address bb r out addr w =
      if is_blacklisted bb addr
      then cut_off
      else if is_allowlisted bb addr
      then passed
      else if has_valid_allow_cookie cookies bb r out.cookie_time
      then passed
      else answered (serve_challenge states template bb r out.challenge_time out.random w)

  abbrev pub country_denies : Protector → Option Bytes → Bool
  country_denies bb code =
      country_blacklisted bb code || (bb.has_country_whitelist && not (country_whitelisted bb code))

  unfoldable pub serve_country : Protector → Request → Outside → Option Addr → Response → Outcome
  serve_country bb r out addr w =
      if bb.has_country_rules && country_denies bb (lookup_country_code bb addr)
      then cut_off
      else serve_address bb r out addr w

  unfoldable pub serve_rules : Protector → Request → Outside → Response → Outcome
  serve_rules bb r out w =
      if has_bypass_key bb r
      then passed
      else if is_some (match_request_rules bb r)
      then cut_off
      else serve_country bb r out (net.parse_addr (get_client_ip r)) w

  abbrev pub answer : Protector × Response → Protector × Outcome
  answer (bb, w) = (bb, answered w)

  unfoldable pub serve_http : Protector → Request → Outside → Response → Protector × Outcome
  serve_http bb r out w =
      if same r.path bb.verify_path
      then (if not (same r.method post)
          then (
            bb,
            answered
                (http_error (codes "method not allowed") 405 (set_header (codes "Allow") post w)),
          )
          else answer (handle_verify states cookies out.ask_cap bb r out.body out.verify_time w))
      else (bb, serve_rules bb r out w)
