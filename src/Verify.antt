-- ===== src/Verify.antt =====
-- verification_handler.go, handleVerify, with decodeVerifyRequest of challenge.go, isJSONContentType
-- of handler.go and getClientIP of lifecycle.go.
pub mod Admission
pub mod Outcome
pub mod Siteverify
pub mod Unstored
use caddy_protector.Base.{
  ℕ, ◌+◌, ◌-◌, ◌/◌, Bool, true, false, not, Option, none, some, [], ◌∷◌, ◌++◌, ltb, if◌then◌else◌,
  is_nil, length,
}
use caddy_protector.Base.Result.{require, Result, ok, err, or_err, ◌>>=◌}
use caddy_protector.Text.{Bytes, codes}
use caddy_protector.Text.Decimal.{itoa}
use caddy_protector.Text.Unicode.{Unicode, equal_fold, trim_space}
use caddy_protector.Http.{
  Request, Response, Cookie, verified, header_get, set_header, set_cookie, http_error,
}
use caddy_protector.Netip.{Addr, unmap}
use caddy_protector.IpList.{AddressParser}
use caddy_protector.Protector.{Protector}
use caddy_protector.RateLimit.{Attempt, allow_verify_attempt, retry_after_seconds}
use caddy_protector.ReturnPath.{safe_return_path_from}
use caddy_protector.Challenge.{set_no_store_headers}
use caddy_protector.Token.{
  Crypto, Codec, ReturnStateClaims, AllowCookieClaims, TokenError, verify_return_state,
  write_allow_cookie,
}

pub record VerifyRequest : Type 0 where
  pub token : Bytes
  pub state : Bytes

-- Parsers of the Go library: the media type of a Content-Type, the host of an address with a port,
-- and a JSON object with the fields of a verify request and no others at the start of a text, with
-- whether nothing but white space follows it.
pub record Parsers : Type 0 where
  pub parse_media_type : Bytes → Option Bytes
  pub split_host : Bytes → Option Bytes
  pub decode_request : Bytes → Option (VerifyRequest × Bool)

-- A request's body: what can be read of it, and whether that is all.
pub record Content : Type 0 where
  pub text : Bytes
  pub complete : Bool

-- maxVerifyBodyBytes
abbrev pub max_verify_body_bytes : ℕ
max_verify_body_bytes = 4096

-- Why a verification is refused. The state's own error is only logged.
pub data Refusal : Type 0 where
  unsupported_media_type bad_body token_missing state_missing : Refusal
  state_invalid : TokenError → Refusal
  bad_client_ip : Refusal
  too_many_requests : ℕ → Refusal
  cap_failed cap_rejected cookie_failed : Refusal

-- Everything that is checked before the rate limit.
pub record Admitted : Type 0 where
  pub request : VerifyRequest
  pub claims : ReturnStateClaims
  pub client : Addr

abbrev pub status_of : Refusal → ℕ
status_of unsupported_media_type = 415
status_of bad_body = 400
status_of token_missing = 400
status_of state_missing = 400
status_of (state_invalid e) = 403
status_of bad_client_ip = 400
status_of (too_many_requests seconds) = 429
status_of cap_failed = 502
status_of cap_rejected = 403
status_of cookie_failed = 500

abbrev pub message_of : Refusal → Bytes
message_of unsupported_media_type = codes "unsupported media type"
message_of bad_body = codes "ungueltige anfrage"
message_of token_missing = codes "token fehlt"
message_of state_missing = codes "state fehlt"
message_of (state_invalid e) = codes "challenge abgelaufen"
message_of bad_client_ip = codes "ungueltige client ip"
message_of (too_many_requests seconds) = codes "too many requests"
message_of cap_failed = codes "cap verification failed"
message_of cap_rejected = codes "ungueltige verifikation"
message_of cookie_failed = codes "Freigabe-Cookie konnte nicht gesetzt werden"

abbrev pub with_retry : Refusal → Response → Response
with_retry (too_many_requests seconds) w = set_header (codes "Retry-After") (itoa seconds) w
with_retry _ w = w

unfoldable pub refuse : Refusal → Response → Response
refuse refusal w = http_error (message_of refusal) (status_of refusal) (with_retry refusal w)

module _ ⦃parsers : Parsers⦄ where
  abbrev pub host_or : Bytes → Option Bytes → Bytes
  host_or remote_addr none = remote_addr
  host_or remote_addr (some host) = host

  abbrev pub ip_or : Bytes → Option Bytes → Bytes
  ip_or remote_ip none = remote_ip
  ip_or remote_ip (some ip) = if is_nil ip then remote_ip else ip

  unfoldable pub get_client_ip : Request → Bytes
  get_client_ip r = ip_or (host_or r.remote_addr (parsers.split_host r.remote_addr)) r.client_ip

  module _ ⦃u : Unicode⦄ where
    abbrev pub is_json : Option Bytes → Bool
    is_json none = false
    is_json (some media_type) = equal_fold media_type (codes "application/json")

    unfoldable pub is_json_content_type : Bytes → Bool
    is_json_content_type content_type = is_json (parsers.parse_media_type content_type)

  abbrev pub only_value : Option (VerifyRequest × Bool) → Option VerifyRequest
  only_value none = none
  only_value (some (request, alone)) = if alone then some request else none

  -- The body is read through http.MaxBytesReader.
  unfoldable pub decode_verify_request : Content → Option VerifyRequest
  decode_verify_request body =
      if not body.complete
      then none
      else if ltb max_verify_body_bytes (length body.text)
      then none
      else only_value (parsers.decode_request body.text)

abbrev pub state_checked : Result TokenError ReturnStateClaims → Result Refusal ReturnStateClaims
state_checked (ok claims) = ok claims
state_checked (err e) = err (state_invalid e)

module _ ⦃parsers : Parsers⦄ ⦃u : Unicode⦄ ⦃crypto : Crypto⦄ ⦃net : AddressParser⦄
    (states : Codec ReturnStateClaims) where
  -- The checks of handleVerify up to the rate limit, in its order.
  unfoldable pub admit : Protector → Request → Content → ℕ → Result Refusal Admitted
  admit bb r body now = do
    typed ←
        require (is_json_content_type (header_get (codes "Content-Type") r.headers))
          unsupported_media_type
    request ← or_err (decode_verify_request body) bad_body
    given_token ← require (not (is_nil (trim_space request.token))) token_missing
    given_state ← require (not (is_nil (trim_space request.state))) state_missing
    claims ← state_checked (verify_return_state states bb.return_state_mac_key request.state now)
    client ← or_err (net.parse_addr (get_client_ip r)) bad_client_ip
    ok (record { request = request; claims = claims; client = unmap client })

  module _ (cookies : Codec AllowCookieClaims) where
    abbrev pub cookie_written : Result TokenError Cookie → Admitted → Response → Response
    cookie_written (err e) a w = refuse cookie_failed w
    cookie_written (ok cookie) a w =
        record (set_header (codes "Content-Type") (codes "application/json")
          (set_cookie cookie w)) { body = verified (safe_return_path_from a.claims.return_path) }

    -- What Cap says of the token, `none` if it cannot be asked.
    abbrev pub after_cap : Protector → ℕ → Option Bool → Admitted → Response → Response
    after_cap bb now none a w = refuse cap_failed w
    after_cap bb now (some false) a w = refuse cap_rejected w
    after_cap bb now (some true) a w = cookie_written (write_allow_cookie cookies bb now) a w

    abbrev pub after_limit :
        Protector → ℕ → (Bytes → Option Bool) → Attempt → Admitted → Response → Response
    after_limit bb now ask_cap attempt a w =
        if attempt.allowed
        then after_cap bb now (ask_cap a.request.token) a w
        else refuse (too_many_requests (retry_after_seconds attempt.retry_after)) w

    abbrev pub admitted_step :
        Protector
        → ℕ
        → (Bytes → Option Bool)
        → Result Refusal Admitted
        → Response
        → Protector × Response
    admitted_step bb now ask_cap (err refusal) w = (bb, refuse refusal w)
    admitted_step bb now ask_cap (ok a) w =
        let attempt = allow_verify_attempt bb.verify_rate_limits a.client now in
        (
          record bb { verify_rate_limits = some attempt.limits },
          after_limit bb now ask_cap attempt a w,
        )

    -- `ask_cap` is verifyCapToken, `now` the clock. The rate limits are all that changes.
    unfoldable pub handle_verify :
        (Bytes → Option Bool) → Protector → Request → Content → ℕ → Response → Protector × Response
    handle_verify ask_cap bb r body now w =
        admitted_step bb now ask_cap (admit bb r body now) (set_no_store_headers w)
