-- ===== src/Verify/Unstored.antt =====
-- The headers that keep the answers of a verification out of every store.
use caddy_protector.Base.{ℕ, ◌≡◌, refl, ◌∙◌, Bool, true, false, Option, none, some, if◌then◌else◌}
use caddy_protector.Base.Assoc.{lookup-insert, eqb}
use caddy_protector.Base.Result.{Result, ok, err}
use caddy_protector.Text.{Bytes, codes, bytes_Eq}
use caddy_protector.Text.Decimal.{itoa}
use caddy_protector.Text.Unicode.{Unicode}
use caddy_protector.Http.{set_cookie, Request, Response, Cookie, set_header, http_error}
use caddy_protector.IpList.{AddressParser}
use caddy_protector.Protector.{Protector}
use caddy_protector.RateLimit.{Attempt, allow_verify_attempt, retry_after_seconds}
use caddy_protector.Challenge.{set_no_store_headers}
use caddy_protector.Challenge.Page.{IsUnstored}
use caddy_protector.Token.{
  Crypto, Codec, ReturnStateClaims, AllowCookieClaims, TokenError, write_allow_cookie,
}
use caddy_protector.Verify.{
  Parsers, Content, Refusal, Admitted, too_many_requests, with_retry, refuse, cookie_written,
  after_cap, after_limit, admitted_step, admit, handle_verify, cap_failed, cap_rejected,
  cookie_failed,
}

set_no_store_headers-IsUnstored : (w : Response) → IsUnstored (set_no_store_headers w)
unfolding set_no_store_headers
set_no_store_headers-IsUnstored w = record {
  no_store = rw (lookup-insert, lookup-insert) refl;
  no_cache = rw lookup-insert refl;
}

-- Another header keeps them.
set_header-IsUnstored :
    (name value : Bytes) (w : Response)
    → eqb name (codes "Cache-Control") ≡ false
    → eqb name (codes "Pragma") ≡ false
    → IsUnstored w
    → IsUnstored (set_header name value w)
set_header-IsUnstored name value w a b h = record {
  no_store = lookup-insert name (codes "Cache-Control") value w.headers ∙ rw a h.no_store;
  no_cache = lookup-insert name (codes "Pragma") value w.headers ∙ rw b h.no_cache;
}

http_error-IsUnstored :
    (message : Bytes) (status : ℕ) (w : Response)
    → IsUnstored w
    → IsUnstored (http_error message status w)
unfolding http_error
http_error-IsUnstored message status w h =
    let plain =
      set_header-IsUnstored (codes "Content-Type") (codes "text/plain; charset=utf-8") w refl refl
        h in
    let kept =
      set_header-IsUnstored (codes "X-Content-Type-Options") (codes "nosniff") _ refl refl plain in
    record { no_store = kept.no_store; no_cache = kept.no_cache }

with_retry-IsUnstored :
    (refusal : Refusal) (w : Response) → IsUnstored w → IsUnstored (with_retry refusal w)
with_retry-IsUnstored (too_many_requests seconds) w h =
    set_header-IsUnstored (codes "Retry-After") (itoa seconds) w refl refl h
with_retry-IsUnstored _ w h = h

refuse-IsUnstored :
    (refusal : Refusal) (w : Response) → IsUnstored w → IsUnstored (refuse refusal w)
unfolding refuse
refuse-IsUnstored refusal w h =
    http_error-IsUnstored _ _ (with_retry refusal w) (with_retry-IsUnstored refusal w h)

module _ ⦃parsers : Parsers⦄ ⦃u : Unicode⦄ ⦃crypto : Crypto⦄ ⦃net : AddressParser⦄
    (states : Codec ReturnStateClaims) (cookies : Codec AllowCookieClaims) where
  cookie_written-IsUnstored :
      (made : Result TokenError Cookie) (a : Admitted) (w : Response)
      → IsUnstored w
      → IsUnstored (cookie_written states cookies made a w)
  unfolding set_cookie
  cookie_written-IsUnstored (err e) a w h = refuse-IsUnstored cookie_failed w h
  cookie_written-IsUnstored (ok cookie) a w h =
      let typed =
        set_header-IsUnstored (codes "Content-Type") (codes "application/json") w refl refl h in
      record { no_store = typed.no_store; no_cache = typed.no_cache }

  after_cap-IsUnstored :
      (bb : Protector) (now : ℕ) (said : Option Bool) (a : Admitted) (w : Response)
      → IsUnstored w
      → IsUnstored (after_cap states cookies bb now said a w)
  after_cap-IsUnstored bb now none a w h = refuse-IsUnstored cap_failed w h
  after_cap-IsUnstored bb now (some false) a w h = refuse-IsUnstored cap_rejected w h
  after_cap-IsUnstored bb now (some true) a w h =
      cookie_written-IsUnstored (write_allow_cookie cookies bb now) a w h

  after_limit-IsUnstored :
      (bb : Protector) (now : ℕ) (ask_cap : Bytes → Option Bool) (attempt : Attempt) (a : Admitted)
      (w : Response)
      → IsUnstored w
      → IsUnstored (after_limit states cookies bb now ask_cap attempt a w)
  after_limit-IsUnstored bb now ask_cap attempt a w h = in_time attempt.allowed
    where
      in_time :
          (b : Bool)
          → IsUnstored (
              if b
              then after_cap states cookies bb now (ask_cap a.request.token) a w
              else refuse (too_many_requests (retry_after_seconds attempt.retry_after)) w)
      in_time true = after_cap-IsUnstored bb now (ask_cap a.request.token) a w h
      in_time false =
          refuse-IsUnstored (too_many_requests (retry_after_seconds attempt.retry_after)) w h

  admitted_step-IsUnstored :
      (bb : Protector) (now : ℕ) (ask_cap : Bytes → Option Bool) (checked : Result Refusal Admitted)
      (w : Response)
      → IsUnstored w
      → IsUnstored (admitted_step states cookies bb now ask_cap checked w).1
  admitted_step-IsUnstored bb now ask_cap (err refusal) w h = refuse-IsUnstored refusal w h
  admitted_step-IsUnstored bb now ask_cap (ok a) w h =
      after_limit-IsUnstored bb now ask_cap
        (allow_verify_attempt bb.verify_rate_limits a.client now) a w h

  -- No answer of a verification may be stored.
  pub handle_verify-IsUnstored :
      (ask_cap : Bytes → Option Bool) (bb : Protector) (r : Request) (body : Content) (now : ℕ)
      (w : Response)
      → IsUnstored (handle_verify states cookies ask_cap bb r body now w).1
  unfolding handle_verify
  handle_verify-IsUnstored ask_cap bb r body now w =
      admitted_step-IsUnstored bb now ask_cap (admit states bb r body now) (set_no_store_headers w)
        (set_no_store_headers-IsUnstored w)
