-- ===== src/Handler/Flow.antt =====
-- What serving a request changes, and which answers leave the cookies as they are.
use caddy_protector.Base.{
  ℕ, ◌≡◌, refl, inl, inr, Bool, true, false, Option, none, some, [], ◌∷◌, if◌then◌else◌, arith,
  Bool-cases,
}
use caddy_protector.Base.Result.{Result, ok, err}
use caddy_protector.Text.{Bytes, same}
use caddy_protector.Text.Unicode.{Unicode}
use caddy_protector.Http.{Request, Response, http_error}
use caddy_protector.IpList.{AddressParser}
use caddy_protector.Protector.{Protector}
use caddy_protector.RateLimit.{made}
use caddy_protector.RateLimit.Table.{IsValid, allow_verify_attempt-IsValid}
use caddy_protector.Filters.{Escapes}
use caddy_protector.Challenge.{
  Template, PageData, page_data, page_or_error, page_of_template, serve_challenge,
  challenge_with_state, challenge_with_nonce, generate_csp_nonce, render_challenge_page,
  set_no_store_headers, with_page_headers,
}
use caddy_protector.Token.{Crypto, Codec, ReturnStateClaims, AllowCookieClaims, TokenError}
use caddy_protector.Verify.{Parsers, Admitted, Refusal, admit, admitted_step, handle_verify}
use caddy_protector.Handler.{answered, Outside, post, serve_http}
use caddy_protector.Handler.Decision.{is_verify, serve_rules-decision}

if-cookies :
    (b : Bool) (x y w : Response)
    → x.cookies ≡ w.cookies
    → y.cookies ≡ w.cookies
    → (if b then x else y).cookies ≡ w.cookies
if-cookies true x y w h k = h
if-cookies false x y w h k = k

module _ ⦃parsers : Parsers⦄ ⦃u : Unicode⦄ ⦃crypto : Crypto⦄ ⦃net : AddressParser⦄
    (states : Codec ReturnStateClaims) (cookies : Codec AllowCookieClaims) where
  step-limits :
      (bb : Protector) (now : ℕ) (ask_cap : Bytes → Option Bool) (checked : Result Refusal Admitted)
      (w : Response)
      → IsValid (made bb.verify_rate_limits)
      → IsValid (made (admitted_step states cookies bb now ask_cap checked w).0.verify_rate_limits)
  step-limits bb now ask_cap (err refusal) w h = h
  step-limits bb now ask_cap (ok a) w h =
      allow_verify_attempt-IsValid bb.verify_rate_limits a.client now h

  step-rest :
      (bb : Protector) (now : ℕ) (ask_cap : Bytes → Option Bool) (checked : Result Refusal Admitted)
      (w : Response)
      → (admitted_step states cookies bb now ask_cap checked w).0 ≡ record bb {
        verify_rate_limits =
            (admitted_step states cookies bb now ask_cap checked w).0.verify_rate_limits;
      }
  step-rest bb now ask_cap (err refusal) w = refl
  step-rest bb now ask_cap (ok a) w = refl

module _ ⦃parsers : Parsers⦄ ⦃u : Unicode⦄ ⦃escapes : Escapes⦄ ⦃crypto : Crypto⦄
    ⦃net : AddressParser⦄ (states : Codec ReturnStateClaims) (cookies : Codec AllowCookieClaims)
    (template : Template) where
  pub serve_http_rest :
      (bb : Protector) (r : Request) (out : Outside) (w : Response)
      → (serve_http states cookies template bb r out w).0 ≡ record bb {
        verify_rate_limits = (serve_http states cookies template bb r out w).0.verify_rate_limits;
      }
  unfolding serve_http handle_verify
  serve_http_rest bb r out w = elim (Bool-cases (same r.path bb.verify_path)) [
    | inr away ↦ rw away
    | inl here ↦ elim (Bool-cases (same r.method post)) [
      | inr wrong ↦ rw (here, wrong)
      | inl right ↦
          rw (here, right)
            (step-rest states cookies bb out.verify_time out.ask_cap
              (admit states bb r out.body out.verify_time) (set_no_store_headers w))
    ]
  ]

  -- Serving a request changes nothing of the module but the rate limits, and keeps a well-formed
  -- table of them well formed.
  pub serve_http-limits :
      (bb : Protector) (r : Request) (out : Outside) (w : Response)
      → IsValid (made bb.verify_rate_limits)
      → let after = (serve_http states cookies template bb r out w).0 in
        IsValid (made after.verify_rate_limits)
        × (after ≡ record bb { verify_rate_limits = after.verify_rate_limits })
  unfolding serve_http handle_verify
  serve_http-limits bb r out w h = (valid, serve_http_rest bb r out w)
    where
      valid : IsValid (made (serve_http states cookies template bb r out w).0.verify_rate_limits)
      valid = elim (Bool-cases (same r.path bb.verify_path)) [
        | inr away ↦ rw away h
        | inl here ↦ elim (Bool-cases (same r.method post)) [
          | inr wrong ↦ rw (here, wrong) h
          | inl right ↦
              rw (here, right)
                (step-limits states cookies bb out.verify_time out.ask_cap
                  (admit states bb r out.body out.verify_time) (set_no_store_headers w) h)
        ]
      ]

  page-cookies :
      (run : Option (PageData → Bytes × Bool)) (content : PageData) (w : Response)
      → (page_of_template states template run content w).cookies ≡ w.cookies
  unfolding http_error
  page-cookies none content w = refl
  page-cookies (some execute) content w = written (execute content)
    where
      written : (done : Bytes × Bool) → (page_or_error states template done w).cookies ≡ w.cookies
      written (text, true) = refl
      written ([], false) = refl
      written (c ∷ text, false) = refl

  nonce-cookies :
      (bb : Protector) (state : Bytes) (nonce : Option Bytes) (w : Response)
      → (challenge_with_nonce states template bb state nonce w).cookies ≡ w.cookies
  unfolding http_error render_challenge_page
  nonce-cookies bb state none w = refl
  nonce-cookies bb state (some nonce) w =
      page-cookies template.execute (page_data states template bb state (some nonce)) _

  state-cookies :
      (bb : Protector) (random : ℕ → Option Bytes) (state : Result TokenError Bytes) (w : Response)
      → (challenge_with_state states template bb random state w).cookies ≡ w.cookies
  unfolding http_error set_no_store_headers render_challenge_page
  state-cookies bb random (err e) w = refl
  state-cookies bb random (ok state) w =
      if-cookies bb.disable_csp_header _ _ w
        (page-cookies template.execute (page_data states template bb state none)
          (with_page_headers w))
        (nonce-cookies bb state (generate_csp_nonce random) (with_page_headers w))

  -- A challenge sets no cookie.
  serve_challenge-cookies :
      (bb : Protector) (r : Request) (now : ℕ) (random : ℕ → Option Bytes) (w : Response)
      → (serve_challenge states template bb r now random w).cookies ≡ w.cookies
  unfolding serve_challenge
  serve_challenge-cookies bb r now random w = state-cookies bb random _ w

  -- Away from the verify path no answer has a cookie that was not there.
  pub serve_http-no_cookie :
      (bb : Protector) (r : Request) (out : Outside) (w answer : Response)
      → is_verify states cookies template bb r ≡ false
      → (serve_http states cookies template bb r out w).1 ≡ answered answer
      → answer.cookies ≡ w.cookies
  unfolding serve_http
  serve_http-no_cookie bb r out w answer away h = ground (
    arith,
    serve_rules-decision states cookies template bb r out w,
    serve_challenge-cookies bb r out.challenge_time out.random w,
  )
