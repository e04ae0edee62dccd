-- ===== src/Verify/Outcome.antt =====
-- What a verification answers, and what it leaves behind.
use caddy_protector.Base.{
  ℕ, ◌≡◌, ◌≢◌, ◌⊎◌, refl, ap, sym, ◌∙◌, inl, inr, Bool, true, false, Option, some, [], ◌∷◌, arith,
  Bool-cases, Option-cases,
}
use caddy_protector.Base.Result.{ok, Result-cases}
use caddy_protector.Text.{Bytes}
use caddy_protector.Text.Unicode.{Unicode}
use caddy_protector.Http.{Request, Response, Cookie, verified, is_token, set_cookie, http_error}
use caddy_protector.IpList.{AddressParser}
use caddy_protector.Protector.{Protector}
use caddy_protector.RateLimit.{allow_verify_attempt, retry_after_seconds}
use caddy_protector.ReturnPath.{safe_return_path_from}
use caddy_protector.Challenge.{set_no_store_headers}
use caddy_protector.Token.{Crypto, Codec, ReturnStateClaims, AllowCookieClaims, write_allow_cookie}
use caddy_protector.Token.AllowCookie.{write_allow_cookie-name}
use caddy_protector.Challenge.Page.{IsUnstored}
use caddy_protector.Verify.Unstored.{handle_verify-IsUnstored}
use caddy_protector.Verify.{
  state_invalid, Parsers, Content, Refusal, cap_failed, cap_rejected, cookie_failed,
  too_many_requests, with_retry, refuse, status_of, Admitted, admit, admitted_step, cookie_written,
  handle_verify,
}

with_retry-cookies : (refusal : Refusal) (w : Response) → (with_retry refusal w).cookies ≡ w.cookies
with_retry-cookies (too_many_requests n) w = refl
with_retry-cookies _ w = refl

refuse-cookies : (refusal : Refusal) (w : Response) → (refuse refusal w).cookies ≡ w.cookies
unfolding refuse http_error
refuse-cookies refusal w = with_retry-cookies refusal w

refuse-status : (refusal : Refusal) (w : Response) → (refuse refusal w).status ≡ status_of refusal
unfolding refuse http_error
refuse-status refusal w = refl

no_store-cookies : (w : Response) → (set_no_store_headers w).cookies ≡ w.cookies
unfolding set_no_store_headers
no_store-cookies w = refl

no_store-status : (w : Response) → (set_no_store_headers w).status ≡ w.status
unfolding set_no_store_headers
no_store-status w = refl

module _ ⦃parsers : Parsers⦄ ⦃u : Unicode⦄ ⦃crypto : Crypto⦄ ⦃net : AddressParser⦄
    (states : Codec ReturnStateClaims) (cookies : Codec AllowCookieClaims) where
  -- A verification that succeeds: every check passed, the rate limit let it through, Cap accepted
  -- the token, the configured name is one that a cookie may have, and the one cookie is set.
  pub record Succeeds (ask_cap : Bytes → Option Bool) (bb : Protector) (r : Request)
      (body : Content) (now : ℕ) (answer : Response) : Type 0 where
    pub admitted : Admitted
    pub cookie : Cookie
    pub checked : admit states bb r body now ≡ ok admitted
    pub in_time : (allow_verify_attempt bb.verify_rate_limits admitted.client now).allowed ≡ true
    pub accepted : ask_cap admitted.request.token ≡ some true
    pub made_cookie : write_allow_cookie cookies bb now ≡ ok cookie
    pub named : is_token bb.cookie_name ≡ true
    pub sets : answer.cookies ≡ cookie ∷ []
    pub tells : answer.body ≡ verified (safe_return_path_from admitted.claims.return_path)
    pub status_ok : answer.status ≡ 200

  -- The same, but the configured name is none that a cookie may have: the answer tells of a success,
  -- and sets no cookie.
  pub record IsDropped (ask_cap : Bytes → Option Bool) (bb : Protector) (r : Request)
      (body : Content) (now : ℕ) (answer : Response) : Type 0 where
    pub admitted : Admitted
    pub checked : admit states bb r body now ≡ ok admitted
    pub in_time : (allow_verify_attempt bb.verify_rate_limits admitted.client now).allowed ≡ true
    pub accepted : ask_cap admitted.request.token ≡ some true
    pub unnamed : is_token bb.cookie_name ≡ false
    pub none_set : answer.cookies ≡ []
    pub tells : answer.body ≡ verified (safe_return_path_from admitted.claims.return_path)
    pub status_ok : answer.status ≡ 200

  abbrev IsStart : Response → Type 0
  IsStart w = (w.cookies ≡ []) × (w.status ≡ 200)

  -- A verification that does not: no cookie, and an error status.
  abbrev pub IsRefused : Response → Type 0
  IsRefused answer = (answer.cookies ≡ []) × (answer.status ≢ 200)

  status_of-ne : (refusal : Refusal) → status_of refusal ≢ 200
  status_of-ne (too_many_requests n) = omega arith
  status_of-ne (state_invalid e) = omega arith
  status_of-ne _ = omega arith

  refuse-IsRefused : (refusal : Refusal) (w : Response) → IsStart w → IsRefused (refuse refusal w)
  refuse-IsRefused refusal w (c, s) =
      (refuse-cookies refusal w ∙ c, λ e. status_of-ne refusal (sym (refuse-status refusal w) ∙ e))

  written_outcome :
      (ask_cap : Bytes → Option Bool) (bb : Protector) (r : Request) (body : Content) (now : ℕ)
      (w : Response) (a : Admitted) (cookie : Cookie)
      → IsStart w
      → admit states bb r body now ≡ ok a
      → (allow_verify_attempt bb.verify_rate_limits a.client now).allowed ≡ true
      → ask_cap a.request.token ≡ some true
      → write_allow_cookie cookies bb now ≡ ok cookie
      → let answer = cookie_written states cookies (ok cookie) a w in
        Succeeds ask_cap bb r body now answer
        ⊎ IsDropped ask_cap bb r body now answer
        ⊎ IsRefused answer
  unfolding set_cookie
  written_outcome ask_cap bb r body now w a cookie start admitted in_time accepted written =
      let same_name : cookie.name ≡ bb.cookie_name =
        write_allow_cookie-name cookies bb now written in
      elim (Bool-cases (is_token cookie.name)) [
        | inl good ↦ rw good (
            inl (record {
              admitted = a;
              cookie = cookie;
              checked = admitted;
              in_time = in_time;
              accepted = accepted;
              made_cookie = written;
              named = rw (← same_name) good;
              sets = rw (start.0);
              tells = refl;
              status_ok = start.1;
            }))
        | inr bad ↦ rw bad (
            inr (
              inl (record {
                admitted = a;
                checked = admitted;
                in_time = in_time;
                accepted = accepted;
                unnamed = rw (← same_name) bad;
                none_set = start.0;
                tells = refl;
                status_ok = start.1;
              })))
      ]

  step_outcome :
      (ask_cap : Bytes → Option Bool) (bb : Protector) (r : Request) (body : Content) (now : ℕ)
      (w : Response)
      → IsStart w
      → Succeeds ask_cap bb r body now
          (admitted_step states cookies bb now ask_cap (admit states bb r body now) w).1
        ⊎ IsDropped ask_cap bb r body now
            (admitted_step states cookies bb now ask_cap (admit states bb r body now) w).1
        ⊎ IsRefused (admitted_step states cookies bb now ask_cap (admit states bb r body now) w).1
  step_outcome ask_cap bb r body now w start = elim (Result-cases (admit states bb r body now)) [
    | inr (e, refused) ↦ rw refused (inr (inr (refuse-IsRefused e w start)))
    | inl (a, admitted) ↦
        let attempt = allow_verify_attempt bb.verify_rate_limits a.client now in
        elim (Bool-cases attempt.allowed) [
          | inr late ↦
              rw (admitted, late)
                (inr (
                  inr (
                    refuse-IsRefused (too_many_requests (retry_after_seconds attempt.retry_after)) w
                      start)))
          | inl in_time ↦ elim (Option-cases (ask_cap a.request.token)) [
            | inl silent ↦
                rw (admitted, in_time, silent) (inr (inr (refuse-IsRefused cap_failed w start)))
            | inr (verdict, said) ↦ elim (Bool-cases verdict) [
              | inr no_token ↦
                  rw (admitted, in_time, said, no_token)
                    (inr (inr (refuse-IsRefused cap_rejected w start)))
              | inl good ↦ elim (Result-cases (write_allow_cookie cookies bb now)) [
                | inr (e, failed) ↦
                    rw (admitted, in_time, said, good, failed)
                      (inr (inr (refuse-IsRefused cookie_failed w start)))
                | inl (cookie, written) ↦
                    rw (admitted, in_time, said, good, written)
                      (written_outcome ask_cap bb r body now w a cookie start admitted in_time
                        (said ∙ ap some good) written)
              ]
            ]
          ]
        ]
  ]

  -- On a fresh response a verification either succeeds, with every check passed, a configured
  -- cookie name that is a token, and one cookie set; or it passes every check, but the configured
  -- name is no token, so that it answers as a success and sets no cookie; or it sets no cookie and
  -- answers with a status other than 200. None of these answers may be stored.
  pub handle_verify_outcome :
      (ask_cap : Bytes → Option Bool) (bb : Protector) (r : Request) (body : Content) (now : ℕ)
      (w : Response)
      → w.cookies ≡ []
      → w.status ≡ 200
      → (Succeeds ask_cap bb r body now (handle_verify states cookies ask_cap bb r body now w).1
          ⊎ IsDropped ask_cap bb r body now (handle_verify states cookies ask_cap bb r body now w).1
          ⊎ IsRefused (handle_verify states cookies ask_cap bb r body now w).1)
        × IsUnstored (handle_verify states cookies ask_cap bb r body now w).1
  unfolding handle_verify
  handle_verify_outcome ask_cap bb r body now w none_set fine = (
    step_outcome ask_cap bb r body now (set_no_store_headers w)
        (no_store-cookies w ∙ none_set, no_store-status w ∙ fine),
    handle_verify-IsUnstored states cookies ask_cap bb r body now w,
  )
