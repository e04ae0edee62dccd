-- ===== src/Handler/Journey.antt =====
-- A browser's way from a challenge over its verification to the upstream.
use caddy_protector.Base.{
  ℕ, ◌+◌, ◌≡◌, refl, sym, ap, subst, ◌∙◌, inl, inr, true, false, ◌&&◌, some, List, [], ◌∷◌, ◌++◌,
  is_nil, length, arith, Bool-cases,
}
use caddy_protector.Base.Int.{pos, leb_ℤ, ltb_ℤ, ◌+ℤ◌}
use caddy_protector.Base.Result.{ok, ok-injective}
use caddy_protector.Text.{Bytes, codes, same}
use caddy_protector.Text.Unicode.{Unicode, trim_space}
use caddy_protector.Http.{
  Request, Response, Cookie, SameSite, is_token, set_cookie, verified, http_error, cookie_of,
  header_get,
}
use caddy_protector.Netip.{Addr, unmap}
use caddy_protector.IpList.{AddressParser}
use caddy_protector.Protector.{Protector}
use caddy_protector.RateLimit.{allow_verify_attempt}
use caddy_protector.Filters.{Escapes}
use caddy_protector.Challenge.{Template, set_no_store_headers}
use caddy_protector.Token.{
  Crypto, Codec, ReturnStateClaims, AllowCookieClaims, unix, return_state_valid_for,
  create_return_state, verify_return_state, write_allow_cookie, has_valid_allow_cookie,
  parse_same_site_mode,
}
use caddy_protector.Token.Signed.{trim_space-sign_value}
use caddy_protector.Token.ReturnState.{claims_for, verify-create_return_state}
use caddy_protector.Token.AllowCookie.{
  claims_at, valid-write_allow_cookie, write_allow_cookie-made, write_allow_cookie-name,
}
use caddy_protector.ReturnPath.{safe_return_path_from}
use caddy_protector.ReturnPath.Safety.{safe_return_path_from_idempotent}
use caddy_protector.Verify.{
  Parsers, Content, Admitted, VerifyRequest, decode_verify_request, is_json_content_type,
  get_client_ip, admit, cookie_written, handle_verify,
}
use caddy_protector.Verify.Outcome.{Succeeds, handle_verify_outcome}
use caddy_protector.Handler.{Outcome, passed, answered, Outside, post, serve_http}
use caddy_protector.Handler.Decision.{is_verify, denied, serve_http-passed_iff}
use caddy_protector.Handler.Flow.{serve_http-no_cookie}

-- An answer's cookies.
abbrev cookies_of : Outcome → List Cookie
cookies_of (answered w) = w.cookies
cookies_of _ = []

answered-injective : {a b : Response} → answered a ≡ answered b → a ≡ b
answered-injective h = cc

head-eq : {a b : Cookie} → ◌≡◌ {A = List Cookie} (a ∷ []) (b ∷ []) → a ≡ b
head-eq h = cc

absurd_cookies : {A : Type 0} (w : Response) → w.cookies ≡ [] → is_nil w.cookies ≡ false → A
absurd_cookies w h k = cc (rw h at k)

module _ ⦃parsers : Parsers⦄ ⦃u : Unicode⦄ ⦃crypto : Crypto⦄ ⦃net : AddressParser⦄
    (states : Codec ReturnStateClaims) (cookies : Codec AllowCookieClaims) where
  -- The body of a browser that was challenged.
  abbrev pub solved : Bytes → Bytes → VerifyRequest
  solved token raw = record { token = token; state = raw }

  abbrev pub admitted_browser : Bytes → Bytes → Bytes → ℕ → Addr → Admitted
  admitted_browser token raw path start addr = record {
    request = solved token raw;
    claims = claims_for path start;
    client = unmap addr;
  }

  own_state :
      (key path raw : Bytes) (start now : ℕ)
      → length key ≡ 32
      → states.carries (claims_for path start) ≡ true
      → create_return_state states key path start ≡ ok raw
      → leb_ℤ (unix (pos (start + return_state_valid_for))) (unix (pos now)) ≡ false
      → verify_return_state states key raw now ≡ ok (claims_for path start)
  own_state key path raw start now size fits given fresh =
      let (raw', e, read) = verify-create_return_state states key path start size fits in
      let same_raw : raw' ≡ raw = ok-injective (sym e ∙ given) in
      subst (λ s. verify_return_state states key s now ≡ ok (claims_for path start)) same_raw
        (rw (read now, fresh))

  own_state-filled :
      (key path raw : Bytes) (start : ℕ)
      → create_return_state states key path start ≡ ok raw
      → is_nil (trim_space raw) ≡ false
  unfolding create_return_state
  own_state-filled key path raw start given =
      trim_space-sign_value states (claims_for path start) key given

  admit-own_state :
      (bb : Protector) (r : Request) (body : Content) (path token raw : Bytes) (start now : ℕ)
      (addr : Addr)
      → is_json_content_type (header_get (codes "Content-Type") r.headers) ≡ true
      → decode_verify_request body ≡ some (solved token raw)
      → is_nil (trim_space token) ≡ false
      → is_nil (trim_space raw) ≡ false
      → verify_return_state states bb.return_state_mac_key raw now ≡ ok (claims_for path start)
      → net.parse_addr (get_client_ip r) ≡ some addr
      → admit states bb r body now ≡ ok (admitted_browser token raw path start addr)
  unfolding admit
  admit-own_state bb r body path token raw start now addr typed decoded given filled good parsed =
      rw (typed, decoded, given, filled, good, parsed)

module _ ⦃parsers : Parsers⦄ ⦃u : Unicode⦄ ⦃escapes : Escapes⦄ ⦃crypto : Crypto⦄
    ⦃net : AddressParser⦄ (states : Codec ReturnStateClaims) (cookies : Codec AllowCookieClaims)
    (template : Template) where
  -- A browser that was challenged, and posts to the verify path, as JSON, the state of its
  -- challenge before it expires, with a token that is not blank and that Cap accepts, from a client
  -- address that parses and within its rate limit, gets the cookie and the path it came from. The
  -- keys have 32 bytes, the claims fit JSON, the configured SameSite mode is one and the configured
  -- cookie name is a token.
  pub serve_http-solved :
      (bb : Protector) (r : Request) (out : Outside) (w : Response) (path token raw : Bytes)
      (start : ℕ) (addr : Addr) (mode : SameSite)
      → length bb.return_state_mac_key ≡ 32
      → length bb.cookie_mac_key ≡ 32
      → states.carries (claims_for path start) ≡ true
      → cookies.carries (claims_at bb out.verify_time) ≡ true
      → parse_same_site_mode bb.cookie_same_site ≡ some mode
      → is_token bb.cookie_name ≡ true
      → create_return_state states bb.return_state_mac_key path start ≡ ok raw
      → leb_ℤ (unix (pos (start + return_state_valid_for))) (unix (pos out.verify_time)) ≡ false
      → same r.path bb.verify_path ≡ true
      → same r.method post ≡ true
      → is_json_content_type (header_get (codes "Content-Type") r.headers) ≡ true
      → decode_verify_request out.body ≡ some (solved states cookies token raw)
      → is_nil (trim_space token) ≡ false
      → net.parse_addr (get_client_ip r) ≡ some addr
      → (allow_verify_attempt bb.verify_rate_limits (unmap addr) out.verify_time).allowed ≡ true
      → out.ask_cap token ≡ some true
      → (cookie : Cookie) × (answer : Response) × (write_allow_cookie cookies bb out.verify_time
          ≡ ok cookie)
        × ((serve_http states cookies template bb r out w).1 ≡ answered answer)
        × (answer.status ≡ w.status)
        × (answer.cookies ≡ w.cookies ++ cookie ∷ [])
        × (answer.body ≡ verified (safe_return_path_from path))
  unfolding serve_http handle_verify set_no_store_headers set_cookie
  serve_http-solved bb r out w path token raw start addr mode size size' fits fits' parsed named
        issued fresh here posted typed decoded given client_known in_time accepted =
      let (cookie, written, _, _) =
        write_allow_cookie-made cookies bb out.verify_time mode size' fits' parsed in
      let good_name : is_token cookie.name ≡ true =
        rw (write_allow_cookie-name cookies bb out.verify_time written) named in
      let checked =
        admit-own_state states cookies bb r out.body path token raw start out.verify_time addr typed
          decoded given
          (own_state-filled states cookies bb.return_state_mac_key path raw start issued)
          (own_state states cookies bb.return_state_mac_key path raw start out.verify_time size fits
            issued fresh)
          client_known in
      (
        cookie,
        cookie_written states cookies (ok cookie)
            (admitted_browser states cookies token raw path start addr) (set_no_store_headers w),
        written,
        rw (here, posted, checked, in_time, accepted, written) refl,
        refl,
        rw good_name refl,
        ap verified (safe_return_path_from_idempotent path),
      )

  -- Only a successful verification, a POST to the verify path, makes an answer with a cookie from a
  -- fresh response: the checks passed, the rate limit let it through and Cap accepted the token.
  pub serve_http-set_cookie :
      (bb : Protector) (r : Request) (out : Outside) (w answer : Response)
      → w.cookies ≡ []
      → w.status ≡ 200
      → (serve_http states cookies template bb r out w).1 ≡ answered answer
      → is_nil answer.cookies ≡ false
      → (same r.path bb.verify_path ≡ true)
        × (same r.method post ≡ true)
        × Succeeds states cookies out.ask_cap bb r out.body out.verify_time answer
  unfolding serve_http http_error
  serve_http-set_cookie bb r out w answer clean fine done set =
      elim (Bool-cases (same r.path bb.verify_path)) [
        | inr away ↦
            absurd_cookies answer
              (serve_http-no_cookie states cookies template bb r out w answer away done ∙ clean) set
        | inl here ↦ elim (Bool-cases (same r.method post)) [
          | inr wrong ↦
              absurd_cookies answer (sym (ap cookies_of (rw (here, wrong) at done)) ∙ clean) set
          | inl right ↦
              let told = answered-injective (rw (here, right) at done) in
              elim (handle_verify_outcome states cookies out.ask_cap bb r out.body out.verify_time w
                clean fine).0 [
                  | inl good ↦ (
                    here,
                    right,
                    subst (Succeeds states cookies out.ask_cap bb r out.body out.verify_time) told
                        good,
                  )
                  | inr (inl dropped) ↦
                      absurd_cookies answer
                        (sym (ap (λ (a : Response). a.cookies) told) ∙ dropped.none_set) set
                  | inr (inr (none_set, status)) ↦
                      absurd_cookies answer (sym (ap (λ (a : Response). a.cookies) told) ∙ none_set)
                        set
                ]
        ]
      ]

  -- A browser that sends back the cookie of an answer, to a module with the same MAC key, passes,
  -- unless its request is to the verify path or is denied, from the second of the verification
  -- until the second in which the cookie expires. The MAC key has 32 bytes, the claims fit JSON and
  -- the response was fresh.
  pub serve_http-with_cookie :
      (bb bb' : Protector) (r r' : Request) (out out' : Outside) (w w' answer : Response)
      (cookie : Cookie)
      → length bb.cookie_mac_key ≡ 32
      → cookies.carries (claims_at bb out.verify_time) ≡ true
      → w.cookies ≡ []
      → w.status ≡ 200
      → (serve_http states cookies template bb r out w).1 ≡ answered answer
      → answer.cookies ≡ cookie ∷ []
      → bb'.cookie_mac_key ≡ bb.cookie_mac_key
      → cookie_of bb'.cookie_name r' ≡ some cookie.value
      → (ltb_ℤ (unix (pos out'.cookie_time)) (unix (pos out.verify_time +ℤ bb.allow_for))
          && leb_ℤ (unix (pos out.verify_time)) (unix (pos out'.cookie_time)))
        ≡ true
      → is_verify states cookies template bb' r' ≡ false
      → denied states cookies template bb' r' ≡ false
      → (serve_http states cookies template bb' r' out' w').1 ≡ passed
  serve_http-with_cookie bb bb' r r' out out' w w' answer cookie size fits clean fine done set kept
        sent in_time away clear =
      let (_, _, good) = serve_http-set_cookie bb r out w answer clean fine done (rw set) in
      let same_cookie : good.cookie ≡ cookie = head-eq (sym good.sets ∙ set) in
      let valid : has_valid_allow_cookie cookies bb' r' out'.cookie_time ≡ true =
        valid-write_allow_cookie cookies bb bb' out.verify_time cookie r' out'.cookie_time size fits
          (good.made_cookie ∙ ap ok same_cookie) kept sent
        ∙ in_time in
      (serve_http-passed_iff states cookies template bb' r' out' w').1 (ground arith)
