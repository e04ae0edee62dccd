-- ===== src/Lifecycle/Visit.antt =====
-- A browser's visit to a module that was provisioned, among whatever else the module does.
use caddy_protector.Base.{
  ℕ, ◌+◌, ◌≡◌, refl, ap, sym, ◌∙◌, true, false, ◌&&◌, none, some, List, [], ◌∷◌, ◌++◌, is_nil,
  length, arith,
}
use caddy_protector.Base.Int.{pos, leb_ℤ, ltb_ℤ, ◌+ℤ◌}
use caddy_protector.Base.Result.{Result, ok, err}
use caddy_protector.Text.{Bytes, codes, same, same_iff}
use caddy_protector.Text.Unicode.{Unicode, trim_space}
use caddy_protector.Http.{Request, Response, Cookie, find_cookie, is_token, header_get, cookie_of}
use caddy_protector.Netip.{Addr, unmap}
use caddy_protector.IpList.{AddressParser, ListError}
use caddy_protector.Protector.{Settings, IpAllowlist, Protector}
use caddy_protector.RateLimit.{allow_verify_attempt}
use caddy_protector.Filters.{Escapes}
use caddy_protector.Challenge.{Template}
use caddy_protector.Token.{
  Crypto, Codec, ReturnStateClaims, AllowCookieClaims, unix, return_state_valid_for,
  create_return_state,
}
use caddy_protector.Token.ReturnState.{claims_for}
use caddy_protector.Token.AllowCookie.{claims_at}
use caddy_protector.Verify.{Parsers, decode_verify_request, is_json_content_type, get_client_ip}
use caddy_protector.Token.AllowCookie.{write_allow_cookie-name}
use caddy_protector.Handler.{answered, Outcome, passed, Outside, post, serve_http}
use caddy_protector.Handler.Decision.{is_verify, denied}
use caddy_protector.Handler.Flow.{serve_http_rest}
use caddy_protector.Handler.Journey.{solved, serve_http-solved, serve_http-with_cookie}
use caddy_protector.Config.{UrlParser}
use caddy_protector.Config.Provision.{load_allowlist, load_blacklist, Sources, provision}
use caddy_protector.Config.Served.{provision-IsServed}
use caddy_protector.Lifecycle.{
  World, store_allowlist, store_blacklist, allowlist_tick, blacklist_tick, set_country_db,
  store_country, country_tick, cleanup, after_request, Step, refresh_allowlist, refresh_blacklist,
  refresh_country, serve, clean_up, Steps, here, step,
}
use caddy_protector.Config.Served.{load_country_db-cases}
use caddy_protector.Config.Provision.{Opened, opened_as, Sources}
use caddy_protector.Base.{inl, inr}

one_cookie : (old : List Cookie) {c c' : Cookie} → old ≡ [] → c ≡ c' → old ++ c ∷ [] ≡ c' ∷ []
one_cookie old none_set same_cookie = rw (none_set, same_cookie)

-- The cookies of an answer, as a browser sends them back.
abbrev pub cookie_pairs : List Cookie → List (Bytes × Bytes)
cookie_pairs [] = []
cookie_pairs (c ∷ cs) = (c.name, c.value) ∷ cookie_pairs cs

abbrev pub sending_back : Outcome → Request → Request
sending_back (answered w) r = record r { cookies = cookie_pairs w.cookies }
sending_back _ r = r

sending_back-cookie :
    (r : Request) (answer : Response) (cookie : Cookie) (name : Bytes)
    → answer.cookies ≡ cookie ∷ []
    → cookie.name ≡ name
    → is_token name ≡ true
    → cookie_of name (sending_back (answered answer) r) ≡ some cookie.value
unfolding cookie_of find_cookie is_token
sending_back-cookie r answer cookie name alone same_name good =
    let filled : is_nil name ≡ false = ground arith in
    rw (alone, same_name, filled, (same_iff name name).1 refl)

-- What no step changes.
pub record IsSame (w v : World) : Type 0 where
  pub settings : v.bb.settings ≡ w.bb.settings
  pub state_key : v.bb.return_state_mac_key ≡ w.bb.return_state_mac_key
  pub cookie_key : v.bb.cookie_mac_key ≡ w.bb.cookie_mac_key

IsSame-refl : (w : World) → IsSame w w
IsSame-refl w = record { settings = refl; state_key = refl; cookie_key = refl }

IsSame-trans : (w v z : World) → IsSame w v → IsSame v z → IsSame w z
IsSame-trans w v z h k = record {
  settings = k.settings ∙ h.settings;
  state_key = k.state_key ∙ h.state_key;
  cookie_key = k.cookie_key ∙ h.cookie_key;
}

store-IsSame :
    (w : World) (url body : Bytes) (found : Opened)
    → IsSame w (store_country (opened_as w.opened url body found) w)
unfolding set_country_db
store-IsSame w url body none = IsSame-refl w
store-IsSame w url body (some iso_code) = record {
  settings = refl;
  state_key = refl;
  cookie_key = refl;
}

country_tick-IsSame : (w : World) (from : Sources) → IsSame w (country_tick from w)
unfolding country_tick
country_tick-IsSame w from = elim (load_country_db-cases w.opened from w.bb.country_url) [
  | inl failed ↦ rw failed (IsSame-refl w)
  | inr (body, iso_code, loaded) ↦ rw loaded (store-IsSame w w.bb.country_url body (some iso_code))
]

store_allowlist-IsSame :
    (w : World) (loaded : Result ListError IpAllowlist) → IsSame w (store_allowlist loaded w)
store_allowlist-IsSame w (err e) = IsSame-refl w
store_allowlist-IsSame w (ok l) = record { settings = refl; state_key = refl; cookie_key = refl }

store_blacklist-IsSame :
    (w : World) (loaded : Result ListError IpAllowlist) → IsSame w (store_blacklist loaded w)
store_blacklist-IsSame w (err e) = IsSame-refl w
store_blacklist-IsSame w (ok l) = record { settings = refl; state_key = refl; cookie_key = refl }

module _ ⦃parsers : Parsers⦄ ⦃u : Unicode⦄ ⦃escapes : Escapes⦄ ⦃crypto : Crypto⦄
    ⦃net : AddressParser⦄ (states : Codec ReturnStateClaims) (cookies : Codec AllowCookieClaims)
    (template : Template) where
  after_request-IsSame :
      (w : World) (r : Request) (out : Outside) (answer : Response)
      → IsSame w (after_request states cookies template r out answer w)
  after_request-IsSame w r out answer =
      let kept = serve_http_rest states cookies template w.bb r out answer in
      record {
        settings = ap (λ (bb : Protector). bb.settings) kept;
        state_key = ap (λ (bb : Protector). bb.return_state_mac_key) kept;
        cookie_key = ap (λ (bb : Protector). bb.cookie_mac_key) kept;
      }

  Step-IsSame : (w v : World) → Step states cookies template w v → IsSame w v
  unfolding cleanup set_country_db allowlist_tick blacklist_tick
  Step-IsSame _ _ (refresh_allowlist w from running) =
      store_allowlist-IsSame w (load_allowlist from w.bb)
  Step-IsSame _ _ (refresh_blacklist w from running) =
      store_blacklist-IsSame w (load_blacklist from w.bb)
  Step-IsSame _ _ (refresh_country w from running) = country_tick-IsSame w from
  Step-IsSame _ _ (serve w r out answer) = after_request-IsSame w r out answer
  Step-IsSame _ _ (clean_up w) = record { settings = refl; state_key = refl; cookie_key = refl }

  pub Steps-IsSame : (w v : World) → Steps states cookies template w v → IsSame w v
  Steps-IsSame _ _ (here w) = IsSame-refl w
  Steps-IsSame _ _ (step w v z first rest) =
      IsSame-trans w v z (Step-IsSame w v first) (Steps-IsSame v z rest)

module _ ⦃urls : UrlParser⦄ ⦃parsers : Parsers⦄ ⦃u : Unicode⦄ ⦃escapes : Escapes⦄ ⦃crypto : Crypto⦄
    ⦃net : AddressParser⦄ (states : Codec ReturnStateClaims) (cookies : Codec AllowCookieClaims)
    (template : Template) where
  -- After a module was provisioned, whatever it serves and refreshes before, between and after: a
  -- browser that posts to the verify path, as JSON, a state which was made with the key of the
  -- module and has not expired, with a token that is not blank and that Cap accepts, from a client
  -- address that parses and within its rate limit, gets one cookie; and a later request that sends
  -- back the cookies of that answer passes, unless it is to the verify path or is denied, from the
  -- second of the verification until the second in which the cookie expires. The claims fit JSON,
  -- the configured cookie name is a token and the response was fresh.
  pub Steps-passed :
      (from : Sources) (given : Protector) (w0 w1 w2 : World) (r r' : Request) (out out' : Outside)
      (before before' : Response) (path token raw : Bytes) (start : ℕ) (addr : Addr)
      → provision from given ≡ ok (w0.bb, w0.loops)
      → is_token w0.bb.cookie_name ≡ true
      → Steps states cookies template w0 w1
      → create_return_state states w0.bb.return_state_mac_key path start ≡ ok raw
      → states.carries (claims_for path start) ≡ true
      → leb_ℤ (unix (pos (start + return_state_valid_for))) (unix (pos out.verify_time)) ≡ false
      → same r.path w1.bb.verify_path ≡ true
      → same r.method post ≡ true
      → is_json_content_type (header_get (codes "Content-Type") r.headers) ≡ true
      → decode_verify_request out.body ≡ some (solved states cookies token raw)
      → is_nil (trim_space token) ≡ false
      → net.parse_addr (get_client_ip r) ≡ some addr
      → (allow_verify_attempt w1.bb.verify_rate_limits (unmap addr) out.verify_time).allowed ≡ true
      → out.ask_cap token ≡ some true
      → cookies.carries (claims_at w1.bb out.verify_time) ≡ true
      → before.cookies ≡ []
      → before.status ≡ 200
      → Steps states cookies template (after_request states cookies template r out before w1) w2
      → (ltb_ℤ (unix (pos out'.cookie_time)) (unix (pos out.verify_time +ℤ w1.bb.allow_for))
          && leb_ℤ (unix (pos out.verify_time)) (unix (pos out'.cookie_time)))
        ≡ true
      → let first = (serve_http states cookies template w1.bb r out before).1 in
        is_verify states cookies template w2.bb (sending_back first r') ≡ false
        → denied states cookies template w2.bb (sending_back first r') ≡ false
        → (cookie : Cookie) × (answer : Response) × (first ≡ answered answer)
          × (answer.cookies ≡ cookie ∷ [])
          × ((serve_http states cookies template w2.bb (sending_back first r') out' before').1
              ≡ passed)
  Steps-passed from given w0 w1 w2 r r' out out' before before' path token raw start addr set_up
        named earlier issued fits fresh on_path posted typed decoded token_given client in_time
        accepted fits' clean fine later valid away clear =
      let ready = (provision-IsServed from given w0.bb w0.loops set_up).ready in
      let since = Steps-IsSame states cookies template w0 w1 earlier in
      let solved_since = after_request-IsSame states cookies template w1 r out before in
      let last =
        Steps-IsSame states cookies template (after_request states cookies template r out before w1)
          w2 later in
      let key_size = ap length since.cookie_key ∙ ready.cookie_key in
      let (cookie, answer, made, done, _, sets, _) =
        serve_http-solved states cookies template w1.bb r out before path token raw start addr
          ready.mode (ap length since.state_key ∙ ready.state_key) key_size fits fits'
          (rw since.settings ready.mode_parsed) (rw since.settings named)
          (rw since.state_key issued) fresh on_path posted typed decoded token_given client in_time
          accepted in
      let alone : answer.cookies ≡ cookie ∷ [] = sets ∙ one_cookie before.cookies clean refl in
      let same_name : cookie.name ≡ w2.bb.cookie_name =
        write_allow_cookie-name cookies w1.bb out.verify_time made
        ∙ ap (λ (s : Settings). s.cookie_name) (sym (last.settings ∙ solved_since.settings)) in
      let good_name : is_token w2.bb.cookie_name ≡ true =
        rw (last.settings, solved_since.settings, since.settings) named in
      let sent = sending_back-cookie r' answer cookie w2.bb.cookie_name alone same_name good_name in
      let returned : cookie_of w2.bb.cookie_name
            (sending_back (serve_http states cookies template w1.bb r out before).1 r')
          ≡ some cookie.value =
        rw done sent in
      (
        cookie,
        answer,
        done,
        alone,
        serve_http-with_cookie states cookies template w1.bb w2.bb r (sending_back _ r') out out'
            before before' answer cookie key_size fits' clean fine done alone
            (last.cookie_key ∙ solved_since.cookie_key) returned valid away clear,
      )
