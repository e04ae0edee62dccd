-- ===== src/Challenge/Page.antt =====
-- What a challenge answers.
use caddy_protector.Base.{
  ℕ, ◌+◌, ◌*◌, ◌≡◌, refl, Bool, true, false, Option, none, some, if◌then◌else◌, all, length,
}
use caddy_protector.Base.Assoc.{lookup, lookup-insert}
use caddy_protector.Base.Int.{pos, leb_ℤ}
use caddy_protector.Base.Result.{ok, err}
use caddy_protector.Text.{Bytes, codes, contains, bytes_Eq}
use caddy_protector.Http.{Request, Response, page, set_header}
use caddy_protector.Protector.{Protector}
use caddy_protector.ReturnPath.{get_original_path}
use caddy_protector.Token.{
  Crypto, Codec, ReturnStateClaims, expired, unix, return_state_valid_for, create_return_state,
  verify_return_state,
}
use caddy_protector.Token.ReturnState.{claims_for, verify-create_return_state}
use caddy_protector.Challenge.{
  Template, PageData, page_data, page_or_error, with_page_headers, challenge_with_nonce,
  challenge_page_csp, hex, nonce_length, generate_csp_nonce, set_no_store_headers,
  render_challenge_page, serve_challenge,
}
use caddy_protector.Challenge.Nonce.{
  IsBytes, is_hex_digit, script_nonce, hex_lem, challenge_page_csp-nonce,
}

abbrev pub header : Bytes → Response → Option Bytes
header name w = lookup name w.headers

-- Headers that keep a page out of every store.
pub record IsUnstored (w : Response) : Type 0 where
  pub no_store : header (codes "Cache-Control") w ≡ some (codes "no-store")
  pub no_cache : header (codes "Pragma") w ≡ some (codes "no-cache")

-- The header of the policy, if there is a nonce.
abbrev pub policy_of : Protector → Option Bytes → Option Bytes → Option Bytes
policy_of bb none before = before
policy_of bb (some nonce) before = some (challenge_page_csp bb nonce)

-- The response before the page is written.
abbrev challenge_headers : Protector → Option Bytes → Response → Response
challenge_headers bb none w = with_page_headers w
challenge_headers bb (some nonce) w =
    set_header (codes "Content-Security-Policy") (challenge_page_csp bb nonce) (with_page_headers w)

challenge_headers-IsUnstored :
    (bb : Protector) (nonce : Option Bytes) (w : Response)
    → IsUnstored (challenge_headers bb nonce w)
unfolding set_no_store_headers
challenge_headers-IsUnstored bb none w = record {
  no_store = rw (lookup-insert, lookup-insert, lookup-insert, lookup-insert) refl;
  no_cache = rw (lookup-insert, lookup-insert, lookup-insert) refl;
}
challenge_headers-IsUnstored bb (some nonce) w = record {
  no_store = rw (lookup-insert, lookup-insert, lookup-insert, lookup-insert, lookup-insert) refl;
  no_cache = rw (lookup-insert, lookup-insert, lookup-insert, lookup-insert) refl;
}

challenge_headers-content :
    (bb : Protector) (nonce : Option Bytes) (w : Response)
    → (header (codes "Content-Type") (challenge_headers bb nonce w)
        ≡ some (codes "text/html; charset=utf-8"))
      × (header (codes "X-Bot-Barrier") (challenge_headers bb nonce w) ≡ some (codes "challenge"))
      × (header (codes "Content-Security-Policy") (challenge_headers bb nonce w)
          ≡ policy_of bb nonce (header (codes "Content-Security-Policy") w))
unfolding set_no_store_headers
challenge_headers-content bb none w = (
  rw (lookup-insert, lookup-insert) refl,
  rw lookup-insert refl,
  rw (lookup-insert, lookup-insert, lookup-insert, lookup-insert) refl,
)
challenge_headers-content bb (some nonce) w = (
  rw (lookup-insert, lookup-insert, lookup-insert) refl,
  rw (lookup-insert, lookup-insert) refl,
  rw lookup-insert refl,
)

-- A nonce that spells the random bytes, and that the policy names for scripts.
pub record IsNonce (bb : Protector) (random nonce : Bytes) : Type 0 where
  pub size : length nonce ≡ 2 * length random
  pub digits : all is_hex_digit nonce ≡ true
  pub named : contains (challenge_page_csp bb nonce) (script_nonce nonce) ≡ true

hex-IsNonce : (bb : Protector) (random : Bytes) → IsBytes random → IsNonce bb random (hex random)
hex-IsNonce bb random h = record {
  size = (hex_lem random h).0;
  digits = (hex_lem random h).1;
  named = challenge_page_csp-nonce bb (hex random);
}

abbrev pub nonce_for : Protector → Bytes → Option Bytes
nonce_for bb random = if bb.disable_csp_header then none else some (hex random)

module _ ⦃crypto : Crypto⦄ (codec : Codec ReturnStateClaims) (template : Template) where
  written :
      (result : Bytes × Bool) (w : Response)
      → result.1 ≡ true
      → page_or_error codec template result w ≡ record w { status = 200; body = page result.0 }
  written (text, true) w h = refl
  written (text, false) w h = cc

module _ ⦃crypto : Crypto⦄ (codec : Codec ReturnStateClaims) (template : Template)
    (execute : PageData → Bytes × Bool) where
  -- The page of a challenge: what it says, its headers, and that its state comes back.
  pub record IsChallenge (bb : Protector) (r : Request) (now : ℕ) (random : Bytes)
      (before answer : Response) : Type 0 where
    pub state : Bytes
    pub made :
        create_return_state codec bb.return_state_mac_key
          (get_original_path r.orig_uri r.request_uri)
          now
        ≡ ok state
    pub content :
        answer.body ≡ page (execute (page_data codec template bb state (nonce_for bb random))).0
    pub status_ok : answer.status ≡ 200
    pub unstored : IsUnstored answer
    pub html : header (codes "Content-Type") answer ≡ some (codes "text/html; charset=utf-8")
    pub marked : header (codes "X-Bot-Barrier") answer ≡ some (codes "challenge")
    pub policy :
        header (codes "Content-Security-Policy") answer
        ≡ policy_of bb (nonce_for bb random) (header (codes "Content-Security-Policy") before)
    pub nonce : IsNonce bb random (hex random)
    pub comes_back :
        (later : ℕ)
        → verify_return_state codec bb.return_state_mac_key state later ≡ (
            if leb_ℤ (unix (pos (now + return_state_valid_for))) (unix (pos later))
            then err expired
            else ok (claims_for (get_original_path r.orig_uri r.request_uri) now))

  page_of :
      (content : PageData) (w : Response)
      → template.execute ≡ some execute
      → (execute content).1 ≡ true
      → render_challenge_page codec template content w
        ≡ record w { status = 200; body = page (execute content).0 }
  unfolding render_challenge_page
  page_of content w loaded whole = rw loaded (written codec template (execute content) w whole)

  -- With the header of the policy or without it.
  page_with :
      (off : Bool) (bb : Protector) (random state : Bytes) (w : Response)
      → template.execute ≡ some execute
      → ((content : PageData) → (execute content).1 ≡ true)
      → (if off
          then render_challenge_page codec template
              (page_data codec template bb state none)
              (with_page_headers w)
          else challenge_with_nonce codec template bb state
              (some (hex random))
              (with_page_headers w))
        ≡ record (challenge_headers bb (if off then none else some (hex random)) w) {
          status = 200;
          body =
              page
                (execute
                  (page_data codec template bb state (if off then none else some (hex random)))).0;
        }
  page_with true bb random state w loaded whole =
      page_of (page_data codec template bb state none) (challenge_headers bb none w) loaded
        (whole _)
  page_with false bb random state w loaded whole =
      page_of (page_data codec template bb state (some (hex random)))
        (challenge_headers bb (some (hex random)) w) loaded (whole _)

  serve_challenge_page :
      (bb : Protector) (r : Request) (now : ℕ) (draw : ℕ → Option Bytes) (random state : Bytes)
      (w : Response)
      → draw nonce_length ≡ some random
      → create_return_state codec bb.return_state_mac_key
          (get_original_path r.orig_uri r.request_uri)
          now
        ≡ ok state
      → template.execute ≡ some execute
      → ((content : PageData) → (execute content).1 ≡ true)
      → serve_challenge codec template bb r now draw w
        ≡ record (challenge_headers bb (nonce_for bb random) w) {
          status = 200;
          body = page (execute (page_data codec template bb state (nonce_for bb random))).0;
        }
  unfolding serve_challenge generate_csp_nonce
  serve_challenge_page bb r now draw random state w drawn made loaded whole =
      rw (made, drawn) (page_with bb.disable_csp_header bb random state w loaded whole)

  -- A challenge answers with status 200 and the page that the template makes of a return state, of
  -- the addresses and of a nonce; it may not be stored, its policy is that of the nonce, unless it
  -- is switched off, and names the nonce, which has two hexadecimal digits for each random byte;
  -- and its state verifies to the safe path until it expires. The MAC key has 32 bytes, the claims
  -- fit JSON, the random bytes are bytes, and the template runs to its end.
  pub serve_challenge-IsChallenge :
      (bb : Protector) (r : Request) (now : ℕ) (draw : ℕ → Option Bytes) (random : Bytes)
      (w : Response)
      → length bb.return_state_mac_key ≡ 32
      → codec.carries (claims_for (get_original_path r.orig_uri r.request_uri) now) ≡ true
      → draw nonce_length ≡ some random
      → IsBytes random
      → template.execute ≡ some execute
      → ((content : PageData) → (execute content).1 ≡ true)
      → IsChallenge bb r now random w (serve_challenge codec template bb r now draw w)
  serve_challenge-IsChallenge bb r now draw random w size fits drawn bytes loaded whole =
      let (state, made, read) =
        verify-create_return_state codec bb.return_state_mac_key
          (get_original_path r.orig_uri r.request_uri) now size fits in
      let (html, marked, policy) = challenge_headers-content bb (nonce_for bb random) w in
      let unstored = challenge_headers-IsUnstored bb (nonce_for bb random) w in
      rw (serve_challenge_page bb r now draw random state w drawn made loaded whole) (record {
        state = state;
        made = made;
        content = refl;
        status_ok = refl;
        unstored = record { no_store = unstored.no_store; no_cache = unstored.no_cache };
        html = html;
        marked = marked;
        policy = policy;
        nonce = hex-IsNonce bb random bytes;
        comes_back = read;
      })
