-- ===== src/Handler/Challenged.antt =====
-- A request that is asked for a proof.
use caddy_protector.Base.{◌≡◌, Bool, true, not, ◌&&◌, some, length}
use caddy_protector.Text.{Bytes}
use caddy_protector.Text.Unicode.{Unicode}
use caddy_protector.Http.{Request, Response}
use caddy_protector.IpList.{AddressParser}
use caddy_protector.Protector.{Protector}
use caddy_protector.Filters.{Escapes}
use caddy_protector.ReturnPath.{get_original_path}
use caddy_protector.Challenge.{Template, PageData, serve_challenge, nonce_length}
use caddy_protector.Challenge.Nonce.{IsBytes}
use caddy_protector.Challenge.Page.{IsChallenge, serve_challenge-IsChallenge}
use caddy_protector.Token.{Crypto, Codec, ReturnStateClaims, AllowCookieClaims}
use caddy_protector.Token.ReturnState.{claims_for}
use caddy_protector.Verify.{Parsers}
use caddy_protector.Handler.{answered, has_bypass_key, Outside, serve_http}
use caddy_protector.Handler.Decision.{is_verify, denied, cleared, serve_http-challenge}

module _ ⦃parsers : Parsers⦄ ⦃u : Unicode⦄ ⦃escapes : Escapes⦄ ⦃crypto : Crypto⦄
    ⦃net : AddressParser⦄ (states : Codec ReturnStateClaims) (cookies : Codec AllowCookieClaims)
    (template : Template) (execute : PageData → Bytes × Bool) where
  -- Nothing lets the request through, and nothing denies it.
  abbrev pub undecided : Protector → Request → Outside → Bool
  undecided bb r out =
      not (is_verify states cookies template bb r)
      && not (has_bypass_key bb r)
      && not (denied states cookies template bb r)
      && not (cleared states cookies template bb r out)

  -- A request that nothing lets through and nothing denies, and that is not to the verify path, is
  -- answered with status 200 and the page that the template makes of a return state, of the
  -- addresses and of a nonce; the page may not be stored, its policy is that of the nonce, unless
  -- it is switched off, and names the nonce, which has two hexadecimal digits for each random byte;
  -- the state verifies to the safe path until it expires, and the module stays as it is. The MAC
  -- key has 32 bytes, the claims fit JSON, there are random bytes, and the template runs to its
  -- end.
  pub serve_http-IsChallenge :
      (bb : Protector) (r : Request) (out : Outside) (random : Bytes) (w : Response)
      → undecided bb r out ≡ true
      → length bb.return_state_mac_key ≡ 32
      → states.carries (claims_for (get_original_path r.orig_uri r.request_uri) out.challenge_time)
        ≡ true
      → out.random nonce_length ≡ some random
      → IsBytes random
      → template.execute ≡ some execute
      → ((content : PageData) → (execute content).1 ≡ true)
      → (answer : Response) × (serve_http states cookies template bb r out w
          ≡ (bb, answered answer))
        × IsChallenge states template execute bb r out.challenge_time random w answer
  serve_http-IsChallenge bb r out random w open_yet size fits drawn bytes loaded whole = (
    serve_challenge states template bb r out.challenge_time out.random w,
    serve_http-challenge states cookies template bb r out w open_yet,
    serve_challenge-IsChallenge states template execute bb r out.challenge_time out.random random w
        size fits drawn bytes loaded whole,
  )
