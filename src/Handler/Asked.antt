-- ===== src/Handler/Asked.antt =====
-- A request that is served by a module which asks Cap over the network.
use caddy_protector.Base.{suc, ◌≤◌, ◌≡◌, true, false, some, [], is_nil, all, length}
use caddy_protector.Text.Unicode.{Unicode}
use caddy_protector.Http.{Request, Response}
use caddy_protector.IpList.{AddressParser}
use caddy_protector.Protector.{Protector}
use caddy_protector.Filters.{Escapes}
use caddy_protector.Challenge.{Template}
use caddy_protector.Token.{Crypto, Codec, ReturnStateClaims, AllowCookieClaims}
use caddy_protector.Config.{UrlParser}
use caddy_protector.Outbound.{max_outbound_redirects}
use caddy_protector.Outbound.Client.{Web, client_do}
use caddy_protector.Verify.{Parsers, VerifyRequest}
use caddy_protector.Verify.Admission.{admit-IsAdmitted}
use caddy_protector.Verify.Siteverify.{
  CapApi, ask_cap, ask_cap-IsAsked, post_request, at_home, IsAsked, contacts_at_home,
}
use caddy_protector.Handler.{answered, Outside, serve_http}
use caddy_protector.Handler.Journey.{serve_http-set_cookie}

module _ ⦃urls : UrlParser⦄ ⦃parsers : Parsers⦄ ⦃u : Unicode⦄ ⦃escapes : Escapes⦄ ⦃crypto : Crypto⦄
    ⦃net : AddressParser⦄ (states : Codec ReturnStateClaims) (cookies : Codec AllowCookieClaims)
    (template : Template) (web : Web) (api : CapApi) where
  -- Cap's answers come over the network.
  abbrev pub online : Protector → Outside → Outside
  online bb out = record out { ask_cap = ask_cap web api bb }

  -- A fresh response gets a cookie only if Cap was asked for the token of the posted body, at the
  -- configured URL, and answered with a status from 200 to 299 and with success; of at most four
  -- requests for it, each went to the origin of that URL, over HTTPS if the URL is, and to a public
  -- address, or to this machine for a URL on it.
  pub serve_http-IsAsked :
      (bb : Protector) (r : Request) (out : Outside) (w answer : Response)
      → w.cookies ≡ []
      → w.status ≡ 200
      → (serve_http states cookies template bb r (online bb out) w).1 ≡ answered answer
      → is_nil answer.cookies ≡ false
      → (request : VerifyRequest) × (parsers.decode_request out.body.text ≡ some (request, true))
        × (asked : IsAsked web api bb request.token true) × (all
              (at_home asked.policy)
              (client_do web asked.policy (post_request asked.payload asked.policy.origin)).contacts
            ≡ true)
        × (length
              (client_do web asked.policy (post_request asked.payload asked.policy.origin)).contacts
            ≤ suc max_outbound_redirects)
  serve_http-IsAsked bb r out w answer clean fine done set =
      let (_, _, good) =
        serve_http-set_cookie states cookies template bb r (online bb out) w answer clean fine done
          set in
      let checked =
        admit-IsAdmitted states bb r out.body out.verify_time good.admitted good.checked in
      let asked = ask_cap-IsAsked web api bb good.admitted.request.token true good.accepted in
      let (home, few) = contacts_at_home web api bb asked.payload asked.policy asked.made in
      (good.admitted.request, checked.alone, asked, home, few)
