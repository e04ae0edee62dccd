-- ===== src/Verify/Siteverify.antt =====
-- verification_handler.go, verifyCapToken: the request that asks Cap whether a token is good.
use caddy_protector.Base.{
  ℕ, suc, ◌≤◌, ◌≡◌, refl, arith, Bool, true, not, ◌&&◌, ◌||◌, all_mono, Option, none, some, all,
  length, take,
}
use caddy_protector.Base.Result.{
  Result, ok, err, map_err, map_err-eq-ok, or_err, or_err-eq-ok, require, require->>=, ◌>>=◌,
  >>=-eq-ok,
}
use caddy_protector.Text.{Bytes, codes, same}
use caddy_protector.Text.Unicode.{Unicode}
use caddy_protector.Netip.Classes.{is_loopback}
use caddy_protector.IpList.{AddressParser}
use caddy_protector.Protector.{Protector}
use caddy_protector.Challenge.{cap_site_verify_url}
use caddy_protector.Config.{Url, UrlParser, https_scheme}
use caddy_protector.Outbound.{
  OutboundPolicy, OutboundError, max_outbound_redirects, is_public_address, is_local, same_origin,
  new_outbound_policy,
}
use caddy_protector.Outbound.Reach.{reachable}
use caddy_protector.Outbound.Client.{Outgoing, Reply, Web, Contact, ClientError, client_do}
use caddy_protector.Outbound.Client.Contacts.{
  contact_allowed, new_outbound_policy-allowed, client_do-contacts,
}
use caddy_protector.Outbound.Download.{is_success}

-- encoding/json: an object with the fields "secret" and "response", and the field "success" of the
-- object at the start of a text.
pub record CapApi : Type 0 where
  pub encode_payload : Bytes → Bytes → Option Bytes
  pub decode_success : Bytes → Option Bool

pub data CapError : Type 0 where
  bad_payload bad_request bad_status bad_reply : CapError
  bad_client : OutboundError → CapError
  request_failed : ClientError → CapError

abbrev pub post_request : Bytes → Url → Outgoing
post_request payload target = record { method = codes "POST"; target = target; body = payload }

-- How many bytes of a reply are looked at.
abbrev pub max_reply_bytes : ℕ
max_reply_bytes = 4096

abbrev pub verdict_of : Result CapError Bool → Option Bool
verdict_of (ok verdict) = some verdict
verdict_of (err e) = none

module _ ⦃urls : UrlParser⦄ ⦃u : Unicode⦄ ⦃net : AddressParser⦄ (web : Web) (api : CapApi) where
  unfoldable pub verify_cap_token : Protector → Bytes → Result CapError Bool
  verify_cap_token bb token = do
    payload ← or_err (api.encode_payload bb.cap_secret_key token) bad_payload
    target ← or_err (urls.parse_url (cap_site_verify_url bb)) bad_request
    policy ← map_err bad_client (new_outbound_policy (cap_site_verify_url bb) true)
    reply ← map_err request_failed (client_do web policy (post_request payload target)).outcome
    success ← require (is_success reply.status) bad_status
    or_err (api.decode_success (take max_reply_bytes reply.body)) bad_reply

  -- What handleVerify makes of it: an error is the same as no answer.
  unfoldable pub ask_cap : Protector → Bytes → Option Bool
  ask_cap bb token = verdict_of (verify_cap_token bb token)

verdict_of-eq-some :
    (said : Result CapError Bool) {verdict : Bool}
    → verdict_of said ≡ some verdict
    → said ≡ ok verdict
verdict_of-eq-some (ok verdict) h = cc
verdict_of-eq-some (err e) h = cc

home_of :
    (local public safe safe' home reach : Bool)
    → ((local || public) && ((not true || not (safe && not safe')) && (not true || home) && reach))
      ≡ true
    → (home && (not safe || safe') && (local || public)) ≡ true
home_of local public safe safe' home reach h = ground arith

module _ ⦃urls : UrlParser⦄ ⦃u : Unicode⦄ ⦃net : AddressParser⦄ where
  -- A contact at the origin of the client's URL, over HTTPS if that is, to a public address or to
  -- this machine for an origin on it.
  abbrev pub at_home : OutboundPolicy → Contact → Bool
  at_home p c =
      same_origin p.origin c.sent.target
      && (not (same p.origin.scheme https_scheme) || same c.sent.target.scheme https_scheme)
      && ((is_local p && is_loopback c.address) || is_public_address c.address)

  at_home-allowed :
      (p : OutboundPolicy) (c : Contact)
      → p.cap_verification ≡ true
      → contact_allowed p c ≡ true
      → at_home p c ≡ true
  at_home-allowed p c for_cap h =
      home_of (is_local p && is_loopback c.address) (is_public_address c.address)
        (same p.origin.scheme https_scheme) (same c.sent.target.scheme https_scheme)
        (same_origin p.origin c.sent.target) (reachable p c.sent.target) (rw for_cap at h)

module _ ⦃urls : UrlParser⦄ ⦃u : Unicode⦄ ⦃net : AddressParser⦄ (web : Web) (api : CapApi) where
  -- Cap answered for the token: each request that was sent for it went to Cap's origin.
  pub record IsAsked (bb : Protector) (token : Bytes) (verdict : Bool) : Type 0 where
    pub policy : OutboundPolicy
    pub payload : Bytes
    pub reply : Reply
    pub made : new_outbound_policy (cap_site_verify_url bb) true ≡ ok policy
    pub configured : urls.parse_url (cap_site_verify_url bb) ≡ some policy.origin
    pub for_cap : policy.cap_verification ≡ true
    pub encoded : api.encode_payload bb.cap_secret_key token ≡ some payload
    pub came : (client_do web policy (post_request payload policy.origin)).outcome ≡ ok reply
    pub success : is_success reply.status ≡ true
    pub said : api.decode_success (take max_reply_bytes reply.body) ≡ some verdict

  pub contacts_at_home :
      (bb : Protector) (payload : Bytes) (p : OutboundPolicy)
      → new_outbound_policy (cap_site_verify_url bb) true ≡ ok p
      → (all (at_home p) (client_do web p (post_request payload p.origin)).contacts ≡ true)
        × (length (client_do web p (post_request payload p.origin)).contacts
            ≤ suc max_outbound_redirects)
  contacts_at_home bb payload p made =
      let (_, for_cap, _) = new_outbound_policy-allowed (cap_site_verify_url bb) true p made in
      let (allowed, few) =
        client_do-contacts web (cap_site_verify_url bb) true p (post_request payload p.origin) made
          refl in
      (
        all_mono (contact_allowed p) (at_home p) _ (λ c h. at_home-allowed p c for_cap h) allowed,
        few,
      )

  pub verify_cap_token-IsAsked :
      (bb : Protector) (token : Bytes) (verdict : Bool)
      → verify_cap_token web api bb token ≡ ok verdict
      → IsAsked bb token verdict
  unfolding verify_cap_token
  verify_cap_token-IsAsked bb token verdict h =
      let (payload, encoded, h1) =
        >>=-eq-ok (or_err (api.encode_payload bb.cap_secret_key token) bad_payload) _ h in
      let (target, parsed, h2) =
        >>=-eq-ok (or_err (urls.parse_url (cap_site_verify_url bb)) bad_request) _ h1 in
      let (p, made, h3) =
        >>=-eq-ok (map_err bad_client (new_outbound_policy (cap_site_verify_url bb) true)) _ h2 in
      let made' =
        map_err-eq-ok bad_client (new_outbound_policy (cap_site_verify_url bb) true) made in
      let (origin, for_cap, _) =
        new_outbound_policy-allowed (cap_site_verify_url bb) true p made' in
      let aimed : target ≡ p.origin =
        cc (or_err-eq-ok (urls.parse_url (cap_site_verify_url bb)) bad_request parsed, origin) in
      let (reply, came, h4) =
        >>=-eq-ok (map_err request_failed (client_do web p (post_request payload target)).outcome) _
          h3 in
      let came' =
        map_err-eq-ok request_failed (client_do web p (post_request payload target)).outcome came in
      let (success, h5) = require->>= (is_success reply.status) bad_status _ h4 in
      record {
        policy = p;
        payload = payload;
        reply = reply;
        made = made';
        configured = origin;
        for_cap = for_cap;
        encoded = or_err-eq-ok (api.encode_payload bb.cap_secret_key token) bad_payload encoded;
        came = rw (← aimed) came';
        success = success;
        said = or_err-eq-ok (api.decode_success (take max_reply_bytes reply.body)) bad_reply h5;
      }

  pub ask_cap-IsAsked :
      (bb : Protector) (token : Bytes) (verdict : Bool)
      → ask_cap web api bb token ≡ some verdict
      → IsAsked bb token verdict
  unfolding ask_cap
  ask_cap-IsAsked bb token verdict h =
      verify_cap_token-IsAsked bb token verdict
        (verdict_of-eq-some (verify_cap_token web api bb token) h)
