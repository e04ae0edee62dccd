-- ===== src/Outbound/Client/Contacts.antt =====
-- What client.Do contacts: every request of a client goes to a target and an address that its policy
-- allows.
use caddy_protector.Base.{
  ℕ, zero, suc, ◌≤◌, ◌≡◌, refl, sym, ap, ◌∙◌, some, Bool, true, not, ◌&&◌, ◌||◌, all, length, arith,
}
use caddy_protector.Base.Result.{ok, is_ok, or_err, or_err-eq-ok, ok-injective, >>=-eq-ok}
use caddy_protector.Text.{Bytes, same}
use caddy_protector.Text.Unicode.{Unicode, equal_fold_refl}
use caddy_protector.Netip.Classes.{is_loopback}
use caddy_protector.IpList.{AddressParser}
use caddy_protector.Config.{Url, UrlParser, https_scheme}
use caddy_protector.Outbound.{
  OutboundPolicy, bad_origin, is_public_address, is_local, same_origin, max_outbound_redirects,
  check_redirect, dial_context, validate_initial_url, new_outbound_policy,
}
use caddy_protector.Outbound.Reach.{
  reachable, redirect_allowed, validate_url-is_ok, check_redirect-is_ok, dial_context-public,
}
use caddy_protector.Outbound.Client.{
  Outgoing, Web, Contact, moved_request, client_do_from, client_do,
}
use caddy_protector.Outbound.Client.Fuel.{after_dial-rule}

moved_request-target :
    (status : ℕ) (target : Url) (sent : Outgoing)
    → (moved_request status target sent).target ≡ target
unfolding moved_request
moved_request-target status target sent = ground arith

both_true : (a b : Bool) → ((not a || not (b && not b)) && (not a || true) && true) ≡ true
both_true a b = ground arith

module _ ⦃u : Unicode⦄ where
  same_origin_refl : (url : Url) → same_origin url url ≡ true
  unfolding same_origin
  same_origin_refl url = rw (equal_fold_refl url.scheme, equal_fold_refl url.host)

module _ ⦃urls : UrlParser⦄ ⦃u : Unicode⦄ ⦃net : AddressParser⦄ where
  -- To a public address, or to this machine for a local origin; and a target that a redirect may
  -- have.
  abbrev pub contact_allowed : OutboundPolicy → Contact → Bool
  contact_allowed p c =
      ((is_local p && is_loopback c.address) || is_public_address c.address)
      && redirect_allowed p c.sent.target

  abbrev policy_for : Url → Bool → OutboundPolicy
  policy_for origin cap_verification = record {
    origin = origin;
    cap_verification = cap_verification;
  }

  origin-allowed :
      (p : OutboundPolicy) → reachable p p.origin ≡ true → redirect_allowed p p.origin ≡ true
  origin-allowed p h =
      rw (h, same_origin_refl p.origin)
        (both_true p.cap_verification (same p.origin.scheme https_scheme))

  check_redirect-allowed :
      (p : OutboundPolicy) (via : ℕ) (target : Url) (t : Unit {0})
      → check_redirect p via target ≡ ok t
      → redirect_allowed p target ≡ true
  check_redirect-allowed p via target t h =
      ground (arith, sym (ap is_ok h) ∙ check_redirect-is_ok p via target)

  client_do_from-allowed :
      (web : Web) (p : OutboundPolicy) (fuel via : ℕ) (sent : Outgoing)
      → redirect_allowed p sent.target ≡ true
      → all (contact_allowed p) (client_do_from web p fuel via sent).contacts ≡ true
  unfolding client_do_from
  client_do_from-allowed web p zero via sent good = refl
  client_do_from-allowed web p (suc fuel) via sent good =
      after_dial-rule web p (λ d. all (contact_allowed p) d.contacts ≡ true)
        (λ d. all (contact_allowed p) d.contacts ≡ true) via
        (dial_context p (web.resolve via sent.target.hostname))
        (client_do_from web p fuel (suc via)) sent (λ e h. (refl, refl)) (λ reply. refl)
        (λ address d dialled h.
          let public =
            dial_context-public p (web.resolve via sent.target.hostname) address dialled in
          rw (public, good) h)
        (λ status target t checked.
          client_do_from-allowed web p fuel (suc via) (moved_request status target sent) (
            rw (moved_request-target status target sent)
              (check_redirect-allowed p (suc via) target t checked)))

  length-client_do_from :
      (web : Web) (p : OutboundPolicy) (fuel via : ℕ) (sent : Outgoing)
      → length (client_do_from web p fuel via sent).contacts ≤ fuel
  unfolding client_do_from
  length-client_do_from web p zero via sent = omega arith
  length-client_do_from web p (suc fuel) via sent =
      after_dial-rule web p (λ d. length d.contacts ≤ fuel) (λ d. length d.contacts ≤ suc fuel) via
        (dial_context p (web.resolve via sent.target.hostname))
        (client_do_from web p fuel (suc via)) sent (λ e h. (omega arith, omega arith))
        (λ reply. omega arith) (λ address d dialled h. omega (arith, h))
        (λ status target t checked.
          length-client_do_from web p fuel (suc via) (moved_request status target sent))

  -- A client is made for a URL that a redirect may have too.
  pub new_outbound_policy-allowed :
      (raw_url : Bytes) (cap_verification : Bool) (p : OutboundPolicy)
      → new_outbound_policy raw_url cap_verification ≡ ok p
      → (urls.parse_url raw_url ≡ some p.origin)
        × (p.cap_verification ≡ cap_verification)
        × (redirect_allowed p p.origin ≡ true)
  unfolding new_outbound_policy validate_initial_url
  new_outbound_policy-allowed raw_url cap_verification p h =
      let (origin, parsed, h1) = >>=-eq-ok (or_err (urls.parse_url raw_url) bad_origin) _ h in
      let (_, valid, h2) =
        >>=-eq-ok (validate_initial_url (policy_for origin cap_verification)) _ h1 in
      let same_p : policy_for origin cap_verification ≡ p = ok-injective h2 in
      rw (← same_p) (
        or_err-eq-ok (urls.parse_url raw_url) bad_origin parsed,
        refl,
        origin-allowed (policy_for origin cap_verification) (
            sym (validate_url-is_ok (policy_for origin cap_verification) origin true)
            ∙ ap is_ok valid),
      )

  -- A client that is made for a URL sends at most four requests for one to that URL, each to a
  -- public address, or to this machine for an HTTP URL on it, and to a target that is reachable,
  -- and for Cap is at the origin of the URL and does not leave HTTPS.
  pub client_do-contacts :
      (web : Web) (raw_url : Bytes) (cap_verification : Bool) (p : OutboundPolicy) (sent : Outgoing)
      → new_outbound_policy raw_url cap_verification ≡ ok p
      → sent.target ≡ p.origin
      → (all (contact_allowed p) (client_do web p sent).contacts ≡ true)
        × (length (client_do web p sent).contacts ≤ suc max_outbound_redirects)
  unfolding client_do
  client_do-contacts web raw_url cap_verification p sent made aimed =
      let (_, _, good) = new_outbound_policy-allowed raw_url cap_verification p made in
      (
        client_do_from-allowed web p (suc max_outbound_redirects) 0 sent (rw aimed good),
        length-client_do_from web p (suc max_outbound_redirects) 0 sent,
      )
