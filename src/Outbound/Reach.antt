-- ===== src/Outbound/Reach.antt =====
-- What an outgoing request can reach.
use caddy_protector.Base.{
  ℕ, suc, ◌+◌, ◌≡◌, ◌∙◌, sym, ap, refl, inl, inr, Bool, true, false, not, ◌&&◌, ◌||◌, Option, List,
  [], ◌∷◌, ltb, leb, is_nil, all, length, arith, Bool-cases,
}
use caddy_protector.Base.Result.{
  Result, ok, err, or_err, require, is_ok, ok-injective, ◌>>=◌, >>=-eq-ok,
}
use caddy_protector.Text.{Bytes, same, same_iff}
use caddy_protector.Text.Unicode.{Unicode}
use caddy_protector.Netip.{Addr}
use caddy_protector.Netip.Classes.{is_loopback}
use caddy_protector.IpList.{AddressParser}
use caddy_protector.Config.{Url, UrlParser, http_scheme, https_scheme}
use caddy_protector.Outbound.{
  OutboundPolicy, https_needed, initial_https_needed, non_public, is_public_address,
  check_addresses, first_address, same_origin, literal_public, validate_literal_public_address,
  is_local, validate_url, validate_redirect_url, check_redirect, follow, dial_context,
  no_resolution, max_outbound_redirects, check_scheme, not_absolute, downgrade, cross_origin,
}

is_ok-require {κ} : {E : Type κ} (b : Bool) (failure : E) → is_ok (require b failure) ≡ b
is_ok-require true failure = refl
is_ok-require false failure = refl

is_ok->>= {κ} :
    {E : Type κ} (m : Result E (Unit {0})) (next : Unit {0} → Result E (Unit {0}))
    → is_ok (m >>= next) ≡ (is_ok m && is_ok (next tt))
is_ok->>= (ok t) next = refl
is_ok->>= (err e) next = refl

check_addresses-all :
    (local : Bool) (addresses : List Addr)
    → is_ok (check_addresses local addresses)
      ≡ all (λ a. (local && is_loopback a) || is_public_address a) addresses
unfolding check_addresses
check_addresses-all local [] = refl
check_addresses-all local (a ∷ addresses) = ground (arith, check_addresses-all local addresses)

https_not_http : (s : Bytes) → same s http_scheme ≡ true → same s https_scheme ≡ false
https_not_http s h = rw ((same_iff s http_scheme).0 h)

count_step :
    (via : ℕ) (a : Bool) (targets : List Url) (b : Bool)
    → ((leb via max_outbound_redirects && a)
        && ((is_nil targets || leb (suc via + length targets) (suc max_outbound_redirects)) && b))
      ≡ ((false || leb (via + suc (length targets)) (suc max_outbound_redirects)) && (a && b))
count_step via a [] b = ground arith
count_step via a (t ∷ targets) b = ground arith

from_one :
    (targets : List Url)
    → (is_nil targets || leb (1 + length targets) (suc max_outbound_redirects))
      ≡ leb (length targets) max_outbound_redirects
from_one [] = refl
from_one (t ∷ targets) = ground arith

and_left : (a b : Bool) → (a && b) ≡ true → a ≡ true
and_left true b h = refl
and_left false b h = cc

first-all :
    (local : Bool) (addresses : List Addr) (address : Addr)
    → all (λ a. (local && is_loopback a) || is_public_address a) addresses ≡ true
    → first_address addresses ≡ ok address
    → ((local && is_loopback address) || is_public_address address) ≡ true
first-all local [] address h k = cc
first-all local (a ∷ addresses) address h k =
    let e : a ≡ address = ok-injective k in
    rw (← e) (
      and_left ((local && is_loopback a) || is_public_address a)
        (all (λ a. (local && is_loopback a) || is_public_address a) addresses) h)

or_left : (a b : Bool) → (b ≡ true → a ≡ true) → a ≡ (a || b)
or_left true b h = refl
or_left false true h = h refl
or_left false false h = refl

module _ ⦃urls : UrlParser⦄ ⦃u : Unicode⦄ ⦃net : AddressParser⦄ where
  -- HTTPS to a host that is no private address, or the configured HTTP origin on this machine.
  abbrev pub reachable : OutboundPolicy → Url → Bool
  reachable p target =
      not (is_nil target.scheme || is_nil target.host)
      && ((same target.scheme https_scheme && literal_public (net.parse_addr target.hostname))
          || (same target.scheme http_scheme && is_local p && same_origin p.origin target))

  check_scheme-is_ok :
      (local : Bool) (target : Url)
      → is_ok (check_scheme local target) ≡ (
          (same target.scheme https_scheme && literal_public (net.parse_addr target.hostname))
          || (same target.scheme http_scheme && local))
  unfolding validate_literal_public_address
  check_scheme-is_ok local target = elim (Bool-cases (same target.scheme https_scheme)) [
    | inl secure ↦ rw secure (
        is_ok-require (literal_public (net.parse_addr target.hostname)) non_public
        ∙ or_left (literal_public (net.parse_addr target.hostname))
            (same target.scheme http_scheme && local)
            (λ h. ground (arith, https_not_http target.scheme)))
    | inr other ↦ elim (Bool-cases (same target.scheme http_scheme)) [
      | inl plain ↦ rw (other, plain) (is_ok-require local https_needed)
      | inr strange ↦ rw (other, strange)
    ]
  ]

  -- A URL is accepted exactly if it is HTTPS to a host that is no literal address or a public one,
  -- or the configured HTTP origin on this machine, whether it is the configured URL or the target
  -- of a redirect.
  pub validate_url-is_ok :
      (p : OutboundPolicy) (target : Url) (initial : Bool)
      → is_ok (validate_url p target initial) ≡ reachable p target
  unfolding validate_url
  validate_url-is_ok p target initial =
      let local = is_local p && same_origin p.origin target in
      let named = not (is_nil target.scheme || is_nil target.host) in
      let late = not (initial && same target.scheme http_scheme && not local) in
      is_ok->>= (require named not_absolute) _
      ∙ ground (
        arith,
        is_ok-require named not_absolute,
        is_ok->>= (check_scheme local target) (λ t. require late initial_https_needed),
        check_scheme-is_ok local target,
        is_ok-require late initial_https_needed,
        https_not_http target.scheme,
      )

  -- A redirect of a request to Cap must stay at its origin and must not leave HTTPS.
  abbrev pub redirect_allowed : OutboundPolicy → Url → Bool
  redirect_allowed p target =
      (not p.cap_verification
        || not (same p.origin.scheme https_scheme && not (same target.scheme https_scheme)))
      && (not p.cap_verification || same_origin p.origin target)
      && reachable p target

  validate_redirect_url-is_ok :
      (p : OutboundPolicy) (target : Url)
      → is_ok (validate_redirect_url p target) ≡ redirect_allowed p target
  unfolding validate_redirect_url
  validate_redirect_url-is_ok p target =
      let kept =
        not p.cap_verification
        || not (same p.origin.scheme https_scheme && not (same target.scheme https_scheme)) in
      let home = not p.cap_verification || same_origin p.origin target in
      is_ok->>= (require kept downgrade) _
      ∙ ground (
        arith,
        is_ok-require kept downgrade,
        is_ok->>= (require home cross_origin) (λ t. validate_url p target false),
        is_ok-require home cross_origin,
        validate_url-is_ok p target false,
      )

  pub check_redirect-is_ok :
      (p : OutboundPolicy) (via : ℕ) (target : Url)
      → is_ok (check_redirect p via target)
        ≡ (leb via max_outbound_redirects && redirect_allowed p target)
  unfolding check_redirect
  check_redirect-is_ok p via target = elim (Bool-cases (ltb max_outbound_redirects via)) [
    | inl late ↦ let far : leb via max_outbound_redirects ≡ false = ground arith in rw (late, far)
    | inr early ↦
        let near : leb via max_outbound_redirects ≡ true = ground arith in
        rw (early, near) (validate_redirect_url-is_ok p target)
  ]

  follow-is_ok :
      (p : OutboundPolicy) (via : ℕ) (targets : List Url)
      → is_ok (follow p via targets) ≡ (
          (is_nil targets || leb (via + length targets) (suc max_outbound_redirects))
          && all (redirect_allowed p) targets)
  unfolding follow
  follow-is_ok p via [] = refl
  follow-is_ok p via (target ∷ targets) =
      is_ok->>= (check_redirect p via target) (λ t. follow p (suc via) targets)
      ∙ rw (check_redirect-is_ok p via target, follow-is_ok p (suc via) targets)
          (count_step via (redirect_allowed p target) targets (all (redirect_allowed p) targets))

  -- A client follows redirects exactly if there are at most three and each of them is allowed:
  -- reachable, and for Cap at the same origin and not from HTTPS to HTTP.
  pub follow_lem :
      (p : OutboundPolicy) (targets : List Url)
      → is_ok (follow p 1 targets)
        ≡ (leb (length targets) max_outbound_redirects && all (redirect_allowed p) targets)
  follow_lem p targets =
      follow-is_ok p 1 targets ∙ ap (λ b. b && all (redirect_allowed p) targets) (from_one targets)

  -- A connection is made to a public address, or to a loopback address if the configured URL is
  -- HTTP to this machine.
  pub dial_context-public :
      (p : OutboundPolicy) (resolved : Option (List Addr)) (address : Addr)
      → dial_context p resolved ≡ ok address
      → ((is_local p && is_loopback address) || is_public_address address) ≡ true
  unfolding dial_context
  dial_context-public p resolved address h =
      let (addresses, found, h1) = >>=-eq-ok (or_err resolved no_resolution) _ h in
      let (_, checked, h2) = >>=-eq-ok (check_addresses (is_local p) addresses) _ h1 in
      first-all (is_local p) addresses address
        (sym (check_addresses-all (is_local p) addresses) ∙ ap is_ok checked) h2
