-- ===== src/Outbound.antt =====
-- outbound.go: which URLs and addresses an outgoing request may reach.
pub mod Reach
pub mod Client
pub mod Download
use caddy_protector.Base.{
  ℕ, suc, Bool, true, false, not, ◌&&◌, ◌||◌, Option, none, some, List, [], ◌∷◌, ltb, if◌then◌else◌,
  is_nil,
}
use caddy_protector.Base.Result.{Result, ok, err, or_err, require, ◌>>=◌}
use caddy_protector.Text.{Bytes, same}
use caddy_protector.Text.Unicode.{Unicode, equal_fold}
use caddy_protector.Netip.{Addr}
use caddy_protector.Netip.Classes.{
  is_loopback, is_private, is_link_local_unicast, is_global_unicast,
}
use caddy_protector.IpList.{AddressParser}
use caddy_protector.Config.{Url, UrlParser, is_loopback_host, http_scheme, https_scheme}

-- maxOutboundRedirects
abbrev pub max_outbound_redirects : ℕ
max_outbound_redirects = 3

pub record OutboundPolicy : Type 0 where
  pub origin : Url
  pub cap_verification : Bool

pub data OutboundError : Type 0 where
  bad_origin not_absolute https_needed initial_https_needed bad_scheme non_public downgrade
        cross_origin :
      OutboundError
  too_many_redirects no_resolution non_public_resolution unresolved : OutboundError

unfoldable pub is_public_address : Addr → Bool
is_public_address address =
    is_global_unicast address
    && not (is_private address)
    && not (is_loopback address)
    && not (is_link_local_unicast address)

-- Every address that the resolver gives must be public, or loopback for a local origin.
unfoldable pub check_addresses : Bool → List Addr → Result OutboundError (Unit {0})
check_addresses allow_loopback [] = ok tt
check_addresses allow_loopback (address ∷ addresses) =
    let rest = check_addresses allow_loopback addresses in
    if allow_loopback && is_loopback address
    then rest
    else if not (is_public_address address)
    then err non_public_resolution
    else rest

abbrev pub first_address : List Addr → Result OutboundError Addr
first_address [] = err unresolved
first_address (address ∷ addresses) = ok address

module _ ⦃u : Unicode⦄ where
  unfoldable pub same_origin : Url → Url → Bool
  same_origin left right = equal_fold left.scheme right.scheme && equal_fold left.host right.host

module _ ⦃urls : UrlParser⦄ ⦃u : Unicode⦄ ⦃net : AddressParser⦄ where
  abbrev pub literal_public : Option Addr → Bool
  literal_public none = true
  literal_public (some address) = is_public_address address

  unfoldable pub validate_literal_public_address : Bytes → Result OutboundError (Unit {0})
  validate_literal_public_address host = require (literal_public (net.parse_addr host)) non_public

  -- The configured URL is HTTP to this machine.
  abbrev pub is_local : OutboundPolicy → Bool
  is_local p = same p.origin.scheme http_scheme && is_loopback_host p.origin.hostname

  -- The switch of validateURL.
  abbrev pub check_scheme : Bool → Url → Result OutboundError (Unit {0})
  check_scheme original_local target =
      if same target.scheme https_scheme
      then validate_literal_public_address target.hostname
      else if same target.scheme http_scheme
      then require original_local https_needed
      else err bad_scheme

  unfoldable pub validate_url : OutboundPolicy → Url → Bool → Result OutboundError (Unit {0})
  validate_url p target initial = do
    absolute ← require (not (is_nil target.scheme || is_nil target.host)) not_absolute
    reachable ← check_scheme (is_local p && same_origin p.origin target) target
    require
        (not (
          initial
          && same target.scheme http_scheme
          && not (is_local p && same_origin p.origin target)))
        initial_https_needed

  unfoldable pub validate_initial_url : OutboundPolicy → Result OutboundError (Unit {0})
  validate_initial_url p = validate_url p p.origin true

  unfoldable pub validate_redirect_url : OutboundPolicy → Url → Result OutboundError (Unit {0})
  validate_redirect_url p target = do
    encrypted ←
        require
          (not p.cap_verification
            || not (same p.origin.scheme https_scheme && not (same target.scheme https_scheme)))
          downgrade
    same_site ← require (not p.cap_verification || same_origin p.origin target) cross_origin
    validate_url p target false

  -- CheckRedirect: `via` requests were made.
  unfoldable pub check_redirect : OutboundPolicy → ℕ → Url → Result OutboundError (Unit {0})
  check_redirect p via target =
      if ltb max_outbound_redirects via
      then err too_many_redirects
      else validate_redirect_url p target

  -- A client that follows redirects asks CheckRedirect before each.
  unfoldable pub follow : OutboundPolicy → ℕ → List Url → Result OutboundError (Unit {0})
  follow p via [] = ok tt
  follow p via (target ∷ targets) = do
    checked ← check_redirect p via target
    follow p (suc via) targets

  -- newOutboundHTTPClient, for a URL as text
  unfoldable pub new_outbound_policy : Bytes → Bool → Result OutboundError OutboundPolicy
  new_outbound_policy raw_url cap_verification = do
    origin ← or_err (urls.parse_url raw_url) bad_origin
    valid ← validate_initial_url (record { origin = origin; cap_verification = cap_verification })
    ok (record { origin = origin; cap_verification = cap_verification })

  -- dialContext, of what the resolver gives: the address that is connected to.
  unfoldable pub dial_context : OutboundPolicy → Option (List Addr) → Result OutboundError Addr
  dial_context p resolved = do
    addresses ← or_err resolved no_resolution
    public ← check_addresses (is_local p) addresses
    first_address addresses
