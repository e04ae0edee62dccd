-- ===== src/Outbound/Client.antt =====
-- outbound.go, newOutboundHTTPClient: the client that it makes, and what client.Do does with it. The
-- resolver, the connections and the servers are the web's.
pub mod Contacts
pub mod Fuel
use caddy_protector.Base.{
  ℕ, zero, suc, ◌+◌, Bool, not, ◌&&◌, ◌||◌, Option, none, some, List, [], ◌∷◌, ◌++◌, ◌==◌,
  if◌then◌else◌,
}
use caddy_protector.Base.Int.{ℤ}
use caddy_protector.Base.Result.{Result, ok, err}
use caddy_protector.Text.{Bytes, codes, same}
use caddy_protector.Text.Unicode.{Unicode}
use caddy_protector.Netip.{Addr}
use caddy_protector.IpList.{AddressParser}
use caddy_protector.Config.{Url, UrlParser}
use caddy_protector.Outbound.{
  OutboundPolicy, OutboundError, bad_origin, not_absolute, https_needed, initial_https_needed,
  bad_scheme, non_public, downgrade, cross_origin, too_many_redirects, no_resolution,
  non_public_resolution, unresolved, max_outbound_redirects, check_redirect, dial_context,
}

-- A request that is sent.
pub record Outgoing : Type 0 where
  pub method : Bytes
  pub target : Url
  pub body : Bytes

-- A reply: the length that is announced is negative if there is none; what can be read of the body,
-- and whether the reading ends without an error.
pub record Reply : Type 0 where
  pub status : ℕ
  pub content_length : ℤ
  pub body : Bytes
  pub readable : Bool

-- What a server answers: a redirect with its status and its target, or another reply.
pub data Answer : Type 0 where
  moved : ℕ → Url → Answer
  final : Reply → Answer

-- The world outside, which may answer each request in another way: the addresses of a host, and what
-- the server at an address answers, if it does in time.
pub record Web : Type 0 where
  pub resolve : ℕ → Bytes → Option (List Addr)
  pub exchange : ℕ → Addr → Outgoing → Option Answer

-- A request that was sent, and the address of the connection.
pub record Contact : Type 0 where
  pub address : Addr
  pub sent : Outgoing

-- Why client.Do fails. `out_of_fuel` is the model's own.
pub data ClientError : Type 0 where
  dial_failed redirect_refused : OutboundError → ClientError
  no_answer out_of_fuel : ClientError

-- Every request that is sent, first to last, and what comes of it.
pub record Done : Type 0 where
  pub contacts : List Contact
  pub outcome : Result ClientError Reply

abbrev pub failed : ClientError → Done
failed e = record { contacts = []; outcome = err e }

abbrev pub replied : Reply → Done
replied reply = record { contacts = []; outcome = ok reply }

abbrev pub after_contact : Contact → Done → Done
after_contact c done = record done { contacts = c ∷ done.contacts }

abbrev pub get : Bytes
get = codes "GET"

-- What a client sends after a redirect: the same request for 307 and 308, else one without a body.
abbrev pub keeps_body : ℕ → Bool
keeps_body status = (status == 307) || (status == 308)

unfoldable pub moved_request : ℕ → Url → Outgoing → Outgoing
moved_request status target sent =
    if keeps_body status then record sent { target = target } else record {
      method = if same sent.method (codes "HEAD") then sent.method else get;
      target = target;
      body = [];
    }

module _ ⦃urls : UrlParser⦄ ⦃u : Unicode⦄ ⦃net : AddressParser⦄ (web : Web)
    (p : OutboundPolicy) where
  abbrev pub after_check : Result OutboundError (Unit {0}) → (Outgoing → Done) → Outgoing → Done
  after_check (err e) next sent = failed (redirect_refused e)
  after_check (ok checked) next sent = next sent

  abbrev pub after_answer : ℕ → Option Answer → (Outgoing → Done) → Outgoing → Done
  after_answer via none next sent = failed no_answer
  after_answer via (some (final reply)) next sent = replied reply
  after_answer via (some (moved status target)) next sent =
      after_check (check_redirect p (suc via) target) next (moved_request status target sent)

  abbrev pub after_dial : ℕ → Result OutboundError Addr → (Outgoing → Done) → Outgoing → Done
  after_dial via (err e) next sent = failed (dial_failed e)
  after_dial via (ok address) next sent =
      after_contact (record { address = address; sent = sent })
        (after_answer via (web.exchange via address sent) next sent)

  -- client.Do: `via` requests were sent before this one, and the fuel bounds those that follow.
  unfoldable pub client_do_from : ℕ → ℕ → Outgoing → Done
  client_do_from zero via sent = failed out_of_fuel
  client_do_from (suc fuel) via sent =
      after_dial via (dial_context p (web.resolve via sent.target.hostname))
        (client_do_from fuel (suc via)) sent

  -- The first request, and one after each redirect.
  unfoldable pub client_do : Outgoing → Done
  client_do sent = client_do_from (suc max_outbound_redirects) 0 sent

-- redirectRejection.Error, and the texts of validateURL and dialContext
unfoldable pub reason_of : Bytes → OutboundError → Bytes
reason_of kind bad_origin = kind ++ codes "_url could not be parsed"
reason_of kind not_absolute = codes "redirect target is not an absolute URL"
reason_of kind https_needed = codes "redirect target must use HTTPS"
reason_of kind initial_https_needed =
    codes "configured URL must use HTTPS unless it is a loopback development origin"
reason_of kind bad_scheme = codes "redirect target must use HTTP(S)"
reason_of kind non_public = codes "redirect target uses a non-public address"
reason_of kind downgrade = codes "HTTPS redirect to HTTP is not allowed"
reason_of kind cross_origin = codes "cross-origin redirect is not allowed"
reason_of kind too_many_redirects = codes "redirect limit of 3 exceeded"
reason_of kind no_resolution = codes "no such host"
reason_of kind non_public_resolution = kind ++ codes " destination resolves to a non-public address"
reason_of kind unresolved = kind ++ codes " destination did not resolve to an address"

-- What is told of a failed request: the reason of a rejected redirect, and of nothing else.
unfoldable pub redact_outbound_error : Bytes → ClientError → Bytes
redact_outbound_error kind (redirect_refused e) =
    kind ++ codes " redirect rejected: " ++ reason_of kind e
redact_outbound_error kind _ = kind ++ codes " outbound request failed"
