-- ===== src/Outbound/Download.antt =====
-- fetchURLBytes of refresh.go: a download with a client of outbound.go.
use caddy_protector.Base.{
  ℕ, zero, suc, ◌*◌, ◌^◌, ◌≤◌, ◌≡◌, ◌∙◌, refl, sym, ap, inl, inr, Bool, true, false, not, all, ◌||◌,
  Option, none, some, [], ◌∷◌, ltb, leb, if◌then◌else◌, length, take, arith, Bool-cases,
}
use caddy_protector.Base.Int.{pos, ltb_ℤ}
use caddy_protector.Base.Result.{
  Result, ok, err, map_err, map_err-eq-ok, or_err, require, require->>=, or_err-eq-ok, ok-injective,
  ◌>>=◌, >>=-eq-ok,
}
use caddy_protector.Text.{Bytes, codes, same}
use caddy_protector.Text.Unicode.{Unicode}
use caddy_protector.IpList.{AddressParser}
use caddy_protector.Config.{Url, UrlParser}
use caddy_protector.Config.Provision.{Sources}
use caddy_protector.Outbound.{OutboundPolicy, OutboundError, new_outbound_policy}
use caddy_protector.Outbound.Client.{Outgoing, Reply, Web, ClientError, get, client_do}
use caddy_protector.Outbound.Client.Contacts.{
  contact_allowed, new_outbound_policy-allowed, client_do-contacts,
}

pub data FetchError : Type 0 where
  bad_request bad_status bad_limit too_large unreadable : FetchError
  bad_client : OutboundError → FetchError
  request_failed : ClientError → FetchError

-- maxIPListBytes
abbrev pub max_ip_list_bytes : ℕ
max_ip_list_bytes = 100 * 2 ^ 20

-- maxCountryDBBytes
abbrev pub max_country_db_bytes : ℕ
max_country_db_bytes = 100 * 2 ^ 20

abbrev pub is_success : ℕ → Bool
is_success status = not (ltb status 200 || leb 300 status)

-- io.ReadAll of a io.LimitReader: an error behind the limit is not met.
abbrev pub read_limited : ℕ → Reply → Result FetchError Bytes
read_limited limit reply =
    if reply.readable || leb limit (length reply.body)
    then ok (take limit reply.body)
    else err unreadable

-- What is made of a reply.
unfoldable pub read_reply : ℕ → Reply → Result FetchError Bytes
read_reply max_bytes reply = do
  success ← require (is_success reply.status) bad_status
  limit ← require (not (leb max_bytes 0)) bad_limit
  announced ← require (not (ltb_ℤ (pos max_bytes) reply.content_length)) too_large
  body ← read_limited (suc max_bytes) reply
  small ← require (not (ltb max_bytes (length body))) too_large
  ok body

abbrev pub get_request : Url → Outgoing
get_request target = record { method = get; target = target; body = [] }

module _ ⦃urls : UrlParser⦄ ⦃u : Unicode⦄ ⦃net : AddressParser⦄ (web : Web) where
  -- http.NewRequest parses the URL as the client's policy does.
  unfoldable pub fetch_url_bytes_limited : Bytes → ℕ → Result FetchError Bytes
  fetch_url_bytes_limited raw_url max_bytes = do
    target ← or_err (urls.parse_url raw_url) bad_request
    policy ← map_err bad_client (new_outbound_policy raw_url false)
    reply ← map_err request_failed (client_do web policy (get_request target)).outcome
    read_reply max_bytes reply

  unfoldable pub fetch_url_bytes : Bytes → Bytes → Result FetchError Bytes
  fetch_url_bytes kind raw_url =
      fetch_url_bytes_limited raw_url
        (if same kind (codes "country") then max_country_db_bytes else max_ip_list_bytes)

  -- fetchIPListURL: an error is the same as no text.
  abbrev pub text_of : Result FetchError Bytes → Option Bytes
  text_of (ok body) = some body
  text_of (err e) = none

  unfoldable pub fetch_ip_list_url : Bytes → Bytes → Option Bytes
  fetch_ip_list_url kind raw_url = text_of (fetch_url_bytes kind raw_url)

  -- Lists that come over the network.
  abbrev pub online : Sources → Sources
  online from = record from { fetch_url = fetch_ip_list_url }

take-all : (n : ℕ) (s : Bytes) → length s ≤ n → take n s ≡ s
take-all zero [] h = refl
take-all (suc n) [] h = refl
take-all zero (c ∷ s) h = absurd (omega arith)
take-all (suc n) (c ∷ s) h = ap (λ t. c ∷ t) (take-all n s (omega arith))

take-short : (n : ℕ) (s : Bytes) → length (take (suc n) s) ≤ n → length s ≤ n
take-short zero [] h = omega arith
take-short (suc n) [] h = omega arith
take-short zero (c ∷ s) h = absurd (omega arith)
take-short (suc n) (c ∷ s) h = omega (arith, take-short n s (omega arith))

read_limited-eq-ok :
    (limit : ℕ) (reply : Reply) {part : Bytes}
    → read_limited limit reply ≡ ok part
    → (take limit reply.body ≡ part) × ((reply.readable || leb limit (length reply.body)) ≡ true)
read_limited-eq-ok limit reply h =
    elim (Bool-cases (reply.readable || leb limit (length reply.body))) [
      | inl good ↦ (ok-injective (rw good at h), good)
      | inr bad ↦ cc (rw bad at h)
    ]

read_reply_lem :
    (max_bytes : ℕ) (reply : Reply) (body : Bytes)
    → read_reply max_bytes reply ≡ ok body
    → (is_success reply.status ≡ true)
      × (reply.readable ≡ true)
      × (body ≡ reply.body)
      × (length body ≤ max_bytes)
unfolding read_reply
read_reply_lem max_bytes reply body h =
    let (success, h1) = require->>= (is_success reply.status) _ _ h in
    let (limit, h2) = require->>= (not (leb max_bytes 0)) _ _ h1 in
    let (announced, h3) = require->>= (not (ltb_ℤ (pos max_bytes) reply.content_length)) _ _ h2 in
    let (part, read, h4) = >>=-eq-ok (read_limited (suc max_bytes) reply) _ h3 in
    let (small, h5) = require->>= (not (ltb max_bytes (length part))) _ _ h4 in
    let (same_part, came) = read_limited-eq-ok (suc max_bytes) reply read in
    let whole : length reply.body ≤ max_bytes =
      take-short max_bytes reply.body (rw same_part (ground arith)) in
    let same_body : reply.body ≡ body =
      sym (take-all (suc max_bytes) reply.body (omega arith)) ∙ same_part ∙ ok-injective h5 in
    (success, ground arith, sym same_body, rw (← same_body) whole)

module _ ⦃urls : UrlParser⦄ ⦃u : Unicode⦄ ⦃net : AddressParser⦄ (web : Web) where
  -- A download that succeeds is the whole body of the reply to a client for its URL, with a status
  -- from 200 to 299, that was read without an error and is not above the limit, and every contact
  -- for it was allowed.
  pub fetch_url_bytes_limited_lem :
      (raw_url : Bytes) (max_bytes : ℕ) (body : Bytes)
      → fetch_url_bytes_limited web raw_url max_bytes ≡ ok body
      → (p : OutboundPolicy) × (reply : Reply) × (new_outbound_policy raw_url false ≡ ok p)
        × ((client_do web p (get_request p.origin)).outcome ≡ ok reply)
        × (is_success reply.status ≡ true)
        × (reply.readable ≡ true)
        × (body ≡ reply.body)
        × (length body ≤ max_bytes)
        × (all (contact_allowed p) (client_do web p (get_request p.origin)).contacts ≡ true)
  unfolding fetch_url_bytes_limited
  fetch_url_bytes_limited_lem raw_url max_bytes body h =
      let (target, parsed, h1) = >>=-eq-ok (or_err (urls.parse_url raw_url) bad_request) _ h in
      let (p, made, h2) = >>=-eq-ok (map_err bad_client (new_outbound_policy raw_url false)) _ h1 in
      let made' = map_err-eq-ok bad_client (new_outbound_policy raw_url false) made in
      let (origin, _, _) = new_outbound_policy-allowed raw_url false p made' in
      let aimed : target ≡ p.origin =
        cc (or_err-eq-ok (urls.parse_url raw_url) bad_request parsed, origin) in
      let (reply, came, h3) =
        >>=-eq-ok (map_err request_failed (client_do web p (get_request target)).outcome) _ h2 in
      let came' =
        map_err-eq-ok request_failed (client_do web p (get_request target)).outcome came in
      let (success, readable, whole, small) = read_reply_lem max_bytes reply body h3 in
      let (allowed, _) = client_do-contacts web raw_url false p (get_request p.origin) made' refl in
      (p, reply, made', rw (← aimed) came', success, readable, whole, small, allowed)
