-- ===== src/Verify/Admission.antt =====
-- What has been checked when a verification comes to the rate limit.
use caddy_protector.Base.{
  ℕ, ◌≤◌, ◌≡◌, refl, inl, inr, Bool, true, false, not, Option, none, some, ltb, length, is_nil,
  arith, Bool-cases,
}
use caddy_protector.Base.Result.{
  require-eq-ok, Result, ok, err, or_err, >>=-eq-ok, or_err-eq-ok, ok-injective,
}
use caddy_protector.Text.{codes}
use caddy_protector.Text.Unicode.{Unicode, trim_space}
use caddy_protector.Http.{Request, header_get}
use caddy_protector.Netip.{Addr, unmap}
use caddy_protector.IpList.{AddressParser}
use caddy_protector.Protector.{Protector}
use caddy_protector.Token.{Crypto, Codec, ReturnStateClaims, TokenError, verify_return_state}
use caddy_protector.Token.ReturnState.{IsGoodState, verify_return_state-IsGoodState}
use caddy_protector.Verify.{
  VerifyRequest, Parsers, Content, max_verify_body_bytes, Admitted, get_client_ip,
  is_json_content_type, bad_body, bad_client_ip, decode_verify_request, only_value, state_checked,
  admit,
}

not-eq-true : (b : Bool) → not b ≡ true → b ≡ false
not-eq-true true h = cc
not-eq-true false h = refl

state_checked-eq-ok :
    (checked : Result TokenError ReturnStateClaims) {claims : ReturnStateClaims}
    → state_checked checked ≡ ok claims
    → checked ≡ ok claims
state_checked-eq-ok (ok c) h = ground arith
state_checked-eq-ok (err e) h = cc

module _ ⦃parsers : Parsers⦄ ⦃u : Unicode⦄ ⦃crypto : Crypto⦄ ⦃net : AddressParser⦄
    (states : Codec ReturnStateClaims) where
  pub record IsAdmitted (bb : Protector) (r : Request) (body : Content) (now : ℕ) (a : Admitted)
      : Type 0 where
    pub json : is_json_content_type (header_get (codes "Content-Type") r.headers) ≡ true
    pub whole : body.complete ≡ true
    pub small : length body.text ≤ max_verify_body_bytes
    pub alone : parsers.decode_request body.text ≡ some (a.request, true)
    pub token_given : is_nil (trim_space a.request.token) ≡ false
    pub state_given : is_nil (trim_space a.request.state) ≡ false
    pub good_state : IsGoodState states bb.return_state_mac_key a.request.state now a.claims
    pub parsed : Addr
    pub from : net.parse_addr (get_client_ip r) ≡ some parsed
    pub unmapped : a.client ≡ unmap parsed

  only_value-eq-some :
      (o : Option (VerifyRequest × Bool)) (request : VerifyRequest)
      → only_value o ≡ some request
      → o ≡ some (request, true)
  only_value-eq-some none request h = cc
  only_value-eq-some (some (q, true)) request h = ground arith
  only_value-eq-some (some (q, false)) request h = cc

  decode-eq-some :
      (body : Content) (request : VerifyRequest)
      → decode_verify_request body ≡ some request
      → (body.complete ≡ true)
        × (length body.text ≤ max_verify_body_bytes)
        × (parsers.decode_request body.text ≡ some (request, true))
  unfolding decode_verify_request
  decode-eq-some body request h = elim (Bool-cases body.complete) [
    | inr part ↦ cc (rw part at h)
    | inl whole ↦ elim (Bool-cases (ltb max_verify_body_bytes (length body.text))) [
      | inl long ↦ cc (rw (whole, long) at h)
      | inr short ↦ (
        whole,
        ground arith,
        only_value-eq-some (parsers.decode_request body.text) request (rw (whole, short) at h),
      )
    ]
  ]

  -- What comes to the rate limit is a JSON request that was read whole, has at most 4096 bytes and
  -- nothing after its object, with a token, a return state that is authentic and has not expired,
  -- and a client address that parses.
  pub admit-IsAdmitted :
      (bb : Protector) (r : Request) (body : Content) (now : ℕ) (a : Admitted)
      → admit states bb r body now ≡ ok a
      → IsAdmitted bb r body now a
  unfolding admit
  admit-IsAdmitted bb r body now a h =
      let (_, json, h1) = >>=-eq-ok _ _ h in
      let (request, decoded, h2) = >>=-eq-ok (or_err (decode_verify_request body) bad_body) _ h1 in
      let (_, token, h3) = >>=-eq-ok _ _ h2 in
      let (_, state, h4) = >>=-eq-ok _ _ h3 in
      let (claims, good, h5) =
        >>=-eq-ok
          (state_checked (verify_return_state states bb.return_state_mac_key request.state now)) _
          h4 in
      let (parsed, from, h6) =
        >>=-eq-ok (or_err (net.parse_addr (get_client_ip r)) bad_client_ip) _ h5 in
      let made = ok-injective h6 in
      let (whole, small, alone) = decode-eq-some body request (or_err-eq-ok _ _ decoded) in
      rw (← made) (record {
        json = require-eq-ok _ _ json;
        whole = whole;
        small = small;
        alone = alone;
        token_given = not-eq-true _ (require-eq-ok _ _ token);
        state_given = not-eq-true _ (require-eq-ok _ _ state);
        good_state =
            verify_return_state-IsGoodState states bb.return_state_mac_key request.state now
              (state_checked-eq-ok _ good);
        parsed = parsed;
        from = or_err-eq-ok _ _ from;
        unmapped = refl;
      })
