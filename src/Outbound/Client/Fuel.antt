-- ===== src/Outbound/Client/Fuel.antt =====
-- The fuel of client.Do is enough, since a fourth redirect is refused; and a rule for what client.Do does.
use caddy_protector.Base.{
  ℕ, zero, suc, ◌+◌, ◌≤◌, ◌<◌, ◌≡◌, ◌≢◌, refl, ap, inl, inr, Bool, false, true, Option, none, some,
  ltb, arith, Bool-cases,
}
use caddy_protector.Base.Result.{Result, ok, err}
use caddy_protector.Text.Unicode.{Unicode}
use caddy_protector.Netip.{Addr}
use caddy_protector.IpList.{AddressParser}
use caddy_protector.Config.{Url, UrlParser}
use caddy_protector.Outbound.{
  OutboundPolicy, OutboundError, max_outbound_redirects, check_redirect, dial_context,
}
use caddy_protector.Outbound.Client.{
  Outgoing, Reply, Answer, moved, final, Web, ClientError, dial_failed, redirect_refused, no_answer,
  out_of_fuel, Done, failed, replied, moved_request, after_contact, after_check, after_answer,
  after_dial, client_do_from, client_do,
}

abbrev pub is_fuel_error : ClientError → Bool
is_fuel_error out_of_fuel = true
is_fuel_error _ = false

abbrev ran_out : Result ClientError Reply → Bool
ran_out (err e) = is_fuel_error e
ran_out (ok reply) = false

module _ ⦃urls : UrlParser⦄ ⦃u : Unicode⦄ ⦃net : AddressParser⦄ (web : Web)
    (p : OutboundPolicy) where
  pub check_redirect-early :
      (via : ℕ) (target : Url) (t : Unit {0})
      → check_redirect p via target ≡ ok t
      → via ≤ max_outbound_redirects
  unfolding check_redirect
  check_redirect-early via target t h = elim (Bool-cases (ltb max_outbound_redirects via)) [
    | inl late ↦ cc (rw late at h)
    | inr early ↦ ground arith
  ]

  -- Two ways to go on that agree wherever a redirect may lead come to the same.
  after_check-agree :
      (checked : Result OutboundError (Unit {0})) (next next' : Outgoing → Done) (sent : Outgoing)
      → ((t : Unit {0}) → checked ≡ ok t → next sent ≡ next' sent)
      → after_check web p checked next sent ≡ after_check web p checked next' sent
  after_check-agree (err e) next next' sent h = refl
  after_check-agree (ok t) next next' sent h = h t refl

  after_answer-agree :
      (via : ℕ) (answer : Option Answer) (next next' : Outgoing → Done) (sent : Outgoing)
      → ((status : ℕ) (target : Url) (t : Unit {0})
          → check_redirect p (suc via) target ≡ ok t
          → next (moved_request status target sent) ≡ next' (moved_request status target sent))
      → after_answer web p via answer next sent ≡ after_answer web p via answer next' sent
  after_answer-agree via none next next' sent h = refl
  after_answer-agree via (some (final reply)) next next' sent h = refl
  after_answer-agree via (some (moved status target)) next next' sent h =
      after_check-agree (check_redirect p (suc via) target) next next'
        (moved_request status target sent) (h status target)

  after_dial-agree :
      (via : ℕ) (dialled : Result OutboundError Addr) (next next' : Outgoing → Done)
      (sent : Outgoing)
      → ((status : ℕ) (target : Url) (t : Unit {0})
          → check_redirect p (suc via) target ≡ ok t
          → next (moved_request status target sent) ≡ next' (moved_request status target sent))
      → after_dial web p via dialled next sent ≡ after_dial web p via dialled next' sent
  after_dial-agree via (err e) next next' sent h = refl
  after_dial-agree via (ok address) next next' sent h =
      ap (after_contact (record { address = address; sent = sent }))
        (after_answer-agree via (web.exchange via address sent) next next' sent h)

  -- What holds of every failure but one for want of fuel, of every reply, and of a request with what
  -- follows it, holds of all that client.Do does.
  after_answer-rule :
      (Q : Done → Type 0) (via : ℕ) (answer : Option Answer) (next : Outgoing → Done)
      (sent : Outgoing)
      → ((e : ClientError) → is_fuel_error e ≡ false → Q (failed e))
      → ((reply : Reply) → Q (replied reply))
      → ((status : ℕ) (target : Url) (t : Unit {0})
          → check_redirect p (suc via) target ≡ ok t
          → Q (next (moved_request status target sent)))
      → Q (after_answer web p via answer next sent)
  after_answer-rule Q via none next sent bad good more = bad no_answer refl
  after_answer-rule Q via (some (final reply)) next sent bad good more = good reply
  after_answer-rule Q via (some (moved status target)) next sent bad good more =
      checked (check_redirect p (suc via) target) refl
    where
      checked :
          (c : Result OutboundError (Unit {0}))
          → check_redirect p (suc via) target ≡ c
          → Q (after_check web p c next (moved_request status target sent))
      checked (err e) same_c = bad (redirect_refused e) refl
      checked (ok t) same_c = more status target t same_c

  -- What holds before the contact may differ from what holds with it.
  pub after_dial-rule :
      (Q R : Done → Type 0) (via : ℕ) (dialled : Result OutboundError Addr) (next : Outgoing → Done)
      (sent : Outgoing)
      → ((e : ClientError) → is_fuel_error e ≡ false → Q (failed e) × R (failed e))
      → ((reply : Reply) → Q (replied reply))
      → ((address : Addr) (d : Done)
          → dialled ≡ ok address
          → Q d
          → R (after_contact (record { address = address; sent = sent }) d))
      → ((status : ℕ) (target : Url) (t : Unit {0})
          → check_redirect p (suc via) target ≡ ok t
          → Q (next (moved_request status target sent)))
      → R (after_dial web p via dialled next sent)
  after_dial-rule Q R via (err e) next sent bad good met more = (bad (dial_failed e) refl).1
  after_dial-rule Q R via (ok address) next sent bad good met more = met address _ refl (
      after_answer-rule Q via (web.exchange via address sent) next sent (λ e h. (bad e h).0) good
        more)

  client_do_from-more :
      (fuel extra via : ℕ) (sent : Outgoing)
      → via ≤ max_outbound_redirects
      → max_outbound_redirects < fuel + via
      → client_do_from web p (fuel + extra) via sent ≡ client_do_from web p fuel via sent
  unfolding client_do_from
  client_do_from-more zero extra via sent early enough = absurd (omega arith)
  client_do_from-more (suc fuel) extra via sent early enough =
      let longer : suc fuel + extra ≡ suc (fuel + extra) = omega arith in
      rw longer (
        after_dial-agree via (dial_context p (web.resolve via sent.target.hostname)) _ _ sent
          (λ status target t checked.
            let soon = check_redirect-early (suc via) target t checked in
            client_do_from-more fuel extra (suc via) (moved_request status target sent) soon
              (omega arith)))

  client_do_from-ends :
      (fuel via : ℕ) (sent : Outgoing)
      → via ≤ max_outbound_redirects
      → max_outbound_redirects < fuel + via
      → ran_out (client_do_from web p fuel via sent).outcome ≡ false
  unfolding client_do_from
  client_do_from-ends zero via sent early enough = absurd (omega arith)
  client_do_from-ends (suc fuel) via sent early enough =
      after_dial-rule (λ d. ran_out d.outcome ≡ false) (λ d. ran_out d.outcome ≡ false) via
        (dial_context p (web.resolve via sent.target.hostname))
        (client_do_from web p fuel (suc via)) sent (λ e h. (h, h)) (λ reply. refl)
        (λ address d dialled h. h)
        (λ status target t checked.
          let soon = check_redirect-early (suc via) target t checked in
          client_do_from-ends fuel (suc via) (moved_request status target sent) soon (omega arith))

  -- A client ends within four requests, whatever the servers answer: it does not run out of fuel,
  -- and more fuel changes nothing.
  pub client_do_terminates :
      (extra : ℕ) (sent : Outgoing)
      → (client_do_from web p (suc max_outbound_redirects + extra) 0 sent ≡ client_do web p sent)
        × ((client_do web p sent).outcome ≢ err out_of_fuel)
  unfolding client_do
  client_do_terminates extra sent = (
    client_do_from-more (suc max_outbound_redirects) extra 0 sent (omega arith) (omega arith),
    λ h. cc (client_do_from-ends (suc max_outbound_redirects) 0 sent (omega arith) (omega arith)),
  )
