-- ===== src/RateLimit/Window.antt =====
-- How many attempts of one address a window of time lets through.
use caddy_protector.Base.{
  ℕ, ◌+◌, ◌-◌, ◌*◌, ◌≤◌, ◌<◌, ◌≡◌, ◌≢◌, inl, inr, Bool, true, false, ◌&&◌, Option, none, some, List,
  [], ◌∷◌, arith, Bool-cases,
}
use caddy_protector.Base.Assoc.{lookup}
use caddy_protector.Netip.{Addr, addr_Eq, addr_eq, addr_eq_iff}
use caddy_protector.RateLimit.{Entry, Limits, burst, refill_time, made, allow_verify_attempt}
use caddy_protector.RateLimit.Bucket.{credit, most, credit_time}
use caddy_protector.RateLimit.Table.{
  IsValid, allow_verify_attempt-IsValid, allow_verify_attempt-credit,
  allow_verify_attempt-other_credit, cost,
}

-- The attempts, each with its time, in the order in which they take the lock.
abbrev pub Trace : Type 0
Trace = List (Addr × ℕ)

abbrev pub counted : Bool → ℕ
counted true = 1
counted false = 0

-- The attempts of `client` that are allowed.
pub granted : Addr → Option Limits → Trace → ℕ
granted client limits [] = 0
granted client limits ((a, now) ∷ trace) =
    let done = allow_verify_attempt limits a now in
    counted (addr_eq a client && done.allowed) + granted client (some done.limits) trace

-- The clock does not go back.
abbrev pub InOrder : ℕ → Trace → Type 0
InOrder start [] = Unit
InOrder start ((a, now) ∷ trace) = (start ≤ now) × InOrder now trace

abbrev pub finish : ℕ → Trace → ℕ
finish start [] = start
finish start ((a, now) ∷ trace) = finish now trace

finish-le : (start : ℕ) (trace : Trace) → InOrder start trace → start ≤ finish start trace
finish-le start [] h = omega arith
finish-le start ((a, now) ∷ trace) (h, hs) = omega (arith, finish-le now trace hs)

cost-counted : (allowed : Bool) → cost allowed ≡ refill_time * counted allowed
cost-counted true = omega arith
cost-counted false = omega arith

-- One attempt, whoever makes it, seen from one client.
attempt_cost :
    (client a : Addr) (limits : Option Limits) (now : ℕ)
    → IsValid (made limits)
    → refill_time * counted (addr_eq a client && (allow_verify_attempt limits a now).allowed)
        + credit now (lookup client (allow_verify_attempt limits a now).limits)
      ≤ credit now (lookup client (made limits))
attempt_cost client a limits now h = elim (Bool-cases (addr_eq a client)) [
  | inl same ↦
      let e : a ≡ client = (addr_eq_iff a client).0 same in
      rw same (
        rw e (
          omega (
            arith,
            cost-counted (allow_verify_attempt limits client now).allowed,
            allow_verify_attempt-credit limits client now h,
          )))
  | inr other ↦
      let n : a ≢ client = (λ e. cc ((addr_eq_iff a client).1 e)) in
      rw other (omega (arith, allow_verify_attempt-other_credit limits a client now h n))
]

granted-credit :
    (client : Addr) (limits : Option Limits) (start : ℕ) (trace : Trace)
    → IsValid (made limits)
    → InOrder start trace
    → refill_time * granted client limits trace
      ≤ credit start (lookup client (made limits)) + (finish start trace - start)
unfolding granted
granted-credit client limits start [] h hs = omega arith
granted-credit client limits start ((a, now) ∷ trace) h (k, ks) =
    let next = allow_verify_attempt limits a now in
    omega (
      arith,
      attempt_cost client a limits now h,
      granted-credit client (some next.limits) now trace
          (allow_verify_attempt-IsValid limits a now h) ks,
      credit_time start now (lookup client (made limits)) k,
      finish-le now trace ks,
    )

credit-le-most : (now : ℕ) (o : Option Entry) → credit now o ≤ most
credit-le-most now none = omega arith
credit-le-most now (some e) = omega arith

-- In any window of time, whatever other addresses do, fewer attempts of one address are let through
-- than 16 and one more for each three seconds of the window, if the table is well formed and the
-- clock does not go back.
pub granted-window :
    (client : Addr) (limits : Option Limits) (start : ℕ) (trace : Trace)
    → IsValid (made limits)
    → InOrder start trace
    → refill_time * granted client limits trace
      < (burst + 1) * refill_time + (finish start trace - start)
granted-window client limits start trace h hs = omega (
  arith,
  granted-credit client limits start trace h hs,
  credit-le-most start (lookup client (made limits)),
)
