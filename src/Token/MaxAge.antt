-- ===== src/Token/MaxAge.antt =====
-- The Max-Age of the allow cookie, which is computed with floats.
use caddy_protector.Base.{
  ℕ, zero, suc, ◌+◌, ◌-◌, ◌*◌, ◌/◌, ◌%◌, ◌^◌, ◌<◌, ◌≤◌, ◌≡◌, inl, inr, ◌&&◌, leb, arith, Bool-cases,
}
use caddy_protector.RateLimit.{second}
use caddy_protector.Token.{power_below, whole_seconds}

doubled : ℕ → ℕ → ℕ
doubled zero p = p
doubled (suc fuel) p = doubled fuel (2 * p)

doubled-le : (fuel p : ℕ) → p ≤ doubled fuel p
unfolding doubled
doubled-le zero p = omega arith
doubled-le (suc fuel) p = omega (arith, doubled-le fuel (2 * p))

power_below-le : (fuel p n : ℕ) → power_below fuel p n ≤ doubled fuel p
unfolding power_below doubled
power_below-le zero p n = omega arith
power_below-le (suc fuel) p n = elim (Bool-cases (leb (2 * p) n)) [
  | inl more ↦ rw more (power_below-le fuel (2 * p) n)
  | inr less ↦ rw less (omega (arith, doubled-le fuel (2 * p)))
]

-- The digits of a quotient.
split : (n : ℕ) → (n ≡ n / second * second + n % second) × (n % second < second)
split n = (omega arith, omega arith)

rounded_up :
    (n seconds rest power : ℕ)
    → n ≡ seconds * second + rest
    → rest < second
    → power ≤ 17179869184
    → (second - rest) * 2 ^ 54 ≤ second * (2 * power + 1)
    → (n < (suc seconds + 1) * second) × (suc seconds * second ≤ n + 1907)
rounded_up n seconds rest power whole short small near = (omega arith, omega arith)

-- The whole seconds of a duration are those that fit, or one more if at most 1907 nanoseconds are
-- missing.
pub whole_seconds_lem :
    (n : ℕ) → (n < (whole_seconds n + 1) * second) × (whole_seconds n * second ≤ n + 1907)
unfolding whole_seconds doubled
whole_seconds_lem n =
    let small : power_below 34 1 (n / second) ≤ 17179869184 = power_below-le 34 1 (n / second) in
    elim (Bool-cases (
      leb 1 (n / second)
      && leb ((second - n % second) * 2 ^ 54) (second * (2 * power_below 34 1 (n / second) + 1)))) [
        | inl up ↦ rw up (
            rounded_up n (n / second) (n % second) (power_below 34 1 (n / second)) (split n).0
              (split n).1 small (ground arith))
        | inr down ↦ rw down (omega arith, omega arith)
      ]
