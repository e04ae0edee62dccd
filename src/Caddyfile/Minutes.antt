-- ===== src/Caddyfile/Minutes.antt =====
-- parseMinutesDuration: which durations the Caddyfile gives.
use caddy_protector.Base.{
  ℕ, ◌*◌, ◌≤◌, ◌<◌, ◌≡◌, ◌↔◌, refl, subst, ap, true, false, not, ◌||◌, some, [], ◌∷◌, ◌++◌, leb,
  is_nil, all, arith,
}
use caddy_protector.Base.Int.{ℤ, pos}
use caddy_protector.Base.Result.{ok, or_err, require->>=, or_err-eq-ok, ok-injective, >>=-eq-ok}
use caddy_protector.Text.{Bytes}
use caddy_protector.Caddyfile.{
  bad_duration, minute, is_digit, atoi, trim_m, has_sign, minutes_duration, parse_minutes_duration,
}

-- The most minutes whose nanoseconds fit an int64.
abbrev pub max_minutes : ℕ
max_minutes = 153_722_867

minutes_duration-exact :
    (minutes : ℕ) → (minutes_duration minutes ≡ pos (minutes * minute)) ↔ (minutes ≤ max_minutes)
minutes_duration-exact minutes = ground arith

-- An accepted duration is that of a number of minutes above 0, and it is exact if and only if the
-- number is at most 153722867.
pub parse_minutes_duration_lem :
    (raw : Bytes) (duration : ℤ)
    → parse_minutes_duration raw ≡ ok duration
    → (minutes : ℕ) × (atoi (trim_m raw) ≡ some minutes)
      × (0 < minutes)
      × ((duration ≡ pos (minutes * minute)) ↔ (minutes ≤ max_minutes))
unfolding parse_minutes_duration
parse_minutes_duration_lem raw duration h =
    let (given, h1) = require->>= (not (is_nil raw)) _ _ h in
    let (plain, h2) = require->>= (not (is_nil (trim_m raw) || has_sign (trim_m raw))) _ _ h1 in
    let (minutes, read, h3) = >>=-eq-ok (or_err (atoi (trim_m raw)) bad_duration) _ h2 in
    let (positive, h4) = require->>= (not (leb minutes 0)) _ _ h3 in
    (
      minutes,
      or_err-eq-ok _ _ read,
      ground arith,
      subst (λ d. (d ≡ pos (minutes * minute)) ↔ (minutes ≤ max_minutes)) (ok-injective h4)
          (minutes_duration-exact minutes),
    )

trim_m-m : (s : Bytes) → trim_m (s ++ b'm' ∷ []) ≡ s
unfolding trim_m
trim_m-m [] = refl
trim_m-m (c ∷ []) = refl
trim_m-m (c ∷ d ∷ s) = ap (λ t. c ∷ t) (trim_m-m (d ∷ s))

trim_m-digits : (s : Bytes) → all is_digit s ≡ true → trim_m s ≡ s
unfolding trim_m
trim_m-digits [] h = refl
trim_m-digits (c ∷ []) h = ground arith
trim_m-digits (c ∷ d ∷ s) h = ap (λ t. c ∷ t) (trim_m-digits (d ∷ s) (ground arith))

is_nil-append_m : (s : Bytes) → is_nil (s ++ b'm' ∷ []) ≡ false
is_nil-append_m [] = refl
is_nil-append_m (c ∷ s) = refl

-- Digits mean the same with an "m" behind them and without it.
pub parse_minutes_duration-m :
    (s : Bytes)
    → all is_digit s ≡ true
    → is_nil s ≡ false
    → parse_minutes_duration (s ++ b'm' ∷ []) ≡ parse_minutes_duration s
unfolding parse_minutes_duration
parse_minutes_duration-m s h k = rw (trim_m-m s, trim_m-digits s h, is_nil-append_m s, k)
