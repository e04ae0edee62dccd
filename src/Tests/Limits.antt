-- ===== src/Tests/Limits.antt =====
-- The rate limit at concrete inputs.
use mathlib.Core.List.{Permᴰ}
use mathlib.Core.Quot
use caddy_protector.Base.{◌+◌, ◌-◌, ◌*◌, ◌<◌, ◌≤◌, ◌≡◌, ◌≢◌, refl, sym, true, some, [], ◌∷◌, arith}
use caddy_protector.Base.Assoc.{lookup, remove_where, unless}
use caddy_protector.Netip.{Addr, v6, addr_Eq}
use caddy_protector.RateLimit.{
  Limits, burst, refill_time, second, is_stale, allow_verify_attempt, attempt, spend, refill,
  retry_after_seconds,
}
use caddy_protector.RateLimit.Table.{
  IsValid, allow_verify_attempt-IsValid, allow_verify_attempt-other,
}
use caddy_protector.RateLimit.Window.{Trace, granted, finish, granted-window}
use caddy_protector.RateLimit.Retry.{retry_after_lem, retry_after_seconds_tight}
use caddy_protector.RateLimit.Order.{Ordered, outcomes, outcomes_order}
use caddy_protector.Tests.Fixtures.{home}

abbrev other_home : Addr
other_home = v6 1 []

-- A bucket that is used up.
abbrev empty_bucket : Limits
empty_bucket = (home, record { tokens = 0; last_refill = 10 * second }) ∷ []

empty_bucket-IsValid : IsValid empty_bucket
empty_bucket-IsValid = record {
  distinct = (tt, tt);
  small = (omega arith, tt);
  bounded = omega arith;
}

allow_verify_attempt-IsValid_example :
    IsValid (allow_verify_attempt (some empty_bucket) other_home (11 * second)).limits
allow_verify_attempt-IsValid_example =
    allow_verify_attempt-IsValid (some empty_bucket) other_home (11 * second) empty_bucket-IsValid

homes_differ : other_home ≢ home
homes_differ h = cc

allow_verify_attempt-other_example :
    lookup home (allow_verify_attempt (some empty_bucket) other_home (11 * second)).limits
    ≡ unless (is_stale (11 * second)) (lookup home empty_bucket)
allow_verify_attempt-other_example =
    allow_verify_attempt-other (some empty_bucket) other_home home (11 * second)
      empty_bucket-IsValid homes_differ

abbrev visits : Trace
visits = (home, 11 * second) ∷ (other_home, 12 * second) ∷ (home, 14 * second) ∷ []

granted-window_example :
    refill_time * granted home (some empty_bucket) visits
    < (burst + 1) * refill_time + (finish (10 * second) visits - 10 * second)
granted-window_example =
    granted-window home (some empty_bucket) (10 * second) visits empty_bucket-IsValid
      (omega arith, (omega arith, (omega arith, tt)))

retry_after_lem_example :
    (allow_verify_attempt
      (some (allow_verify_attempt (some empty_bucket) home (11 * second)).limits)
      home
      (13 * second)).allowed
    ≡ true
unfolding lookup allow_verify_attempt attempt spend refill remove_where retry_after_seconds
retry_after_lem_example =
    retry_after_lem empty_bucket home (record { tokens = 0; last_refill = 10 * second })
      (11 * second) (13 * second) empty_bucket-IsValid refl refl (omega arith)

retry_after_seconds_tight_example :
    (1 ≤ retry_after_seconds (2 * second + 1))
    × (retry_after_seconds (2 * second + 1) * second < 2 * second + 1 + second + 1)
retry_after_seconds_tight_example = retry_after_seconds_tight (2 * second + 1)

-- Two buckets in both orders.
abbrev two_buckets : Ordered
two_buckets = (
  (home, record { tokens = 0; last_refill = 10 * second })
      ∷ (other_home, record { tokens = 1; last_refill = 9 * second })
      ∷ [],
  record {
    distinct = ((homes_differ, tt), (tt, tt));
    small = (omega arith, (omega arith, tt));
    bounded = omega arith;
  },
)

abbrev swapped_buckets : Ordered
swapped_buckets = (
  (other_home, record { tokens = 1; last_refill = 9 * second })
      ∷ (home, record { tokens = 0; last_refill = 10 * second })
      ∷ [],
  record {
    distinct = ((λ h. homes_differ (sym h), tt), (tt, tt));
    small = (omega arith, (omega arith, tt));
    bounded = omega arith;
  },
)

outcomes_order_example :
    outcomes (some two_buckets.0) visits ≡ outcomes (some swapped_buckets.0) visits
outcomes_order_example =
    outcomes_order visits two_buckets swapped_buckets (Quot.sound (Permᴰ.swap refl refl))
