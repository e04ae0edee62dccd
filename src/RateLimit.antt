-- ===== src/RateLimit.antt =====
-- verification_handler.go, allowVerifyAttempt and its helpers: a token bucket for each client
-- address. Times and durations are nanoseconds. A time before `last_refill` counts as no time
-- passed, which decides every test as the negative difference of the source does.
pub mod Bucket
pub mod Table
pub mod Order
pub mod Window
pub mod Retry
use caddy_protector.Base.{
  ℕ, ◌+◌, ◌-◌, ◌*◌, ◌/◌, Bool, true, false, Option, none, some, List, [], leb, ◌==◌, if◌then◌else◌,
  length, min,
}
use caddy_protector.Base.Assoc.{lookup, insert, remove_where}
use caddy_protector.Netip.{Addr, addr_Eq}

abbrev pub second : ℕ
second = 1_000_000_000

-- verifyRateLimitBurst
abbrev pub burst : ℕ
burst = 15

-- verifyRateLimitRefill
abbrev pub refill_time : ℕ
refill_time = 3 * second

-- verifyRateLimitEntryLifetime
abbrev pub entry_lifetime : ℕ
entry_lifetime = burst * refill_time

-- maxVerifyRateLimitEntries
abbrev pub max_entries : ℕ
max_entries = 10000

-- verifyRateLimitEntry
pub record Entry : Type 0 where
  pub tokens : ℕ
  pub last_refill : ℕ

abbrev pub Limits : Type 0
Limits = List (Addr × Entry)

pub record Attempt : Type 0 where
  pub limits : Limits
  pub allowed : Bool
  pub retry_after : ℕ

abbrev pub is_stale : ℕ → Entry → Bool
is_stale now entry = leb entry_lifetime (now - entry.last_refill)

unfoldable pub refill : ℕ → Entry → Entry
refill now entry =
    let elapsed = now - entry.last_refill in
    let refills = elapsed / refill_time in
    if leb refill_time elapsed
    then record {
      tokens = min burst (entry.tokens + refills);
      last_refill = entry.last_refill + refills * refill_time;
    }
    else entry

-- What follows the lookup: `limits` is the table without its stale entries.
unfoldable pub spend : Limits → Addr → ℕ → Entry → Attempt
spend limits client now entry =
    if entry.tokens == 0
    then record {
      limits = limits;
      allowed = false;
      retry_after = entry.last_refill + refill_time - now;
    }
    else record {
      limits =
          insert client (record { tokens = entry.tokens - 1; last_refill = entry.last_refill })
            limits;
      allowed = true;
      retry_after = 0;
    }

unfoldable pub attempt : Limits → Addr → ℕ → Option Entry → Attempt
attempt limits client now none =
    if leb max_entries (length limits)
    then record { limits = limits; allowed = false; retry_after = refill_time }
    else spend limits client now (refill now (record { tokens = burst; last_refill = now }))
attempt limits client now (some entry) = spend limits client now (refill now entry)

-- A map that was never made is `none`.
abbrev pub made : Option Limits → Limits
made none = []
made (some limits) = limits

unfoldable pub allow_verify_attempt : Option Limits → Addr → ℕ → Attempt
allow_verify_attempt limits client now =
    let fresh = remove_where (is_stale now) (made limits) in
    attempt fresh client now (lookup client fresh)

-- retryAfterSeconds, of a duration that is not negative
unfoldable pub retry_after_seconds : ℕ → ℕ
retry_after_seconds retry_after =
    if leb retry_after 0 then 1 else (retry_after + second - 1) / second

-- resetVerifyRateLimits
unfoldable pub reset_verify_rate_limits : Option Limits → Option Limits
reset_verify_rate_limits limits = some []
