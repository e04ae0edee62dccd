-- ===== src/RateLimit/Bucket.antt =====
-- One bucket: what a refill and a grant do to its credit, in nanoseconds.
use caddy_protector.Base.{ℕ, ◌+◌, ◌-◌, ◌*◌, ◌≤◌, ◌<◌, Option, none, some, min, arith}
use caddy_protector.RateLimit.{Entry, burst, refill_time, refill}

-- The tokens, at the time that each takes to come back, and the time that counts towards the next.
abbrev pub worth : ℕ → Entry → ℕ
worth now e = refill_time * e.tokens + (now - e.last_refill)

-- One nanosecond less than a full bucket and one more token.
abbrev pub most : ℕ
most = burst * refill_time + (refill_time - 1)

abbrev pub credit : ℕ → Option Entry → ℕ
credit now none = burst * refill_time
credit now (some e) = min most (worth now e)

pub refill-le-burst : (now : ℕ) (e : Entry) → e.tokens ≤ burst → (refill now e).tokens ≤ burst
unfolding refill
refill-le-burst now e h = ground arith

pub worth-refill :
    (now : ℕ) (e : Entry) → e.tokens ≤ burst → worth now (refill now e) ≤ credit now (some e)
unfolding refill
worth-refill now e h = ground arith

-- After a refill less than one refill time is left over.
pub refill-recent : (now : ℕ) (e : Entry) → now - (refill now e).last_refill < refill_time
unfolding refill
refill-recent now e = ground arith

-- Waiting adds no more credit than the time waited.
pub credit_time :
    (now later : ℕ) (o : Option Entry) → now ≤ later → credit later o ≤ credit now o + (later - now)
credit_time now later none h = omega arith
credit_time now later (some e) h = omega arith
