-- ===== src/RateLimit/Retry.antt =====
-- Retry-After: a client that waits for the announced seconds is let through.
use caddy_protector.Base.{
  ℕ, ◌+◌, ◌-◌, ◌*◌, ◌≤◌, ◌<◌, ◌≡◌, refl, ap, ◌∙◌, inl, inr, Bool, true, false, none, some, [], ◌∷◌,
  length, arith, Bool-cases,
}
use caddy_protector.Base.Assoc.{lookup, remove_where, lookup-remove_where, length-remove_where}
use caddy_protector.Netip.{Addr, addr_Eq}
use caddy_protector.RateLimit.{
  Entry, Limits, second, refill_time, max_entries, is_stale, refill, spend, attempt,
  allow_verify_attempt, retry_after_seconds,
}
use caddy_protector.RateLimit.Table.{IsValid, remove_where-IsValid}

pub retry_after_seconds-le : (d : ℕ) → d ≤ retry_after_seconds d * second
unfolding retry_after_seconds
retry_after_seconds-le d = ground arith

-- The header never says 0, and rounds up by less than a second.
pub retry_after_seconds_tight :
    (d : ℕ) → (1 ≤ retry_after_seconds d) × (retry_after_seconds d * second < d + second + 1)
unfolding retry_after_seconds
retry_after_seconds_tight d = ground arith

length-remove_where_lt :
    (drop : Entry → Bool) (a : Addr) (e : Entry) (m : Limits)
    → lookup a m ≡ some e
    → drop e ≡ true
    → length (remove_where drop m) < length m
unfolding lookup remove_where
length-remove_where_lt drop a e [] h k = cc
length-remove_where_lt drop a e ((j, v) ∷ m) h k =
    ground (arith, length-remove_where drop m, length-remove_where_lt drop a e m)

-- A refusal of a known bucket says when its next token comes.
spend-refused :
    (m : Limits) (a : Addr) (now : ℕ) (e : Entry)
    → (spend m a now (refill now e)).allowed ≡ false
    → (e.tokens ≡ 0)
      × (now - e.last_refill < refill_time)
      × ((spend m a now (refill now e)).limits ≡ m)
      × ((spend m a now (refill now e)).retry_after ≡ e.last_refill + refill_time - now)
unfolding spend refill
spend-refused m a now e h = ground arith

spend-allowed :
    (m : Limits) (a : Addr) (now : ℕ) (e : Entry)
    → e.last_refill + refill_time ≤ now
    → (spend m a now (refill now e)).allowed ≡ true
unfolding spend refill
spend-allowed m a now e h = ground arith

attempt_absent :
    (m : Limits) (a : Addr) (now : ℕ)
    → length m < max_entries
    → (attempt m a now none).allowed ≡ true
unfolding attempt spend refill
attempt_absent m a now h = ground arith

attempt_gone :
    (m : Limits) (a : Addr) (now : ℕ) (e : Entry)
    → IsValid m
    → lookup a m ≡ some e
    → is_stale now e ≡ true
    → (allow_verify_attempt (some m) a now).allowed ≡ true
unfolding allow_verify_attempt
attempt_gone m a now e h found stale =
    let gone : lookup a (remove_where (is_stale now) m) ≡ none =
      lookup-remove_where (is_stale now) a m h.distinct ∙ (rw found (rw stale)) in
    rw gone (
      attempt_absent (remove_where (is_stale now) m) a now
        (omega (arith, length-remove_where_lt (is_stale now) a e m found stale, h.bounded)))

attempt_kept :
    (m : Limits) (a : Addr) (now : ℕ) (e : Entry)
    → IsValid m
    → lookup a m ≡ some e
    → is_stale now e ≡ false
    → (lookup a (remove_where (is_stale now) m) ≡ some e)
      × (allow_verify_attempt (some m) a now
          ≡ spend (remove_where (is_stale now) m) a now (refill now e))
unfolding allow_verify_attempt
attempt_kept m a now e h found kept =
    let seen : lookup a (remove_where (is_stale now) m) ≡ some e =
      lookup-remove_where (is_stale now) a m h.distinct ∙ (rw found (rw kept)) in
    (seen, rw seen (unfold attempt in refl))

attempt_after :
    (m : Limits) (a : Addr) (later : ℕ) (e : Entry)
    → IsValid m
    → lookup a m ≡ some e
    → e.last_refill + refill_time ≤ later
    → (allow_verify_attempt (some m) a later).allowed ≡ true
attempt_after m a later e h found wait = elim (Bool-cases (is_stale later e)) [
  | inl stale ↦ attempt_gone m a later e h found stale
  | inr kept ↦ rw ((attempt_kept m a later e h found kept).1) (spend-allowed _ a later e wait)
]

-- In a well-formed table, a client that has a bucket and is refused is let through once the
-- announced seconds have passed, if nobody makes an attempt before.
pub retry_after_lem :
    (limits : Limits) (client : Addr) (entry : Entry) (now later : ℕ)
    → IsValid limits
    → lookup client limits ≡ some entry
    → (allow_verify_attempt (some limits) client now).allowed ≡ false
    → now + retry_after_seconds (allow_verify_attempt (some limits) client now).retry_after * second
      ≤ later
    → (allow_verify_attempt
        (some (allow_verify_attempt (some limits) client now).limits)
        client
        later).allowed
      ≡ true
retry_after_lem m a e now later h found no_grant wait = elim (Bool-cases (is_stale now e)) [
  | inl stale ↦ cc (attempt_gone m a now e h found stale)
  | inr kept ↦
      let (seen, same) = attempt_kept m a now e h found kept in
      let fresh = remove_where (is_stale now) m in
      let (_, _, kept_table, retry) = spend-refused fresh a now e (rw same at no_grant) in
      let table : (allow_verify_attempt (some m) a now).limits ≡ fresh =
        ap (λ r. r.limits) same ∙ kept_table in
      let announced : (allow_verify_attempt (some m) a now).retry_after
          ≡ e.last_refill + refill_time - now =
        ap (λ r. r.retry_after) same ∙ retry in
      let due : e.last_refill + refill_time ≤ later = omega (
        arith,
        announced,
        wait,
        retry_after_seconds-le (allow_verify_attempt (some m) a now).retry_after,
      ) in
      rw table (attempt_after fresh a later e (remove_where-IsValid (is_stale now) h) seen due)
]
