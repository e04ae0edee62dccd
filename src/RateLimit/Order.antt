-- ===== src/RateLimit/Order.antt =====
-- The table of buckets without an order, as Go's maps are.
use mathlib.Core.List.{Permᴰ}
use mathlib.Core.Quot
use mathlib.Core.Quot.{Quot, Quot-set}
use caddy_protector.Base.{
  ℕ, ◌≡◌, refl, ap, inl, inr, Bool, Option, none, some, List, [], ◌∷◌, leb, ◌==◌, length,
  Bool-cases,
}
use caddy_protector.Base.Assoc.{lookup, Distinct, remove_where, remove_where-Distinct}
use caddy_protector.Base.Orders.{lookup-Perm, length-Perm, remove_where-Perm, insert-Perm}
use caddy_protector.Netip.{Addr, addr_Eq}
use caddy_protector.RateLimit.{
  Entry, Limits, Attempt, max_entries, is_stale, refill, spend, attempt, allow_verify_attempt,
}
use caddy_protector.RateLimit.Table.{IsValid, allow_verify_attempt-IsValid}
use caddy_protector.RateLimit.Window.{Trace}

-- Two attempts that tell the same, and leave the same buckets.
pub record IsLike (a b : Attempt) : Type 0 where
  pub allowed : a.allowed ≡ b.allowed
  pub retry_after : a.retry_after ≡ b.retry_after
  pub buckets : Permᴰ a.limits b.limits

spend-IsLike :
    (m n : Limits) (client : Addr) (now : ℕ) (entry : Entry)
    → Permᴰ m n
    → Distinct m
    → IsLike (spend m client now entry) (spend n client now entry)
unfolding spend
spend-IsLike m n client now entry p h = elim (Bool-cases (entry.tokens == 0)) [
  | inl spent ↦ rw spent (record { allowed = refl; retry_after = refl; buckets = p })
  | inr some_left ↦
      rw some_left
        (record { allowed = refl; retry_after = refl; buckets = insert-Perm client _ p h })
]

attempt-IsLike :
    (m n : Limits) (client : Addr) (now : ℕ) (found : Option Entry)
    → Permᴰ m n
    → Distinct m
    → IsLike (attempt m client now found) (attempt n client now found)
unfolding attempt
attempt-IsLike m n client now none p h = elim (Bool-cases (leb max_entries (length n))) [
  | inl full ↦ rw (length-Perm p, full) (record { allowed = refl; retry_after = refl; buckets = p })
  | inr room ↦ rw (length-Perm p, room) (spend-IsLike m n client now _ p h)
]
attempt-IsLike m n client now (some entry) p h = spend-IsLike m n client now (refill now entry) p h

pub allow_verify_attempt-IsLike :
    (m n : Limits) (client : Addr) (now : ℕ)
    → Permᴰ m n
    → Distinct m
    → IsLike (allow_verify_attempt (some m) client now) (allow_verify_attempt (some n) client now)
unfolding allow_verify_attempt
allow_verify_attempt-IsLike m n client now p h =
    let fresh = remove_where-Perm (is_stale now) p in
    let distinct = remove_where-Distinct (is_stale now) m h in
    rw (← lookup-Perm client fresh distinct) (
      attempt-IsLike (remove_where (is_stale now) m) (remove_where (is_stale now) n) client now
        (lookup client (remove_where (is_stale now) m)) fresh distinct)

-- What each attempt of a trace is told.
pub outcomes : Option Limits → Trace → List (Bool × ℕ)
outcomes limits [] = []
outcomes limits ((a, now) ∷ trace) =
    let done = allow_verify_attempt limits a now in
    (done.allowed, done.retry_after) ∷ outcomes (some done.limits) trace

outcomes-Perm :
    (trace : Trace) (m n : Limits)
    → IsValid m
    → Permᴰ m n
    → outcomes (some m) trace ≡ outcomes (some n) trace
unfolding outcomes
outcomes-Perm [] m n h p = refl
outcomes-Perm ((a, now) ∷ trace) m n h p =
    let like = allow_verify_attempt-IsLike m n a now p h.distinct in
    let next =
      outcomes-Perm trace (allow_verify_attempt (some m) a now).limits
        (allow_verify_attempt (some n) a now).limits (allow_verify_attempt-IsValid (some m) a now h)
        like.buckets in
    rw (like.allowed, like.retry_after, next)

-- A well-formed table, and what is left of it when the order is forgotten.
abbrev pub Ordered : Type 0
Ordered = (m : Limits) × IsValid m

abbrev pub SameBuckets : Ordered → Ordered → Type 0
SameBuckets m n = Permᴰ m.0 n.0

abbrev pub Unordered : Type 0
Unordered = Quot SameBuckets

-- The attempts of a trace on a table without an order.
pub unordered_outcomes : Trace → Unordered → List (Bool × ℕ)
unordered_outcomes trace =
    Quot.lift (hlevel) (λ m. outcomes (some m.0) trace) (λ m n p. outcomes-Perm trace m.0 n.0 m.1 p)

-- The answers to a sequence of attempts, with their Retry-After, depend on a well-formed table only
-- as a collection without an order, as a Go map is: they are the same for two lists that are equal
-- in the quotient by permutations.
pub outcomes_order :
    (trace : Trace) (m n : Ordered)
    → ◌≡◌ {A = Unordered} (Quot.mk m) (Quot.mk n)
    → outcomes (some m.0) trace ≡ outcomes (some n.0) trace
unfolding unordered_outcomes
outcomes_order trace m n same = ap (unordered_outcomes trace) same
