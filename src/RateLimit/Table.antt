-- ===== src/RateLimit/Table.antt =====
-- The table of buckets: its invariant, and what an attempt does to the bucket of each address.
use caddy_protector.Base.{
  ℕ, ◌+◌, ◌-◌, ◌≤◌, ◌≡◌, ◌≢◌, refl, ◌∙◌, inl, inr, Bool, true, false, Option, none, some, [], ◌∷◌,
  leb, ◌==◌, length, arith, All, Option-cases, Bool-cases,
}
use caddy_protector.Base.Assoc.{
  lookup, insert, remove_where, Distinct, unless, lookup-insert, lookup-remove_where,
  remove_where-Distinct, insert-Distinct, length-remove_where, length-insert, grown,
}
use caddy_protector.Netip.{Addr, addr_Eq, addr_eq_iff}
use caddy_protector.RateLimit.{
  Entry, Limits, burst, refill_time, max_entries, is_stale, refill, spend, attempt, made,
  allow_verify_attempt,
}
use caddy_protector.RateLimit.Bucket.{credit, worth, refill-le-burst, worth-refill}

abbrev pub Small : Limits → Type 0
Small = All (λ b. b.1.tokens ≤ burst)

-- One bucket for an address, no bucket above the burst, and no more buckets than the limit.
pub record IsValid (limits : Limits) : Type 0 where
  pub distinct : Distinct limits
  pub small : Small limits
  pub bounded : length limits ≤ max_entries

lookup-Small :
    (a : Addr) (m : Limits) (e : Entry) → Small m → lookup a m ≡ some e → e.tokens ≤ burst
unfolding lookup
lookup-Small a [] e h k = cc
lookup-Small a ((j, v) ∷ m) e (h, hs) k = ground (arith, lookup-Small a m e hs)

insert-Small :
    (a : Addr) (e : Entry) (m : Limits) → e.tokens ≤ burst → Small m → Small (insert a e m)
unfolding insert
insert-Small a e [] h hs = (h, tt)
insert-Small a e ((j, v) ∷ m) h (k, ks) = ground (arith, insert-Small a e m h ks)

remove_where-Small : (drop : Entry → Bool) (m : Limits) → Small m → Small (remove_where drop m)
unfolding remove_where
remove_where-Small drop [] h = tt
remove_where-Small drop ((j, v) ∷ m) (h, hs) = ground (arith, remove_where-Small drop m hs)

pub remove_where-IsValid :
    (drop : Entry → Bool) {m : Limits} → IsValid m → IsValid (remove_where drop m)
remove_where-IsValid drop {m} h = record {
  distinct = remove_where-Distinct drop m h.distinct;
  small = remove_where-Small drop m h.small;
  bounded = omega (arith, length-remove_where drop m, h.bounded);
}

spend-IsValid :
    (m : Limits) (a : Addr) (now : ℕ) (e : Entry)
    → IsValid m
    → e.tokens ≤ burst
    → ((w : Entry) → length (insert a w m) ≤ max_entries)
    → IsValid (spend m a now e).limits
unfolding spend
spend-IsValid m a now e h small room = elim (Bool-cases (e.tokens == 0)) [
  | inl z ↦ rw z h
  | inr z ↦ rw z (record {
    distinct = insert-Distinct a _ m h.distinct;
    small = insert-Small a _ m (omega arith) h.small;
    bounded = room _;
  })
]

insert-bounded :
    (m : Limits) (a : Addr) (w : Entry)
    → grown (lookup a m) (length m) ≤ max_entries
    → length (insert a w m) ≤ max_entries
insert-bounded m a w h = rw (length-insert a w m) h

attempt-IsValid :
    (m : Limits) (a : Addr) (now : ℕ) → IsValid m → IsValid (attempt m a now (lookup a m)).limits
unfolding attempt
attempt-IsValid m a now h = elim (Option-cases (lookup a m)) [
  | inr (e, found) ↦
      let room : grown (lookup a m) (length m) ≤ max_entries = rw found h.bounded in
      rw found (
        spend-IsValid m a now (refill now e) h
          (refill-le-burst now e (lookup-Small a m e h.small found))
          (λ w. insert-bounded m a w room))
  | inl missing ↦ elim (Bool-cases (leb max_entries (length m))) [
    | inl full ↦ rw (missing, full) h
    | inr free ↦
        let room : grown (lookup a m) (length m) ≤ max_entries = rw missing (ground arith) in
        rw (missing, free)
          (spend-IsValid m a now (refill now (record { tokens = burst; last_refill = now })) h
            (refill-le-burst now (record { tokens = burst; last_refill = now }) (omega arith))
            (λ w. insert-bounded m a w room))
  ]
]

-- An attempt keeps a table well formed: one bucket for an address, no bucket above the burst, and
-- at most 10000 buckets.
pub allow_verify_attempt-IsValid :
    (limits : Option Limits) (client : Addr) (now : ℕ)
    → IsValid (made limits)
    → IsValid (allow_verify_attempt limits client now).limits
unfolding allow_verify_attempt
allow_verify_attempt-IsValid limits client now h =
    attempt-IsValid _ client now (remove_where-IsValid (is_stale now) h)

-- The cost of an attempt: one refill time if it is allowed.
abbrev pub cost : Bool → ℕ
cost true = refill_time
cost false = 0

spend-credit :
    (m : Limits) (a : Addr) (now : ℕ) (e : Entry)
    → worth now e ≤ credit now (lookup a m)
    → credit now (lookup a (spend m a now e).limits) + cost (spend m a now e).allowed
      ≤ credit now (lookup a m)
unfolding spend
spend-credit m a now e h = elim (Bool-cases (e.tokens == 0)) [
  | inl z ↦ rw z (omega arith)
  | inr z ↦ rw z (rw (lookup-insert, (addr_eq_iff a a).1 refl) (ground arith))
]

attempt-credit :
    (m : Limits) (a : Addr) (now : ℕ)
    → IsValid m
    → credit now (lookup a (attempt m a now (lookup a m)).limits)
        + cost (attempt m a now (lookup a m)).allowed
      ≤ credit now (lookup a m)
unfolding attempt
attempt-credit m a now h = elim (Option-cases (lookup a m)) [
  | inr (e, found) ↦ rw found (
      rw found at (
        spend-credit m a now (refill now e)
          (rw found (worth-refill now e (lookup-Small a m e h.small found)))))
  | inl missing ↦ elim (Bool-cases (leb max_entries (length m))) [
    | inl full ↦ rw (missing, full) (rw missing (omega arith))
    | inr free ↦
        rw (missing, free)
          (rw missing at (
            spend-credit m a now (refill now (record { tokens = burst; last_refill = now })) (
              rw missing
                (omega (arith, worth-refill now (record { tokens = burst; last_refill = now }))))))
  ]
]

credit-unless : (now : ℕ) (o : Option Entry) → credit now (unless (is_stale now) o) ≤ credit now o
credit-unless now none = omega arith
credit-unless now (some e) = ground arith

credit-fresh :
    (now : ℕ) (a : Addr) (m : Limits)
    → IsValid m
    → credit now (lookup a (remove_where (is_stale now) m)) ≤ credit now (lookup a m)
credit-fresh now a m h =
    rw (lookup-remove_where (is_stale now) a m h.distinct) (credit-unless now (lookup a m))

-- An attempt takes its cost from the client's credit.
pub allow_verify_attempt-credit :
    (limits : Option Limits) (client : Addr) (now : ℕ)
    → IsValid (made limits)
    → credit now (lookup client (allow_verify_attempt limits client now).limits)
        + cost (allow_verify_attempt limits client now).allowed
      ≤ credit now (lookup client (made limits))
unfolding allow_verify_attempt
allow_verify_attempt-credit limits client now h = omega (
  arith,
  attempt-credit (remove_where (is_stale now) (made limits)) client now
      (remove_where-IsValid (is_stale now) h),
  credit-fresh now client (made limits) h,
)

spend-other :
    (m : Limits) (a b : Addr) (now : ℕ) (e : Entry)
    → a ≢ b
    → lookup b (spend m a now e).limits ≡ lookup b m
unfolding spend
spend-other m a b now e n = ground (
  arith,
  lookup-insert a b (record { tokens = e.tokens - 1; last_refill = e.last_refill }) m,
  addr_eq_iff a b,
)

attempt-other :
    (m : Limits) (a b : Addr) (now : ℕ) (o : Option Entry)
    → a ≢ b
    → lookup b (attempt m a now o).limits ≡ lookup b m
unfolding attempt
attempt-other m a b now none n =
    ground
      (arith, spend-other m a b now (refill now (record { tokens = burst; last_refill = now })) n)
attempt-other m a b now (some e) n = spend-other m a b now (refill now e) n

-- In a well-formed table, an attempt leaves the bucket of every other address as it is, or removes
-- it if it is stale.
pub allow_verify_attempt-other :
    (limits : Option Limits) (client other : Addr) (now : ℕ)
    → IsValid (made limits)
    → client ≢ other
    → lookup other (allow_verify_attempt limits client now).limits
      ≡ unless (is_stale now) (lookup other (made limits))
unfolding allow_verify_attempt
allow_verify_attempt-other limits client other now h n =
    attempt-other (remove_where (is_stale now) (made limits)) client other now _ n
    ∙ lookup-remove_where (is_stale now) other (made limits) h.distinct

pub allow_verify_attempt-other_credit :
    (limits : Option Limits) (client other : Addr) (now : ℕ)
    → IsValid (made limits)
    → client ≢ other
    → credit now (lookup other (allow_verify_attempt limits client now).limits)
      ≤ credit now (lookup other (made limits))
allow_verify_attempt-other_credit limits client other now h n =
    rw (allow_verify_attempt-other limits client other now h n)
      (credit-unless now (lookup other (made limits)))
