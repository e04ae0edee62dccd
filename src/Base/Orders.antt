-- ===== src/Base/Orders.antt =====
-- Maps as lists of pairs in another order.
use mathlib.Core.List.{Permᴰ}
use mathlib.Core.List.Permᴰ as PermD
use caddy_protector.Base.{
  suc, ◌≡◌, ◌≢◌, refl, sym, ap, ◌∙◌, subst, inl, inr, Bool, false, List, ◌∷◌, arith, length,
  Bool-cases,
}
use caddy_protector.Base.Assoc.{Eq, eqb, lookup, insert, remove_where, Absent, Distinct}

module _ {ℓ κ} {K : Type ℓ} {V : Type κ} ⦃e : Eq K⦄ where
  Absent-Perm : (k : K) {m n : List (K × V)} → Permᴰ m n → Absent k m → Absent k n
  Absent-Perm k Permᴰ.nil h = tt
  Absent-Perm k (Permᴰ.cons p rest) (h, hs) = (subst (λ b. b.0 ≢ k) p h, Absent-Perm k rest hs)
  Absent-Perm k (Permᴰ.swap p q) (h, (i, hs)) =
      (subst (λ b. b.0 ≢ k) q i, (subst (λ b. b.0 ≢ k) p h, hs))
  Absent-Perm k (Permᴰ.trans first second) h = Absent-Perm k second (Absent-Perm k first h)

  Distinct-swap : (a b : K × V) (m : List (K × V)) → Distinct (a ∷ b ∷ m) → Distinct (b ∷ a ∷ m)
  Distinct-swap a b m ((h, i), (j, hs)) = ((λ s. h (sym s), j), (i, hs))

  pub Distinct-Perm : {m n : List (K × V)} → Permᴰ m n → Distinct m → Distinct n
  Distinct-Perm Permᴰ.nil h = tt
  Distinct-Perm (Permᴰ.cons {a = a} {l₂ = n} p rest) (h, hs) =
      (subst (λ b. Absent b.0 n) p (Absent-Perm a.0 rest h), Distinct-Perm rest hs)
  Distinct-Perm (Permᴰ.swap {a = a} {b = b} {a' = a'} {b' = b'} {l = m} p q) h =
      subst (λ t. Distinct (t ∷ b' ∷ m)) q
        (subst (λ t. Distinct (b ∷ t ∷ m)) p (Distinct-swap a b m h))
  Distinct-Perm (Permᴰ.trans first second) h = Distinct-Perm second (Distinct-Perm first h)

  pub length-Perm : {m n : List (K × V)} → Permᴰ m n → length m ≡ length n
  length-Perm Permᴰ.nil = refl
  length-Perm (Permᴰ.cons p rest) = ap suc (length-Perm rest)
  length-Perm (Permᴰ.swap p q) = refl
  length-Perm (Permᴰ.trans first second) = length-Perm first ∙ length-Perm second

  lookup-swap :
      (k : K) (a b : K × V) (m : List (K × V))
      → b.0 ≢ a.0
      → lookup k (a ∷ b ∷ m) ≡ lookup k (b ∷ a ∷ m)
  unfolding lookup
  lookup-swap k (i, v) (j, w) m h = ground (arith, e.beq_iff i k, e.beq_iff j k)

  lookup-same :
      (k : K) (a : K × V) (m n : List (K × V))
      → lookup k m ≡ lookup k n
      → lookup k (a ∷ m) ≡ lookup k (a ∷ n)
  unfolding lookup
  lookup-same k (i, v) m n h = rw h

  pub lookup-Perm : (k : K) {m n : List (K × V)} → Permᴰ m n → Distinct m → lookup k m ≡ lookup k n
  lookup-Perm k Permᴰ.nil h = refl
  lookup-Perm k (Permᴰ.cons {a = a} {l₁ = m} {l₂ = n} p rest) (h, hs) =
      rw (← p) (lookup-same k a m n (lookup-Perm k rest hs))
  lookup-Perm k (Permᴰ.swap {a = a} {b = b} {l = m} p q) ((h, i), (j, hs)) =
      rw (← p, ← q) (lookup-swap k a b m h)
  lookup-Perm k (Permᴰ.trans first second) h =
      lookup-Perm k first h ∙ lookup-Perm k second (Distinct-Perm first h)

  both_orders : {a b : K × V} {m : List (K × V)} → Permᴰ (a ∷ b ∷ m) (b ∷ a ∷ m)
  both_orders = Permᴰ.swap refl refl

  keep_first : (a : K × V) {m n : List (K × V)} → Permᴰ m n → Permᴰ (a ∷ m) (a ∷ n)
  keep_first a p = Permᴰ.cons refl p

  remove-cons :
      (drop : V → Bool) (a : K × V) (m n : List (K × V))
      → Permᴰ (remove_where drop m) (remove_where drop n)
      → Permᴰ (remove_where drop (a ∷ m)) (remove_where drop (a ∷ n))
  unfolding remove_where
  remove-cons drop (i, v) m n p = elim (Bool-cases (drop v)) [
    | inl out ↦ rw out p
    | inr kept ↦ rw kept (keep_first (i, v) p)
  ]

  remove-swap :
      (drop : V → Bool) (a b : K × V) (m : List (K × V))
      → Permᴰ (remove_where drop (a ∷ b ∷ m)) (remove_where drop (b ∷ a ∷ m))
  unfolding remove_where
  remove-swap drop (i, v) (j, w) m = elim (Bool-cases (drop v)) [
    | inl out ↦ elim (Bool-cases (drop w)) [
      | inl out' ↦ rw (out, out') (PermD.refl _)
      | inr kept' ↦ rw (out, kept') (PermD.refl _)
    ]
    | inr kept ↦ elim (Bool-cases (drop w)) [
      | inl out' ↦ rw (kept, out') (PermD.refl _)
      | inr kept' ↦ rw (kept, kept') both_orders
    ]
  ]

  pub remove_where-Perm :
      (drop : V → Bool) {m n : List (K × V)}
      → Permᴰ m n
      → Permᴰ (remove_where drop m) (remove_where drop n)
  remove_where-Perm drop Permᴰ.nil = PermD.refl _
  remove_where-Perm drop (Permᴰ.cons {a = a} {l₁ = m} {l₂ = n} p rest) =
      rw (← p) (remove-cons drop a m n (remove_where-Perm drop rest))
  remove_where-Perm drop (Permᴰ.swap {a = a} {b = b} {l = m} p q) =
      rw (← p, ← q) (remove-swap drop a b m)
  remove_where-Perm drop (Permᴰ.trans first second) =
      Permᴰ.trans (remove_where-Perm drop first) (remove_where-Perm drop second)

  insert-cons :
      (k : K) (v : V) (a : K × V) {m n : List (K × V)}
      → Permᴰ m n
      → Permᴰ (insert k v m) (insert k v n)
      → Permᴰ (insert k v (a ∷ m)) (insert k v (a ∷ n))
  unfolding insert
  insert-cons k v (i, w) rest p = elim (Bool-cases (eqb i k)) [
    | inl found ↦ rw found (keep_first (i, v) rest)
    | inr other ↦ rw other (keep_first (i, w) p)
  ]

  insert-swap :
      (k : K) (v : V) (a b : K × V) (m : List (K × V))
      → b.0 ≢ a.0
      → Permᴰ (insert k v (a ∷ b ∷ m)) (insert k v (b ∷ a ∷ m))
  unfolding insert
  insert-swap k v (i, u) (j, w) m h = elim (Bool-cases (eqb i k)) [
    | inl found ↦
        let other : eqb j k ≡ false = ground (arith, e.beq_iff i k, e.beq_iff j k) in
        rw (found, other) both_orders
    | inr other ↦ elim (Bool-cases (eqb j k)) [
      | inl found' ↦ rw (other, found') both_orders
      | inr other' ↦ rw (other, other') both_orders
    ]
  ]

  pub insert-Perm :
      (k : K) (v : V) {m n : List (K × V)}
      → Permᴰ m n
      → Distinct m
      → Permᴰ (insert k v m) (insert k v n)
  insert-Perm k v Permᴰ.nil h = PermD.refl _
  insert-Perm k v (Permᴰ.cons {a = a} p rest) (h, hs) =
      rw (← p) (insert-cons k v a rest (insert-Perm k v rest hs))
  insert-Perm k v (Permᴰ.swap {a = a} {b = b} {l = m} p q) ((h, i), (j, hs)) =
      rw (← p, ← q) (insert-swap k v a b m h)
  insert-Perm k v (Permᴰ.trans first second) h =
      Permᴰ.trans (insert-Perm k v first h) (insert-Perm k v second (Distinct-Perm first h))
