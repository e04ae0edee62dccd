-- ===== src/Base/Assoc.antt =====
-- Go maps as lists of pairs: lookup, assignment and the deletion of what a test selects.
use caddy_protector.Base.{
  ℕ, suc, ◌≤◌, ◌≡◌, refl, subst, ◌≢◌, ◌↔◌, Bool, true, Option, none, some, List, [], ◌∷◌, arith,
  if◌then◌else◌, length, All,
}

-- `==` on keys.
pub record Eq {ℓ} (K : Type ℓ) : Type ℓ where
  pub beq : K → K → Bool
  pub beq_iff : (a b : K) → (beq a b ≡ true) ↔ (a ≡ b)

abbrev pub eqb {ℓ} : {K : Type ℓ} ⦃e : Eq K⦄ → K → K → Bool
eqb ⦃e⦄ = e.beq

module _ {κ} {V : Type κ} where
  abbrev pub unless : (V → Bool) → Option V → Option V
  unless drop none = none
  unless drop (some v) = if drop v then none else some v

  abbrev pub grown : Option V → ℕ → ℕ
  grown none n = suc n
  grown (some v) n = n

module _ {ℓ κ} {K : Type ℓ} {V : Type κ} ⦃e : Eq K⦄ where
  unfoldable pub lookup : K → List (K × V) → Option V
  lookup k [] = none
  lookup k ((j, v) ∷ m) = if eqb j k then some v else lookup k m

  unfoldable pub insert : K → V → List (K × V) → List (K × V)
  insert k v [] = (k, v) ∷ []
  insert k v ((j, w) ∷ m) = if eqb j k then (j, v) ∷ m else (j, w) ∷ insert k v m

  -- `for k, v := range m { if drop(v) { delete(m, k) } }`
  unfoldable pub remove_where : (V → Bool) → List (K × V) → List (K × V)
  remove_where drop [] = []
  remove_where drop ((j, v) ∷ m) =
      let rest = remove_where drop m in if drop v then rest else (j, v) ∷ rest

  abbrev pub Absent : K → List (K × V) → Type ℓ
  Absent k = All (λ b. b.0 ≢ k)

  -- No key stands twice.
  abbrev pub Distinct : List (K × V) → Type ℓ
  Distinct [] = Unit
  Distinct ((j, v) ∷ m) = Absent j m × Distinct m

  pub lookup-insert :
      (k j : K) (v : V) (m : List (K × V))
      → lookup j (insert k v m) ≡ (if eqb k j then some v else lookup j m)
  unfolding lookup insert
  lookup-insert k j v [] = refl
  lookup-insert k j v ((i, w) ∷ m) =
      ground (arith, e.beq_iff i k, e.beq_iff i j, e.beq_iff k j, lookup-insert k j v m)

  lookup-Absent : (k : K) (m : List (K × V)) → Absent k m → lookup k m ≡ none
  unfolding lookup
  lookup-Absent k [] h = refl
  lookup-Absent k ((j, v) ∷ m) (h, hs) = ground (arith, e.beq_iff j k, lookup-Absent k m hs)

  remove_where-Absent :
      (drop : V → Bool) (k : K) (m : List (K × V)) → Absent k m → Absent k (remove_where drop m)
  unfolding remove_where
  remove_where-Absent drop k [] h = tt
  remove_where-Absent drop k ((j, v) ∷ m) (h, hs) = ground (arith, remove_where-Absent drop k m hs)

  pub remove_where-Distinct :
      (drop : V → Bool) (m : List (K × V)) → Distinct m → Distinct (remove_where drop m)
  unfolding remove_where
  remove_where-Distinct drop [] h = tt
  remove_where-Distinct drop ((j, v) ∷ m) (h, hs) =
      ground (arith, remove_where-Distinct drop m hs, remove_where-Absent drop j m h)

  pub lookup-remove_where :
      (drop : V → Bool) (k : K) (m : List (K × V))
      → Distinct m
      → lookup k (remove_where drop m) ≡ unless drop (lookup k m)
  unfolding lookup remove_where
  lookup-remove_where drop k [] h = refl
  lookup-remove_where drop k ((j, v) ∷ m) (h, hs) = ground (
    arith,
    e.beq_iff j k,
    lookup-remove_where drop k m hs,
    λ (same : j ≡ k). lookup-Absent k m (subst (λ t. Absent t m) same h),
  )

  insert-Absent :
      (k j : K) (v : V) (m : List (K × V)) → j ≢ k → Absent k m → Absent k (insert j v m)
  unfolding insert
  insert-Absent k j v [] n h = (n, tt)
  insert-Absent k j v ((i, w) ∷ m) n (h, hs) = ground (arith, insert-Absent k j v m n hs)

  pub insert-Distinct : (k : K) (v : V) (m : List (K × V)) → Distinct m → Distinct (insert k v m)
  unfolding insert
  insert-Distinct k v [] h = (tt, tt)
  insert-Distinct k v ((i, w) ∷ m) (h, hs) =
      ground
        (arith, e.beq_iff i k, insert-Distinct k v m hs, λ (n : k ≢ i). insert-Absent i k v m n h)

  pub length-remove_where :
      (drop : V → Bool) (m : List (K × V)) → length (remove_where drop m) ≤ length m
  unfolding remove_where
  length-remove_where drop [] = omega arith
  length-remove_where drop ((j, v) ∷ m) = ground (arith, length-remove_where drop m)

  pub length-insert :
      (k : K) (v : V) (m : List (K × V)) → length (insert k v m) ≡ grown (lookup k m) (length m)
  unfolding insert lookup
  length-insert k v [] = refl
  length-insert k v ((i, w) ∷ m) = ground (arith, length-insert k v m)
