-- ===== src/Base/Result.antt =====
-- A value or an error, as Go returns them.
use caddy_protector.Base.{Bool, true, false, ◌⊎◌, inl, inr, ◌≡◌, refl, ap, Option, none, some}

pub data Result {ℓ κ} (E : Type κ) (A : Type ℓ) : Type (ℓ ⊔ κ) where
  ok : A → Result E A
  err : E → Result E A

-- An absent value is an error.
abbrev pub or_err {ℓ κ} : {A : Type ℓ} {E : Type κ} → Option A → E → Result E A
or_err none failure = err failure
or_err (some a) failure = ok a

module _ {ℓ κ ι} {A : Type ℓ} {B : Type κ} {E : Type ι} where
  infixl 5 ◌>>=◌
  abbrev pub ◌>>=◌ : Result E A → (A → Result E B) → Result E B
  err failure >>= next = err failure
  ok value >>= next = next value

  -- A chain that succeeds has a first step that does.
  pub >>=-eq-ok :
      (first : Result E A) (next : A → Result E B) {b : B}
      → (first >>= next) ≡ ok b
      → (a : A) × (first ≡ ok a) × (next a ≡ ok b)
  >>=-eq-ok (err failure) next h = cc
  >>=-eq-ok (ok value) next h = (value, refl, h)

pub or_err-eq-ok {ℓ κ} :
    {A : Type ℓ} {E : Type κ} (o : Option A) (e : E) {a : A} → or_err o e ≡ ok a → o ≡ some a
or_err-eq-ok none e h = cc
or_err-eq-ok (some a) e h = cc

-- An error in another type of errors.
abbrev pub map_err {ℓ κ ι} :
    {A : Type ℓ} {E : Type κ} {F : Type ι} → (E → F) → Result E A → Result F A
map_err f (ok a) = ok a
map_err f (err e) = err (f e)

pub ok-injective {ℓ κ} :
    {A : Type ℓ} {E : Type κ} {a b : A} → ◌≡◌ {A = Result E A} (ok a) (ok b) → a ≡ b
ok-injective h = cc

pub map_err-eq-ok {ℓ κ ι} :
    {A : Type ℓ} {E : Type κ} {F : Type ι} (f : E → F) (m : Result E A) {a : A}
    → map_err f m ≡ ok a
    → m ≡ ok a
map_err-eq-ok f (ok a) h = ap ok (ok-injective h)
map_err-eq-ok f (err e) h = cc

pub Result-cases {ℓ κ} :
    {A : Type ℓ} {E : Type κ} (m : Result E A) → ((a : A) × (m ≡ ok a)) ⊎ ((e : E) × (m ≡ err e))
Result-cases (ok a) = inl (a, refl)
Result-cases (err e) = inr (e, refl)

abbrev pub is_ok {ℓ κ} : {E : Type κ} {A : Type ℓ} → Result E A → Bool
is_ok (ok a) = true
is_ok (err e) = false

module _ {κ} {E : Type κ} where
  -- A condition that must hold.
  abbrev pub require : Bool → E → Result E (Unit {0})
  require true failure = ok tt
  require false failure = err failure

  pub require-eq-ok : (b : Bool) (failure : E) {t : Unit {0}} → require b failure ≡ ok t → b ≡ true
  require-eq-ok true failure h = refl
  require-eq-ok false failure h = cc

  pub require->>= {ℓ} :
      {B : Type ℓ} (b : Bool) (failure : E) (next : Unit {0} → Result E B) {y : B}
      → (require b failure >>= next) ≡ ok y
      → (b ≡ true) × (next tt ≡ ok y)
  require->>= true failure next h = (refl, h)
  require->>= false failure next h = cc
