-- ===== src/Text/Cut.antt =====
-- strings.Cut finds the first separator.
use caddy_protector.Base.{ℕ, ◌≡◌, refl, ◌≢◌, true, false, [], ◌∷◌, ◌++◌, arith, All}
use caddy_protector.Text.{Bytes, cut}

abbrev pub Lacks : ℕ → Bytes → Type 0
Lacks sep = All (λ c. c ≢ sep)

pub cut-before-Lacks : (s : Bytes) (sep : ℕ) → Lacks sep (cut s sep).before
unfolding cut
cut-before-Lacks [] sep = tt
cut-before-Lacks (c ∷ s) sep = ground (arith, cut-before-Lacks s sep)

pub cut-append :
    (p q : Bytes) (sep : ℕ)
    → Lacks sep p
    → cut (p ++ sep ∷ q) sep ≡ record { before = p; after = q; found = true }
unfolding cut
cut-append [] q sep h = ground arith
cut-append (c ∷ p) q sep (h, hs) = ground (arith, cut-append p q sep hs)

pub cut_of_Lacks :
    (p : Bytes) (sep : ℕ)
    → Lacks sep p
    → cut p sep ≡ record { before = p; after = []; found = false }
unfolding cut
cut_of_Lacks [] sep h = refl
cut_of_Lacks (c ∷ p) sep (h, hs) = ground (arith, cut_of_Lacks p sep hs)

pub found_spells :
    (s : Bytes) (sep : ℕ)
    → (cut s sep).found ≡ true
    → s ≡ (cut s sep).before ++ sep ∷ (cut s sep).after
unfolding cut
found_spells [] sep h = cc
found_spells (c ∷ s) sep h = ground (arith, found_spells s sep)
