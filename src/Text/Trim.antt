-- ===== src/Text/Trim.antt =====
-- A text that begins with a visible character is not all white space.
use mathlib.Core.List.{reverse_aux, reverse-cons}
use caddy_protector.Base.{
  ℕ, ◌<◌, ◌≡◌, refl, ◌==◌, ◌&&◌, Bool, false, [], ◌∷◌, ◌++◌, true, if◌then◌else◌, reverse, is_nil,
  arith,
}
use caddy_protector.Text.{Bytes}
use caddy_protector.Text.Unicode.{
  is_ascii_space, is_c2_space, is_wide_space, trim_left, trim_back, trim_space,
}

-- A letter, a digit or a mark of ASCII.
abbrev pub IsVisible : ℕ → Type 0
IsVisible c = (32 < c) × (c < 128)

pub trim_left-visible : (c : ℕ) (s : Bytes) → IsVisible c → trim_left (c ∷ s) ≡ c ∷ s
unfolding trim_left
trim_left-visible c [] (h, k) = ground arith
trim_left-visible c (x ∷ []) (h, k) = ground arith
trim_left-visible c (x ∷ y ∷ s) (h, k) = ground arith

if-filled :
    (b : Bool) (s t : Bytes)
    → is_nil s ≡ false
    → is_nil t ≡ false
    → is_nil (if b then s else t) ≡ false
if-filled true s t h k = h
if-filled false s t h k = k

narrow : (a b c : ℕ) → IsVisible a → is_wide_space a b c ≡ false
narrow a b c (h, k) = ground arith

not_wide :
    (x y c : ℕ) → IsVisible c → is_nil (if is_wide_space c y x then [] else x ∷ y ∷ c ∷ []) ≡ false
not_wide x y c h = rw (narrow c y x h)

trim_back-visible : (s : Bytes) (c : ℕ) → IsVisible c → is_nil (trim_back (s ++ c ∷ [])) ≡ false
unfolding trim_back
trim_back-visible [] c (h, k) = ground arith
trim_back-visible (x ∷ []) c (h, k) = ground arith
trim_back-visible (x ∷ y ∷ []) c h =
    if-filled (is_ascii_space x) (trim_back (y ∷ c ∷ [])) _ (trim_back-visible (y ∷ []) c h) (
      if-filled (y == 0xc2 && is_c2_space x) (trim_back (c ∷ [])) _ (trim_back-visible [] c h)
        (not_wide x y c h))
trim_back-visible (x ∷ y ∷ z ∷ s) c h =
    if-filled (is_ascii_space x) (trim_back (y ∷ z ∷ s ++ c ∷ [])) _
      (trim_back-visible (y ∷ z ∷ s) c h)
      (if-filled (y == 0xc2 && is_c2_space x) (trim_back (z ∷ s ++ c ∷ [])) _
        (trim_back-visible (z ∷ s) c h)
        (if-filled (is_wide_space z y x) (trim_back (s ++ c ∷ [])) (x ∷ y ∷ z ∷ s ++ c ∷ [])
          (trim_back-visible s c h) refl))

reverse_aux-filled : (s t : Bytes) → is_nil t ≡ false → is_nil (reverse_aux s t) ≡ false
reverse_aux-filled [] t h = h
reverse_aux-filled (c ∷ s) t h = reverse_aux-filled s (c ∷ t) refl

is_nil-reverse : (s : Bytes) → is_nil s ≡ false → is_nil (reverse s) ≡ false
is_nil-reverse [] h = cc
is_nil-reverse (c ∷ s) h = reverse_aux-filled s (c ∷ []) refl

pub trim_space-visible : (c : ℕ) (s : Bytes) → IsVisible c → is_nil (trim_space (c ∷ s)) ≡ false
unfolding trim_space
trim_space-visible c s h = rw (trim_left-visible c s h) (
    is_nil-reverse (trim_back (reverse (c ∷ s)))
      (rw (reverse-cons c s) (trim_back-visible (reverse s) c h)))
