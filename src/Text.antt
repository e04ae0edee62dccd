-- ===== src/Text.antt =====
-- The Go operations on strings that the program uses. A string is the list of its bytes.
pub mod Unicode
pub mod Decimal
pub mod Cut
pub mod Segments
pub mod Trim
use Prim.Native.Char.{code}
use caddy_protector.Base.Assoc.{Eq}
use Prim.Native.String.{String}
use caddy_protector.Base.{
  ℕ, ◌≡◌, refl, ◌↔◌, Bool, true, false, ◌&&◌, ◌||◌, List, [], ◌∷◌, arith, ◌==◌, if◌then◌else◌,
}

abbrev pub Bytes : Type 0
Bytes = List ℕ

-- The bytes of an ASCII literal.
abbrev pub codes : String → Bytes
codes String.[] = []
codes (String.◌∷◌ c s) = code c ∷ codes s

-- `==` on strings.
abbrev pub same : Bytes → Bytes → Bool
same [] [] = true
same (a ∷ s) (b ∷ t) = a == b && same s t
same _ _ = false

-- strings.HasPrefix(s, prefix)
abbrev pub has_prefix : Bytes → Bytes → Bool
has_prefix s [] = true
has_prefix [] (b ∷ p) = false
has_prefix (a ∷ s) (b ∷ p) = a == b && has_prefix s p

-- strings.Contains(s, sub)
unfoldable pub contains : Bytes → Bytes → Bool
contains [] sub = has_prefix [] sub
contains (a ∷ s) sub = has_prefix (a ∷ s) sub || contains s sub

-- strings.Cut(s, sep) for a separator of one byte: what stands before and after the first one,
-- and whether there is one.
pub record Pieces : Type 0 where
  pub before : Bytes
  pub after : Bytes
  pub found : Bool

unfoldable pub cut : Bytes → ℕ → Pieces
cut [] sep = record { before = []; after = []; found = false }
cut (c ∷ s) sep =
    let rest = cut s sep in
    if c == sep
    then record { before = []; after = s; found = true }
    else record { before = c ∷ rest.before; after = rest.after; found = rest.found }

-- The last byte, and `0` of the empty string.
abbrev pub last_byte : Bytes → ℕ
last_byte [] = 0
last_byte (c ∷ []) = c
last_byte (c ∷ d ∷ s) = last_byte (d ∷ s)

pub same_refl : (s : Bytes) → same s s ≡ true
same_refl [] = refl
same_refl (a ∷ s) = ground (arith, same_refl s)

pub eq_of_same : (s t : Bytes) → same s t ≡ true → s ≡ t
eq_of_same [] [] h = refl
eq_of_same [] (b ∷ t) h = cc
eq_of_same (a ∷ s) [] h = cc
eq_of_same (a ∷ s) (b ∷ t) h = ground (arith, eq_of_same s t)

pub same_iff : (s t : Bytes) → (same s t ≡ true) ↔ (s ≡ t)
same_iff s t = (eq_of_same s t, λ e. rw e (same_refl t))

instance abbrev pub bytes_Eq : Eq Bytes
bytes_Eq = record { beq = same; beq_iff = same_iff }
