-- ===== src/Text/Unicode.antt =====
-- strings.TrimSpace, ToLower, ToUpper and EqualFold. Go treats ASCII texts apart from the others;
-- the case tables of Unicode are a parameter, and the white space of Unicode is written out in UTF-8.
use caddy_protector.Base.{
  ℕ, ◌+◌, ◌-◌, ◌≡◌, refl, Bool, true, false, ◌&&◌, ◌||◌, [], ◌∷◌, map, reverse, ltb, leb, ◌==◌,
  if◌then◌else◌, all, is_nil, Bool-cases, inl, inr,
}
use caddy_protector.Text.{Bytes, codes, same, same_refl}

-- What the strings package does to texts that are not ASCII.
pub record Unicode : Type 0 where
  pub lower : Bytes → Bytes
  pub upper : Bytes → Bytes
  pub equal_fold : Bytes → Bytes → Bool
  pub equal_fold-self : (s : Bytes) → equal_fold s s ≡ true
  pub lower-is_nil : (s : Bytes) → is_nil s ≡ false → is_nil (lower s) ≡ false

abbrev pub is_ascii : Bytes → Bool
is_ascii = all (λ c. ltb c 128)

abbrev pub lower_byte : ℕ → ℕ
lower_byte c = if leb b'A' c && leb c b'Z' then c + 32 else c

abbrev pub upper_byte : ℕ → ℕ
upper_byte c = if leb b'a' c && leb c b'z' then c - 32 else c

module _ ⦃u : Unicode⦄ where
  unfoldable pub to_lower : Bytes → Bytes
  to_lower s = if is_ascii s then map lower_byte s else u.lower s

  unfoldable pub to_upper : Bytes → Bytes
  to_upper s = if is_ascii s then map upper_byte s else u.upper s

  unfoldable pub equal_fold : Bytes → Bytes → Bool
  equal_fold s t =
      if is_ascii s && is_ascii t
      then same (map lower_byte s) (map lower_byte t)
      else u.equal_fold s t

module _ ⦃u : Unicode⦄ where
  pub to_lower-is_nil : (s : Bytes) → is_nil s ≡ false → is_nil (to_lower s) ≡ false
  unfolding to_lower
  to_lower-is_nil [] h = cc
  to_lower-is_nil (c ∷ s) h = elim (Bool-cases (is_ascii (c ∷ s))) [
    | inl plain ↦ rw plain
    | inr other ↦ rw other (u.lower-is_nil (c ∷ s) h)
  ]

  pub equal_fold_refl : (s : Bytes) → equal_fold s s ≡ true
  unfolding equal_fold
  equal_fold_refl s = elim (Bool-cases (is_ascii s)) [
    | inl plain ↦ rw plain (same_refl (map lower_byte s))
    | inr other ↦ rw other (u.equal_fold-self s)
  ]

abbrev pub is_ascii_space : ℕ → Bool
is_ascii_space c = (leb 9 c && leb c 13) || c == 32

-- U+0085 and U+00A0, after the byte 0xc2.
abbrev pub is_c2_space : ℕ → Bool
is_c2_space c = c == 0x85 || c == 0xa0

-- The code points U+1680, U+2000 to U+200A, U+2028, U+2029, U+202F, U+205F and U+3000.
abbrev pub is_wide_space : ℕ → ℕ → ℕ → Bool
is_wide_space a b c =
    (a == 0xe1 && b == 0x9a && c == 0x80)
    || (a == 0xe2
        && b == 0x80
        && ((leb 0x80 c && leb c 0x8a) || c == 0xa8 || c == 0xa9 || c == 0xaf))
    || (a == 0xe2 && b == 0x81 && c == 0x9f)
    || (a == 0xe3 && b == 0x80 && c == 0x80)

unfoldable pub trim_left : Bytes → Bytes
trim_left [] = []
trim_left (a ∷ []) = if is_ascii_space a then [] else a ∷ []
trim_left (a ∷ b ∷ []) =
    let one = trim_left (b ∷ []) in
    if is_ascii_space a then one else if a == 0xc2 && is_c2_space b then [] else a ∷ b ∷ []
trim_left (a ∷ b ∷ c ∷ s) =
    let one = trim_left (b ∷ c ∷ s) in
    let two = trim_left (c ∷ s) in
    let three = trim_left s in
    if is_ascii_space a
    then one
    else if a == 0xc2 && is_c2_space b
    then two
    else if is_wide_space a b c
    then three
    else a ∷ b ∷ c ∷ s

-- The same from the end, on the reversed text.
unfoldable pub trim_back : Bytes → Bytes
trim_back [] = []
trim_back (a ∷ []) = if is_ascii_space a then [] else a ∷ []
trim_back (a ∷ b ∷ []) =
    let one = trim_back (b ∷ []) in
    if is_ascii_space a then one else if b == 0xc2 && is_c2_space a then [] else a ∷ b ∷ []
trim_back (a ∷ b ∷ c ∷ s) =
    let one = trim_back (b ∷ c ∷ s) in
    let two = trim_back (c ∷ s) in
    let three = trim_back s in
    if is_ascii_space a
    then one
    else if b == 0xc2 && is_c2_space a
    then two
    else if is_wide_space c b a
    then three
    else a ∷ b ∷ c ∷ s

unfoldable pub trim_space : Bytes → Bytes
unfolding trim_left trim_back
trim_space s = reverse (trim_back (reverse (trim_left s)))

trim_space_ascii : trim_space (codes "  a b \t\n") ≡ codes "a b"
unfolding trim_space
trim_space_ascii = refl

trim_space_wide : trim_space (0xe3 ∷ 0x80 ∷ 0x80 ∷ b'x' ∷ 0xc2 ∷ 0xa0 ∷ []) ≡ b'x' ∷ []
unfolding trim_space
trim_space_wide = refl
