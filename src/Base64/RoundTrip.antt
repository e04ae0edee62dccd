-- ===== src/Base64/RoundTrip.antt =====
-- Decoding what was encoded, and the bytes of which an encoded text consists.
use caddy_protector.Base.{
  ℕ, ◌/◌, ◌<◌, ◌≡◌, ◌≢◌, refl, some, List, [], ◌∷◌, map, arith, All, is_nil, false,
}
use caddy_protector.Text.{Bytes}
use caddy_protector.Text.Cut.{Lacks}
use caddy_protector.Text.Trim.{IsVisible}
use caddy_protector.Base64.{char_of, value_of, sextets, encode, values, octets, decode}

abbrev pub IsBytes : Bytes → Type 0
IsBytes = All (λ c. c < 256)

abbrev IsSextet : ℕ → Type 0
IsSextet n = n < 64

value_of-char_of : (n : ℕ) → IsSextet n → value_of (char_of n) ≡ some n
unfolding value_of char_of
value_of-char_of n h = ground arith

-- No letter of the alphabet is a dot or a line break.
char_of-letter :
    (n : ℕ)
    → IsSextet n
    → (char_of n ≢ b'.') × (char_of n ≢ b'\n') × (char_of n ≢ b'\r') × (char_of n < 256)
unfolding char_of
char_of-letter n h = (ground arith, ground arith, ground arith, ground arith)

sextets-IsSextet : (s : Bytes) → IsBytes s → All IsSextet (sextets s)
unfolding sextets
sextets-IsSextet [] h = tt
sextets-IsSextet (a ∷ []) h = omega arith
sextets-IsSextet (a ∷ b ∷ []) h = omega arith
sextets-IsSextet (a ∷ b ∷ c ∷ s) (ha, (hb, (hc, hs))) =
    (omega arith, (omega arith, (omega arith, (omega arith, sextets-IsSextet s hs))))

values-map : (ns : List ℕ) → All IsSextet ns → values (map char_of ns) ≡ some ns
unfolding values
values-map [] h = refl
values-map (n ∷ ns) (h, hs) =
    let (_, line, feed, _) = char_of-letter n h in
    ground (arith, value_of-char_of n h, values-map ns hs)

octets-sextets : (s : Bytes) → IsBytes s → octets (sextets s) ≡ some s
unfolding octets sextets
octets-sextets [] h = refl
octets-sextets (a ∷ []) h = ground arith
octets-sextets (a ∷ b ∷ []) h = ground arith
octets-sextets (a ∷ b ∷ c ∷ s) (ha, (hb, (hc, hs))) = rw (octets-sextets s hs) (ground arith)

pub decode-encode : (s : Bytes) → IsBytes s → decode (encode s) ≡ some s
unfolding decode encode
decode-encode s h = rw (values-map (sextets s) (sextets-IsSextet s h)) (octets-sextets s h)

map-letters : (ns : List ℕ) → All IsSextet ns → Lacks b'.' (map char_of ns)
map-letters [] h = tt
map-letters (n ∷ ns) (h, hs) = ((char_of-letter n h).0, map-letters ns hs)

pub encode-Lacks_dot : (s : Bytes) → IsBytes s → Lacks b'.' (encode s)
unfolding encode
encode-Lacks_dot s h = map-letters (sextets s) (sextets-IsSextet s h)

-- Only the empty text is encoded as the empty text.
pub encode-cons : (a : ℕ) (s : Bytes) → (b : ℕ) × (t : Bytes) × (encode (a ∷ s) ≡ b ∷ t)
unfolding encode sextets
encode-cons a [] = (_, _, refl)
encode-cons a (b ∷ []) = (_, _, refl)
encode-cons a (b ∷ c ∷ s) = (_, _, refl)

char_of-IsVisible : (n : ℕ) → IsSextet n → IsVisible (char_of n)
unfolding char_of
char_of-IsVisible n h = (ground arith, ground arith)

encode-first : (a : ℕ) (s : Bytes) → (t : Bytes) × (encode (a ∷ s) ≡ char_of (a / 4) ∷ t)
unfolding encode sextets
encode-first a [] = (_, refl)
encode-first a (b ∷ []) = (_, refl)
encode-first a (b ∷ c ∷ s) = (_, refl)

-- An encoded text begins with a visible character.
pub encode-IsVisible :
    (s : Bytes)
    → IsBytes s
    → is_nil s ≡ false
    → (b : ℕ) × (t : Bytes) × (encode s ≡ b ∷ t) × IsVisible b
encode-IsVisible [] h k = cc
encode-IsVisible (a ∷ s) h k =
    let (t, e) = encode-first a s in
    (char_of (a / 4), t, e, char_of-IsVisible (a / 4) (omega (arith, h.0)))
