-- ===== src/Base64.antt =====
-- base64.RawURLEncoding of the Go library, which writes the two parts of a signed value.
pub mod RoundTrip
use caddy_protector.Base.{
  ℕ, ◌+◌, ◌-◌, ◌*◌, ◌/◌, ◌%◌, ◌≡◌, refl, ◌||◌, ◌&&◌, Option, none, some, List, [], ◌∷◌, map, ltb,
  leb, ◌==◌, if◌then◌else◌,
}
use caddy_protector.Text.{Bytes, codes}

-- The alphabet.
unfoldable pub char_of : ℕ → ℕ
char_of n =
    if ltb n 26
    then b'A' + n
    else if ltb n 52
    then b'a' + (n - 26)
    else if ltb n 62
    then b'0' + (n - 52)
    else if n == 62
    then b'-'
    else b'_'

unfoldable pub value_of : ℕ → Option ℕ
value_of c =
    if leb b'A' c && leb c b'Z'
    then some (c - b'A')
    else if leb b'a' c && leb c b'z'
    then some (c - b'a' + 26)
    else if leb b'0' c && leb c b'9'
    then some (c - b'0' + 52)
    else if c == b'-'
    then some 62
    else if c == b'_'
    then some 63
    else none

-- Three bytes are four groups of six bits.
unfoldable pub sextets : Bytes → List ℕ
sextets [] = []
sextets (a ∷ []) = a / 4 ∷ (a % 4 * 16) ∷ []
sextets (a ∷ b ∷ []) = a / 4 ∷ (a % 4 * 16 + b / 16) ∷ (b % 16 * 4) ∷ []
sextets (a ∷ b ∷ c ∷ s) = a / 4 ∷ (a % 4 * 16 + b / 16) ∷ (b % 16 * 4 + c / 64) ∷ c % 64 ∷ sextets s

unfoldable pub encode : Bytes → Bytes
encode s = map char_of (sextets s)

infixl 5 ◌>>=◌
abbrev pub ◌>>=◌ {ℓ κ} : {A : Type ℓ} {B : Type κ} → Option A → (A → Option B) → Option B
none >>= f = none
some a >>= f = f a

-- The decoder passes over line breaks.
unfoldable pub values : Bytes → Option (List ℕ)
values [] = some []
values (c ∷ s) =
    let rest = values s in
    if c == b'\n' || c == b'\r' then rest else (do v ← value_of c; vs ← rest; some (v ∷ vs))

-- A single group at the end is an error; the bits that no byte needs are not looked at.
unfoldable pub octets : List ℕ → Option Bytes
octets [] = some []
octets (x ∷ []) = none
octets (x ∷ y ∷ []) = some ((x * 4 + y / 16) ∷ [])
octets (x ∷ y ∷ z ∷ []) = some ((x * 4 + y / 16) ∷ (y % 16 * 16 + z / 4) ∷ [])
octets (x ∷ y ∷ z ∷ w ∷ s) = do
  rest ← octets s
  some ((x * 4 + y / 16) ∷ (y % 16 * 16 + z / 4) ∷ (z % 4 * 64 + w) ∷ rest)

unfoldable pub decode : Bytes → Option Bytes
decode s = do vs ← values s; octets vs

hello : encode (codes "hello") ≡ codes "aGVsbG8"
unfolding encode sextets char_of
hello = refl

hello_back : decode (codes "aGVs\nbG8") ≡ some (codes "hello")
unfolding decode values octets value_of
hello_back = refl
