-- ===== src/Challenge/Nonce.antt =====
-- The nonce of a challenge page and its place in the page's policy.
use caddy_protector.Base.{
  ℕ, ◌+◌, ◌-◌, ◌*◌, ◌/◌, ◌%◌, ◌<◌, ◌≡◌, refl, ap, Bool, true, ◌&&◌, ◌||◌, [], ◌∷◌, ◌++◌, leb,
  if◌then◌else◌, all, All, length, arith,
}
use caddy_protector.Text.{Bytes, codes, has_prefix, contains}
use caddy_protector.Protector.{Protector}
use caddy_protector.Challenge.{hex_digit, hex, nonce_source, join, challenge_page_csp}

abbrev pub is_hex_digit : ℕ → Bool
is_hex_digit c = leb b'0' c && leb c b'9' || leb b'a' c && leb c b'f'

-- The number that a hexadecimal digit stands for.
abbrev digit_value : ℕ → ℕ
digit_value c = if leb b'a' c then c - b'a' + 10 else c - b'0'

-- The bytes that a hexadecimal text spells.
pub unhex : Bytes → Bytes
unhex (a ∷ b ∷ s) = (digit_value a * 16 + digit_value b) ∷ unhex s
unhex _ = []

abbrev pub IsBytes : Bytes → Type 0
IsBytes = All (λ c. c < 256)

digit_value-hex_digit : (n : ℕ) → n < 16 → digit_value (hex_digit n) ≡ n
digit_value-hex_digit n h = ground arith

hex_digit-is_hex : (n : ℕ) → n < 16 → is_hex_digit (hex_digit n) ≡ true
hex_digit-is_hex n h = ground arith

pub hex_lem :
    (s : Bytes)
    → IsBytes s
    → (length (hex s) ≡ 2 * length s) × (all is_hex_digit (hex s) ≡ true) × (unhex (hex s) ≡ s)
unfolding hex unhex
hex_lem [] h = (refl, refl, refl)
hex_lem (c ∷ s) (h, hs) =
    let (size, digits, back) = hex_lem s hs in
    let high : c / 16 < 16 = omega arith in
    let low : c % 16 < 16 = omega arith in
    (
      omega (arith, size),
      rw (hex_digit-is_hex (c / 16) high, hex_digit-is_hex (c % 16) low) digits,
      rw (digit_value-hex_digit (c / 16) high, digit_value-hex_digit (c % 16) low, back)
          (ap (λ d. d ∷ s) (omega arith)),
    )

has_prefix-append : (p s : Bytes) → has_prefix (p ++ s) p ≡ true
has_prefix-append [] s = refl
has_prefix-append (a ∷ p) s = ground (arith, has_prefix-append p s)

has_prefix_refl : (s : Bytes) → has_prefix s s ≡ true
has_prefix_refl [] = refl
has_prefix_refl (a ∷ s) = ground (arith, has_prefix_refl s)

has_prefix-left : (s t p : Bytes) → has_prefix s p ≡ true → has_prefix (s ++ t) p ≡ true
has_prefix-left s t [] h = refl
has_prefix-left [] t (b ∷ p) h = cc
has_prefix-left (a ∷ s) t (b ∷ p) h = ground (arith, has_prefix-left s t p)

contains-prefix : (s p : Bytes) → has_prefix s p ≡ true → contains s p ≡ true
unfolding contains
contains-prefix [] p h = h
contains-prefix (a ∷ s) p h = rw h

contains-left : (s t p : Bytes) → contains s p ≡ true → contains (s ++ t) p ≡ true
unfolding contains
contains-left [] t p h = contains-prefix t p (has_prefix-left [] t p h)
contains-left (a ∷ s) t p h = ground (arith, has_prefix-left (a ∷ s) t p, contains-left s t p)

contains-right : (s t p : Bytes) → contains t p ≡ true → contains (s ++ t) p ≡ true
unfolding contains
contains-right [] t p h = h
contains-right (a ∷ s) t p h = ground (arith, contains-right s t p h)

-- The source of a script with the nonce.
abbrev pub script_nonce : Bytes → Bytes
script_nonce nonce = codes "script-src " ++ nonce_source nonce

-- The nonce stands in the page's policy for scripts.
pub challenge_page_csp-nonce :
    (bb : Protector) (nonce : Bytes)
    → contains (challenge_page_csp bb nonce) (script_nonce nonce) ≡ true
unfolding challenge_page_csp join
challenge_page_csp-nonce bb nonce = contains-left _ (codes ";") (script_nonce nonce) (
    contains-right (codes "default-src 'none'; ") _ (script_nonce nonce) (
      contains-left _ _ (script_nonce nonce) (
        contains-left _ (codes "; ") (script_nonce nonce) (
          contains-left _ _ (script_nonce nonce) (
            contains-left _ (codes " ") (script_nonce nonce) (
              contains-prefix (script_nonce nonce) (script_nonce nonce)
                (has_prefix_refl (script_nonce nonce))))))))
