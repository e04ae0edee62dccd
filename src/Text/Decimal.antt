-- ===== src/Text/Decimal.antt =====
-- strconv.Itoa of a number that is not negative.
use caddy_protector.Base.{ℕ, zero, suc, ◌+◌, ◌/◌, ◌%◌, ◌≡◌, refl, [], ◌∷◌, ltb, if◌then◌else◌}
use caddy_protector.Text.{Bytes, codes}

-- One digit for each unit of fuel; 20 digits are enough for 64 bits.
unfoldable pub digits : ℕ → ℕ → Bytes → Bytes
digits zero n out = out
digits (suc fuel) n out =
    let more = digits fuel (n / 10) ((b'0' + n % 10) ∷ out) in
    if ltb n 10 then (b'0' + n) ∷ out else more

unfoldable pub itoa : ℕ → Bytes
itoa n = digits 20 n []

itoa_test : itoa 1234 ≡ codes "1234"
unfolding itoa digits
itoa_test = refl
