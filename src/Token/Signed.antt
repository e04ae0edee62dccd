-- ===== src/Token/Signed.antt =====
-- Signed values: what is signed verifies, and what verifies was signed.
use caddy_protector.Base.{
  ◌≡◌, refl, subst, ap, ◌∙◌, inl, inr, true, false, not, ◌||◌, Option, none, some, [], ◌∷◌, ◌++◌,
  is_nil, is_some, length, arith, Bool-cases,
}
use caddy_protector.Base.Result.{ok, >>=-eq-ok, or_err-eq-ok, ok-injective}
use caddy_protector.Text.{Bytes, same, same_refl, eq_of_same, Pieces, cut}
use caddy_protector.Text.Cut.{cut-append, found_spells}
use caddy_protector.Base64
use caddy_protector.Base64.RoundTrip.{
  decode-encode, encode-Lacks_dot, encode-cons, encode-IsVisible,
}
use caddy_protector.Text.Unicode.{trim_space}
use caddy_protector.Text.Trim.{trim_space-visible}
use caddy_protector.Token.{Crypto, Codec, period, keyed_mac, sign_value, verify_signed_value}

encode-is_nil : (s : Bytes) → is_nil s ≡ false → is_nil (Base64.encode s) ≡ false
encode-is_nil [] h = cc
encode-is_nil (a ∷ s) h = let (b, t, e) = encode-cons a s in rw e

is_nil_of_length : (s : Bytes) → length s ≡ 32 → is_nil s ≡ false
is_nil_of_length [] h = absurd (omega arith)
is_nil_of_length (a ∷ s) h = refl

is_some-cases {ℓ} : {A : Type ℓ} (o : Option A) → is_some o ≡ true → (a : A) × (o ≡ some a)
is_some-cases none h = cc
is_some-cases (some a) h = (a, refl)

module _ ⦃crypto : Crypto⦄ {A : Type 0} (codec : Codec A) where
  -- The signed value of a payload and its mac.
  abbrev spelled : A → Bytes → Bytes
  spelled payload mac = Base64.encode (codec.marshal payload) ++ period ∷ Base64.encode mac

  pub cut-spelled :
      (payload : A) (mac : Bytes)
      → cut (spelled payload mac) period ≡ record {
        before = Base64.encode (codec.marshal payload);
        after = Base64.encode mac;
        found = true;
      }
  cut-spelled payload mac =
      cut-append (Base64.encode (codec.marshal payload)) (Base64.encode mac) period
        (encode-Lacks_dot (codec.marshal payload) (codec.marshal-IsBytes payload))

  verify_spelled :
      (payload : A) (key mac : Bytes)
      → crypto.keyed_mac key (Base64.encode (codec.marshal payload)) ≡ some mac
      → codec.carries payload ≡ true
      → verify_signed_value codec (spelled payload mac) key ≡ ok payload
  unfolding verify_signed_value
  verify_spelled payload key mac signed fits = rw (cut-spelled payload mac) (
      rw (
        encode-is_nil (codec.marshal payload) (codec.marshal-is_nil payload),
        encode-is_nil mac (is_nil_of_length mac (crypto.keyed_mac-length key _ mac signed)),
        signed,
        decode-encode mac (crypto.keyed_mac-IsBytes key _ mac signed),
        same_refl mac,
        decode-encode (codec.marshal payload) (codec.marshal-IsBytes payload),
        codec.unmarshal-marshal payload fits,
      ))

  -- With a key of 32 bytes, a payload that fits JSON is signed, and the signed value verifies to
  -- the payload.
  pub verify-sign :
      (payload : A) (key : Bytes)
      → length key ≡ 32
      → codec.carries payload ≡ true
      → (raw : Bytes) × (sign_value codec payload key ≡ ok raw)
        × (verify_signed_value codec raw key ≡ ok payload)
  unfolding sign_value
  verify-sign payload key size fits =
      let (mac, signed) =
        is_some-cases (crypto.keyed_mac key (Base64.encode (codec.marshal payload)))
          (crypto.keyed_mac_total key (Base64.encode (codec.marshal payload)) size) in
      (spelled payload mac, rw signed refl, verify_spelled payload key mac signed fits)

  pub trim_space-sign_value :
      (payload : A) (key : Bytes) {raw : Bytes}
      → sign_value codec payload key ≡ ok raw
      → is_nil (trim_space raw) ≡ false
  unfolding sign_value
  trim_space-sign_value payload key h =
      let (mac, signed, made) =
        >>=-eq-ok (keyed_mac key (Base64.encode (codec.marshal payload)))
          (λ mac. ok (spelled payload mac)) h in
      let (b, t, e, visible) =
        encode-IsVisible (codec.marshal payload) (codec.marshal-IsBytes payload)
          (codec.marshal-is_nil payload) in
      subst (λ raw. is_nil (trim_space raw) ≡ false) (ok-injective made)
        (rw e (trim_space-visible b (t ++ period ∷ Base64.encode mac) visible))

  -- Who made the value knew the mac of its payload under the key.
  pub record IsAuthentic (key raw : Bytes) (payload : A) : Type 0 where
    pub payload_part : Bytes
    pub mac_part : Bytes
    pub mac : Bytes
    pub payload_json : Bytes
    pub spells : raw ≡ payload_part ++ period ∷ mac_part
    pub signed : crypto.keyed_mac key payload_part ≡ some mac
    pub mac_decoded : Base64.decode mac_part ≡ some mac
    pub payload_decoded : Base64.decode payload_part ≡ some payload_json
    pub payload_read : codec.unmarshal payload_json ≡ some payload

  -- A value that verifies is two parts with a dot between them, of which the second spells the MAC
  -- of the first under the key and the first spells the payload.
  pub verify_signed_value-IsAuthentic :
      (raw key : Bytes) {payload : A}
      → verify_signed_value codec raw key ≡ ok payload
      → IsAuthentic key raw payload
  unfolding verify_signed_value
  verify_signed_value-IsAuthentic raw key {payload} h =
      elim (Bool-cases (not parts.found || is_nil parts.before || is_nil parts.after)) [
        | inl bad ↦ cc (rw bad at h)
        | inr good ↦
            let (expected, e_mac, h1) = >>=-eq-ok _ _ (rw good at h) in
            let (mac, e_dec, h2) = >>=-eq-ok _ _ h1 in
            let signed : crypto.keyed_mac key parts.before ≡ some expected =
              or_err-eq-ok _ _ e_mac in
            let decoded : Base64.decode parts.after ≡ some mac = or_err-eq-ok _ _ e_dec in
            elim (Bool-cases (same expected mac)) [
              | inr wrong ↦ cc (rw wrong at h2)
              | inl right ↦
                  let (json, e_json, h3) = >>=-eq-ok _ _ (rw right at h2) in
                  let same_mac : expected ≡ mac = eq_of_same expected mac right in
                  record {
                    payload_part = parts.before;
                    mac_part = parts.after;
                    mac = mac;
                    payload_json = json;
                    spells = found_spells raw period (ground arith);
                    signed = signed ∙ ap some same_mac;
                    mac_decoded = decoded;
                    payload_decoded = or_err-eq-ok _ _ e_json;
                    payload_read = or_err-eq-ok _ _ h3;
                  }
            ]
      ]
    where
      parts : Pieces
      parts = cut raw period
