-- ===== src/Token/ReturnState.antt =====
-- createReturnState and verifyReturnState.
use caddy_protector.Base.{
  ℕ, ◌+◌, ◌≡◌, refl, Bool, true, false, not, ◌&&◌, ◌||◌, [], ◌∷◌, if◌then◌else◌, is_nil, length,
  arith,
}
use caddy_protector.Base.Int.{pos, leb_ℤ, eqb_ℤ}
use caddy_protector.Base.Result.{ok, err, >>=-eq-ok}
use caddy_protector.Text.{Bytes, same, has_prefix}
use caddy_protector.ReturnPath.{root, safe_return_path_from}
use caddy_protector.ReturnPath.Safety.{
  safe_return_path_from-IsLocal, safe_return_path_from_idempotent,
}
use caddy_protector.Token.{
  Crypto, Codec, ReturnStateClaims, expired, token_version, return_state_valid_for, unix,
  verify_signed_value, create_return_state, check_return_state, verify_return_state,
}
use caddy_protector.Token.Signed.{verify-sign, IsAuthentic, verify_signed_value-IsAuthentic}

-- What createReturnState signs.
abbrev pub claims_for : Bytes → ℕ → ReturnStateClaims
claims_for return_path now = record {
  version = token_version;
  return_path = safe_return_path_from return_path;
  expires_at = unix (pos (now + return_state_valid_for));
}

absolute-is_nil : (s : Bytes) → has_prefix s root ≡ true → is_nil s ≡ false
absolute-is_nil [] h = cc
absolute-is_nil (c ∷ s) h = refl

not_both : (b : Bool) → (b && not b) ≡ false
not_both true = refl
not_both false = refl

module _ ⦃crypto : Crypto⦄ (codec : Codec ReturnStateClaims) where
  check_claims_for :
      (return_path : Bytes) (now later : ℕ)
      → check_return_state codec (claims_for return_path now) later ≡ (
          if leb_ℤ (unix (pos (now + return_state_valid_for))) (unix (pos later))
          then err expired
          else ok (claims_for return_path now))
  check_claims_for return_path now later = rw (
    safe_return_path_from_idempotent return_path,
    not_both (same (safe_return_path_from return_path) root),
    absolute-is_nil _ ((safe_return_path_from-IsLocal return_path).absolute),
  )

  -- With a key of 32 bytes and claims that fit JSON, a return state is made, whatever the path is,
  -- and verifies with the safe path until the second that is fifteen minutes later, and is reported
  -- as expired from then on.
  pub verify-create_return_state :
      (key return_path : Bytes) (now : ℕ)
      → length key ≡ 32
      → codec.carries (claims_for return_path now) ≡ true
      → (raw : Bytes) × (create_return_state codec key return_path now ≡ ok raw)
        × ((later : ℕ)
            → verify_return_state codec key raw later ≡ (
                if leb_ℤ (unix (pos (now + return_state_valid_for))) (unix (pos later))
                then err expired
                else ok (claims_for return_path now)))
  unfolding create_return_state verify_return_state
  verify-create_return_state key return_path now size fits =
      let (raw, made, read) = verify-sign codec (claims_for return_path now) key size fits in
      (raw, made, λ later. rw read (check_claims_for return_path now later))

  -- What a handler may rely on after a return state was accepted.
  pub record IsGoodState (key raw : Bytes) (now : ℕ) (claims : ReturnStateClaims) : Type 0 where
    pub authentic : IsAuthentic codec key raw claims
    pub current_version : eqb_ℤ claims.version token_version ≡ true
    pub fresh : leb_ℤ claims.expires_at (unix (pos now)) ≡ false
    pub has_path : is_nil claims.return_path ≡ false
    pub not_replaced :
        (not (same (safe_return_path_from claims.return_path) root) || same claims.return_path root)
        ≡ true

  check_return_state-eq-ok :
      (read : ReturnStateClaims) (now : ℕ) {claims : ReturnStateClaims}
      → check_return_state codec read now ≡ ok claims
      → (read ≡ claims)
        × (eqb_ℤ read.version token_version ≡ true)
        × (leb_ℤ read.expires_at (unix (pos now)) ≡ false)
        × (is_nil read.return_path ≡ false)
        × ((not (same (safe_return_path_from read.return_path) root) || same read.return_path root)
            ≡ true)
  check_return_state-eq-ok read now h = ground arith

  pub verify_return_state-IsGoodState :
      (key raw : Bytes) (now : ℕ) {claims : ReturnStateClaims}
      → verify_return_state codec key raw now ≡ ok claims
      → IsGoodState key raw now claims
  unfolding verify_return_state
  verify_return_state-IsGoodState key raw now {claims} h =
      let (read, e, k) =
        >>=-eq-ok (verify_signed_value codec raw key) (λ c. check_return_state codec c now) h in
      let (same_claims, version, expiry, path, kept) = check_return_state-eq-ok read now k in
      rw (← same_claims) (record {
        authentic = verify_signed_value-IsAuthentic codec raw key e;
        current_version = version;
        fresh = expiry;
        has_path = path;
        not_replaced = kept;
      })
