-- ===== src/Country.antt =====
-- refresh.go, the country rules: the codes of the configuration, and the country of an address.
pub mod Codes
use caddy_protector.Base.{
  ℕ, Bool, false, ◌&&◌, Option, none, some, List, [], ◌∷◌, ◌++◌, leb, if◌then◌else◌, is_some,
}
use caddy_protector.Base.Assoc.{lookup, insert}
use caddy_protector.Base.Result.{Result, ok, err}
use caddy_protector.Text.{Bytes, bytes_Eq}
use caddy_protector.Text.Unicode.{Unicode, to_upper, trim_space}
use caddy_protector.Netip.{Addr}
use caddy_protector.Protector.{KeySet, Reader, CountryDb, Protector}

-- The configuration field and the code that is not one.
pub data CountryError : Type 0 where
  bad_code : Bytes → Bytes → CountryError

abbrev is_upper : ℕ → Bool
is_upper c = leb b'A' c && leb c b'Z'

unfoldable pub is_valid_country_code : Bytes → Bool
is_valid_country_code (a ∷ b ∷ []) = is_upper a && is_upper b
is_valid_country_code _ = false

-- countryCodeSet
unfoldable pub country_code_set : List Bytes → KeySet Bytes
country_code_set [] = []
country_code_set (code ∷ codes) = insert code tt (country_code_set codes)

module _ ⦃u : Unicode⦄ where
  -- The loop of normalizeCountryCodes, with the codes seen so far and the result so far.
  unfoldable pub normalize_from :
      Bytes → KeySet Bytes → List Bytes → List Bytes → Result CountryError (List Bytes)
  normalize_from kind seen normalized [] = ok normalized
  normalize_from kind seen normalized (raw ∷ raws) =
      let code = to_upper (trim_space raw) in
      let again = normalize_from kind seen normalized raws in
      let more = normalize_from kind (insert code tt seen) (normalized ++ code ∷ []) raws in
      if is_valid_country_code code
      then (if is_some (lookup code seen) then again else more)
      else err (bad_code kind raw)

  unfoldable pub normalize_country_codes : Bytes → List Bytes → Result CountryError (List Bytes)
  normalize_country_codes kind raws = normalize_from kind [] [] raws

  abbrev pub checked_code : Option Bytes → Option Bytes
  checked_code none = none
  checked_code (some raw) =
      let code = to_upper (trim_space raw) in if is_valid_country_code code then some code else none

  abbrev pub read_country : Option Reader → Addr → Option Bytes
  read_country none addr = none
  read_country (some reader) addr = checked_code (reader.iso_code addr)

  abbrev pub reader_of : Option CountryDb → Option Reader
  reader_of none = none
  reader_of (some db) = db.reader

  -- An address that did not parse is `none`.
  unfoldable pub lookup_country_code : Protector → Option Addr → Option Bytes
  lookup_country_code bb none = none
  lookup_country_code bb (some addr) = read_country (reader_of bb.country_db) addr

unfoldable pub is_country_whitelisted : Protector → Bytes → Bool
is_country_whitelisted bb code = is_some (lookup code bb.whitelist_country_set)

unfoldable pub is_country_blacklisted : Protector → Bytes → Bool
is_country_blacklisted bb code = is_some (lookup code bb.blacklist_country_set)
