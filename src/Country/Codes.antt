-- ===== src/Country/Codes.antt =====
-- normalizeCountryCodes and countryCodeSet: which codes a country rule names.
use caddy_protector.Base.{
  ◌≡◌, refl, ◌∙◌, inl, inr, Bool, true, not, ◌&&◌, ◌||◌, List, [], ◌∷◌, ◌++◌, is_some, any, all,
  arith, Bool-cases,
}
use caddy_protector.Base.Assoc.{lookup, insert, lookup-insert}
use caddy_protector.Base.Result.{ok, is_ok, ok-injective}
use caddy_protector.Text.{Bytes, same, same_iff, bytes_Eq}
use caddy_protector.Text.Unicode.{Unicode, to_upper, trim_space}
use caddy_protector.Protector.{KeySet}
use caddy_protector.Country.{
  is_valid_country_code, country_code_set, normalize_from, normalize_country_codes,
}

-- Whether a list names a code.
abbrev pub names : Bytes → List Bytes → Bool
names code = any (λ c. same c code)

lookup-country_code_set :
    (code : Bytes) (codes : List Bytes)
    → is_some (lookup code (country_code_set codes)) ≡ names code codes
unfolding country_code_set lookup
lookup-country_code_set code [] = refl
lookup-country_code_set code (c ∷ codes) =
    ground
      (arith, lookup-insert c code tt (country_code_set codes), lookup-country_code_set code codes)

names-append :
    (code c : Bytes) (codes : List Bytes)
    → names code (codes ++ c ∷ []) ≡ (names code codes || same c code)
names-append code c [] = ground arith
names-append code c (d ∷ codes) = ground (arith, names-append code c codes)

-- No code stands twice.
abbrev pub distinct : List Bytes → Bool
distinct [] = true
distinct (c ∷ codes) = not (names c codes) && distinct codes

names_self : (c d : Bytes) → same c d ≡ same d c
names_self c d = ground (arith, same_iff c d, same_iff d c)

distinct-append :
    (c : Bytes) (codes : List Bytes)
    → distinct (codes ++ c ∷ []) ≡ (distinct codes && not (names c codes))
distinct-append c [] = refl
distinct-append c (d ∷ codes) =
    ground (arith, distinct-append c codes, names-append d c codes, names_self c d)

all-append :
    (p : Bytes → Bool) (codes : List Bytes) (c : Bytes)
    → all p (codes ++ c ∷ []) ≡ (all p codes && p c)
all-append p [] c = ground arith
all-append p (d ∷ codes) c = ground (arith, all-append p codes c)

-- The codes seen so far are those of the result so far.
abbrev Agree : KeySet Bytes → List Bytes → Type 0
Agree seen codes = (code : Bytes) → is_some (lookup code seen) ≡ names code codes

insert-Agree :
    (c : Bytes) (seen : KeySet Bytes) (codes : List Bytes)
    → Agree seen codes
    → Agree (insert c tt seen) (codes ++ c ∷ [])
insert-Agree c seen codes h code =
    ground (arith, lookup-insert c code tt seen, h code, names-append code c codes)

module _ ⦃u : Unicode⦄ where
  abbrev pub code_of : Bytes → Bytes
  code_of raw = to_upper (trim_space raw)

  -- The outcome of a list of codes.
  abbrev pub IsNormal : List Bytes → List Bytes → List Bytes → Type 0
  IsNormal start raws codes =
      (all is_valid_country_code codes ≡ true)
      × (distinct codes ≡ true)
      × ((code : Bytes)
          → names code codes ≡ (names code start || any (λ raw. same (code_of raw) code) raws))

  normalize_from-IsNormal :
      (kind : Bytes) (seen : KeySet Bytes) (start raws : List Bytes) {codes : List Bytes}
      → Agree seen start
      → all is_valid_country_code start ≡ true
      → distinct start ≡ true
      → normalize_from kind seen start raws ≡ ok codes
      → IsNormal start raws codes
  unfolding normalize_from
  normalize_from-IsNormal kind seen start [] agree valid apart h =
      let e = ok-injective h in rw (← e) (valid, apart, λ code. ground arith)
  normalize_from-IsNormal kind seen start (raw ∷ raws) agree valid apart h =
      elim (Bool-cases (is_valid_country_code (code_of raw))) [
        | inr bad ↦ cc (rw bad at h)
        | inl good ↦ elim (Bool-cases (is_some (lookup (code_of raw) seen))) [
          | inl again ↦
              let (v, d, m) =
                normalize_from-IsNormal kind seen start raws agree valid apart
                  (rw (good, again) at h) in
              (
                v,
                d,
                λ code.
                    ground
                      (arith, m code, agree code, agree (code_of raw), same_iff (code_of raw) code),
              )
          | inr new ↦
              let (v, d, m) =
                normalize_from-IsNormal kind (insert (code_of raw) tt seen)
                  (start ++ code_of raw ∷ []) raws (insert-Agree (code_of raw) seen start agree)
                  (ground (arith, all-append is_valid_country_code start (code_of raw)))
                  (ground (arith, distinct-append (code_of raw) start, agree (code_of raw)))
                  (rw (good, new) at h) in
              (v, d, λ code. ground (arith, m code, names-append code (code_of raw) start))
        ]
      ]

  -- The codes that are accepted are valid, no code stands twice, and the set that is made of them
  -- holds exactly the codes that the configuration spells, in any case and with any white space
  -- around them.
  pub normalize_country_codes_lem :
      (kind : Bytes) (raws codes : List Bytes)
      → normalize_country_codes kind raws ≡ ok codes
      → (all is_valid_country_code codes ≡ true)
        × (distinct codes ≡ true)
        × ((code : Bytes)
            → is_some (lookup code (country_code_set codes))
              ≡ any (λ raw. same (code_of raw) code) raws)
  unfolding normalize_country_codes lookup
  normalize_country_codes_lem kind raws codes h =
      let (valid, apart, members) =
        normalize_from-IsNormal kind [] [] raws (λ code. refl) refl refl h in
      (valid, apart, λ code. lookup-country_code_set code codes ∙ members code)

  normalize_from-is_ok :
      (kind : Bytes) (seen : KeySet Bytes) (start raws : List Bytes)
      → is_ok (normalize_from kind seen start raws)
        ≡ all (λ raw. is_valid_country_code (code_of raw)) raws
  unfolding normalize_from
  normalize_from-is_ok kind seen start [] = refl
  normalize_from-is_ok kind seen start (raw ∷ raws) = ground (
    arith,
    normalize_from-is_ok kind seen start raws,
    normalize_from-is_ok kind (insert (code_of raw) tt seen) (start ++ code_of raw ∷ []) raws,
  )

  -- A list of country codes is accepted exactly if each of them is two letters of ASCII, whatever
  -- their case and the white space around them.
  pub normalize_country_codes-is_ok :
      (kind : Bytes) (raws : List Bytes)
      → is_ok (normalize_country_codes kind raws)
        ≡ all (λ raw. is_valid_country_code (code_of raw)) raws
  unfolding normalize_country_codes
  normalize_country_codes-is_ok kind raws = normalize_from-is_ok kind [] [] raws
