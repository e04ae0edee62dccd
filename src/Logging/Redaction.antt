-- ===== src/Logging/Redaction.antt =====
-- What a log entry does not tell, and how long a text in it may be.
use caddy_protector.Base.{
  ℕ, zero, suc, ◌/◌, ◌%◌, ltb, ◌+◌, ◌≤◌, ◌≡◌, ◌≢◌, ◌⊎◌, refl, ap, inl, inr, Bool, true, false, not,
  ◌&&◌, ◌||◌, some, [], ◌∷◌, ◌++◌, leb, if◌then◌else◌, is_nil, is_some, length, take, length-append,
  append-nil, All-append, arith, Bool-cases,
}
use caddy_protector.Text.{Bytes, codes, cut, contains}
use caddy_protector.Text.Cut.{Lacks}
use caddy_protector.Config.{Url}
use caddy_protector.Logging.{
  ellipsis, is_host_char, upper_hex_digit, escape_host, short_value, scheme_text, user_text,
  has_authority, authority_text, starts_with_slash, path_text, hierarchy_text, fragment_text,
  url_string, redact_url_for_log,
}

take-take : (n : ℕ) (s t : Bytes) → n ≤ length s → take n (take n s ++ t) ≡ take n s
take-take zero s t h = refl
take-take (suc n) [] t h = absurd (omega arith)
take-take (suc n) (c ∷ s) t h = rw (take-take n s t (omega arith))

length-take-long : (n : ℕ) (s : Bytes) → n ≤ length s → length (take n s) ≡ n
length-take-long zero s h = refl
length-take-long (suc n) [] h = absurd (omega arith)
length-take-long (suc n) (c ∷ s) h = omega (arith, length-take-long n s)

-- A shortened value
pub short_value_lem :
    (value : Bytes) (max_len : ℕ)
    → (take max_len (short_value value max_len) ≡ take max_len value)
      × (((short_value value max_len ≡ value) × (length value ≤ max_len))
          ⊎ (length (short_value value max_len) ≡ max_len + 3))
unfolding short_value
short_value_lem value max_len = elim (Bool-cases (leb (length value) max_len)) [
  | inl fits ↦ rw fits (refl, inl (refl, ground arith))
  | inr long ↦
      let more : max_len ≤ length value = ground arith in
      rw long (
        take-take max_len value ellipsis more,
        inr (rw (length-append (take max_len value) ellipsis, length-take-long max_len value more)),
      )
]

-- The pieces of a URL that were escaped, or that the parser accepted, have no question mark.
pub record IsEscaped (u : Url) : Type 0 where
  pub scheme_clean : Lacks b'?' u.scheme
  pub opaque_clean : Lacks b'?' u.opaque_part
  pub user_clean : Lacks b'?' (user_text u.user)
  pub path_clean : Lacks b'?' u.escaped_path

Lacks-if : (b : Bool) (s t : Bytes) → Lacks b'?' s → Lacks b'?' t → Lacks b'?' (if b then s else t)
Lacks-if true s t hs ht = hs
Lacks-if false s t hs ht = ht

abbrev pub front : Url → Bytes
front u = scheme_text u ++ (if is_nil u.opaque_part then hierarchy_text u else u.opaque_part)

scheme_text-Lacks : (u : Url) → IsEscaped u → Lacks b'?' (scheme_text u)
scheme_text-Lacks u h =
    Lacks-if (is_nil u.scheme) [] (u.scheme ++ codes ":") tt
      (All-append (λ c. c ≢ b'?') u.scheme (codes ":") h.scheme_clean (omega arith, tt))

abbrev Clean : Bytes → Type 0
Clean = Lacks b'?'

join-Clean : (s t : Bytes) → Clean s → Clean t → Clean (s ++ t)
join-Clean s t = All-append (λ c. c ≢ b'?') s t

upper_hex_digit-ne : (n : ℕ) → upper_hex_digit n ≢ b'?'
upper_hex_digit-ne n = elim (Bool-cases (ltb n 10)) [
  | inl digit ↦ rw digit (λ e. absurd (ground arith))
  | inr letter ↦ rw letter (λ e. absurd (omega arith))
]

host_char-ne : (c : ℕ) → is_host_char c ≡ true → c ≢ b'?'
unfolding is_host_char
host_char-ne c h e = cc (rw e at h)

-- An escaped host has no question mark.
escape_host-Clean : (host : Bytes) → Clean (escape_host host)
unfolding escape_host
escape_host-Clean [] = tt
escape_host-Clean (c ∷ host) = elim (Bool-cases (is_host_char c)) [
  | inl kept ↦ rw kept (host_char-ne c kept, escape_host-Clean host)
  | inr escaped ↦ rw escaped (
    omega arith,
    (upper_hex_digit-ne (c / 16), (upper_hex_digit-ne (c % 16), escape_host-Clean host)),
  )
]

authority_text-Lacks : (u : Url) → IsEscaped u → Clean (authority_text u)
authority_text-Lacks u h =
    let slashes : Clean (
        if not (is_nil u.host) || not (is_nil u.escaped_path) || is_some u.user
        then codes "//"
        else []) =
      Lacks-if (not (is_nil u.host) || not (is_nil u.escaped_path) || is_some u.user) (codes "//")
        [] (omega arith, (omega arith, tt)) tt in
    Lacks-if (has_authority u) (_ ++ user_text u.user ++ escape_host u.host) []
      (join-Clean (_ ++ user_text u.user) (escape_host u.host)
        (join-Clean _ (user_text u.user) slashes h.user_clean) (escape_host-Clean u.host))
      tt

path_text-Lacks : (u : Url) (before : Bytes) → IsEscaped u → Clean (path_text u before)
path_text-Lacks u before h =
    join-Clean _ u.escaped_path
      (Lacks-if
        (not (is_nil u.escaped_path)
          && not (starts_with_slash u.escaped_path)
          && not (is_nil u.host))
        (codes "/") _ (omega arith, tt)
        (Lacks-if (is_nil before && contains (cut u.escaped_path b'/').before (codes ":"))
          (codes "./") [] (omega arith, (omega arith, tt)) tt))
      h.path_clean

front-Lacks : (u : Url) → IsEscaped u → Clean (front u)
front-Lacks u h = join-Clean (scheme_text u) _ (scheme_text-Lacks u h) (
    Lacks-if (is_nil u.opaque_part) (hierarchy_text u) u.opaque_part
      (join-Clean (authority_text u) _ (authority_text-Lacks u h)
        (path_text-Lacks u (scheme_text u ++ authority_text u) h))
      h.opaque_clean)

-- The logged text of a URL is a part without a question mark and the fragment, and does not depend
-- on the query, if the other parts of the URL have no question mark.
pub redact_url_for_log_lem :
    (u : Url)
    → IsEscaped u
    → (redact_url_for_log (some u) ≡ front u ++ fragment_text u)
      × Lacks b'?' (front u)
      × ((query : Bytes) (force : Bool)
          → redact_url_for_log (some (record u { raw_query = query; force_query = force }))
            ≡ redact_url_for_log (some u))
unfolding redact_url_for_log url_string
redact_url_for_log_lem u h =
    (ap (λ s. s ++ fragment_text u) (append-nil (front u)), front-Lacks u h, λ query force. refl)
