-- ===== src/Caddyfile/Updates.antt =====
-- What each directive of the Caddyfile block does to its own field, and when it is refused.
use caddy_protector.Base.{
  ◌≡◌, refl, inl, inr, sym, subst, Bool, true, none, some, List, [], ◌∷◌, ◌++◌, arith, Bool-cases,
  Option-cases, not, any, All, ◌&&◌,
}
use caddy_protector.Base.Result.{Result, Result-cases, ok, err, or_err, ◌>>=◌}
use caddy_protector.Text.{Bytes, codes, same, same_iff}
use caddy_protector.Protector.{Settings}
use caddy_protector.Caddyfile.{
  CaddyfileError, wrong_argument_count, unknown_option, bad_flag, parse_minutes_duration,
  parse_bool, set_text, set_value, set_caddyfile_option, one_argument, parse_caddyfile_directive,
}
use caddy_protector.Caddyfile.Fields.{
  FieldValue, text_value, texts_value, countries_value, time_value, flag_value, choice_value,
  rules_value, no_field, field_of,
}

-- What a directive makes of the value of its field: it replaces a text, a time or a choice, sets a
-- flag, and adds to a list.
pub updated : FieldValue → List Bytes → Result CaddyfileError FieldValue
updated (text_value old) (arg ∷ []) = ok (text_value arg)
updated (texts_value old) (arg ∷ []) = ok (texts_value (old ++ arg ∷ []))
updated (countries_value old) (arg ∷ args) = ok (countries_value (old ++ arg ∷ args))
updated (time_value old) (arg ∷ []) = do
  duration ← parse_minutes_duration arg
  ok (time_value duration)
updated (choice_value old) (arg ∷ []) = do
  value ← or_err (parse_bool arg) bad_flag
  ok (choice_value (some value))
updated (flag_value old) [] = ok (flag_value true)
updated (rules_value old) (name ∷ needle ∷ []) =
    ok (rules_value (old ++ record { name = name; needle = needle } ∷ []))
updated no_field (arg ∷ []) = err unknown_option
updated _ _ = err wrong_argument_count

abbrev pub field_result : Bytes → Result CaddyfileError Settings → Result CaddyfileError FieldValue
field_result name (ok s) = ok (field_of name s)
field_result name (err e) = err e

by_args :
    (G : List Bytes → Type 0)
    → G []
    → ((a : Bytes) → G (a ∷ []))
    → ((a b : Bytes) → G (a ∷ b ∷ []))
    → ((a b c : Bytes) (args : List Bytes) → G (a ∷ b ∷ c ∷ args))
    → (args : List Bytes) → G args
by_args G none_given one two more [] = none_given
by_args G none_given one two more (a ∷ []) = one a
by_args G none_given one two more (a ∷ b ∷ []) = two a b
by_args G none_given one two more (a ∷ b ∷ c ∷ args) = more a b c args

abbrev pub text_options : List Bytes
text_options =
    codes "cap_api_url"
    ∷ codes "cap_site_key"
    ∷ codes "cap_secret_key"
    ∷ codes "bypass_api_key"
    ∷ codes "cookie_name"
    ∷ codes "cookie_path"
    ∷ codes "cookie_domain"
    ∷ codes "cookie_same_site"
    ∷ codes "verify_path"
    ∷ codes "whitelist_file"
    ∷ codes "whitelist_url"
    ∷ codes "blacklist_file"
    ∷ codes "blacklist_url"
    ∷ codes "country_url"
    ∷ codes "template"
    ∷ []

abbrev pub list_options : List Bytes
list_options =
    codes "deny_path_prefix"
    ∷ codes "deny_query_substring"
    ∷ codes "whitelist_ip"
    ∷ codes "blacklist_ip"
    ∷ []

abbrev pub other_options : List Bytes
other_options =
    codes "allow_for"
    ∷ codes "whitelist_refresh"
    ∷ codes "blacklist_refresh"
    ∷ codes "country_url_refresh"
    ∷ codes "cookie_secure"
    ∷ codes "cookie_http_only"
    ∷ codes "disable_csp_header"
    ∷ codes "whitelist_country"
    ∷ codes "blacklist_country"
    ∷ codes "deny_header_substring"
    ∷ []

named :
    (P : Bytes → Type 0) (param : Bytes) (names : List Bytes)
    → All P names
    → any (same param) names ≡ true
    → P param
named P param [] h found = cc
named P param (name ∷ names) (h, hs) found = elim (Bool-cases (same param name)) [
  | inl here ↦ subst P (sym ((same_iff param name).0 here)) h
  | inr there ↦ named P param names hs (ground arith)
]

-- An option that the block does not have.
abbrev unknown : Bytes → Bool
unknown param =
    not (any (same param) text_options)
    && not (any (same param) list_options)
    && not (any (same param) other_options)

module _ (s : Settings) where
  abbrev Refines : List Bytes → Bytes → Type 0
  Refines args param =
      field_result param (parse_caddyfile_directive param args s) ≡ updated (field_of param s) args

  text_options-refine : (args : List Bytes) → All (Refines args) text_options
  unfolding parse_caddyfile_directive set_caddyfile_option set_text set_value field_of updated
  text_options-refine =
      by_args (λ args. All (Refines args) text_options) (ground arith) (λ a. ground arith)
        (λ a b. ground arith) (λ a b c more. ground arith)

  list_options-refine : (args : List Bytes) → All (Refines args) list_options
  unfolding parse_caddyfile_directive set_caddyfile_option set_text set_value field_of updated
  list_options-refine =
      by_args (λ args. All (Refines args) list_options) (ground arith) (λ a. ground arith)
        (λ a b. ground arith) (λ a b c more. ground arith)

  other_options-refine : (args : List Bytes) → All (Refines args) other_options
  unfolding parse_caddyfile_directive set_caddyfile_option set_text set_value field_of updated
  other_options-refine =
      by_args (λ args. All (Refines args) other_options) (ground arith)
        (λ a. ground (arith, Result-cases (parse_minutes_duration a), Option-cases (parse_bool a)))
        (λ a b. ground arith) (λ a b c more. ground arith)

  unknown-field_of : (param : Bytes) → unknown param ≡ true → field_of param s ≡ no_field
  unfolding field_of
  unknown-field_of param h = ground arith

  unknown-set_text : (param arg : Bytes) → unknown param ≡ true → set_text param arg s ≡ none
  unfolding set_text
  unknown-set_text param arg h = ground arith

  unknown-set_value :
      (param arg : Bytes) → unknown param ≡ true → set_value param arg s ≡ err unknown_option
  unfolding set_value
  unknown-set_value param arg h = ground arith

  unknown-directive :
      (param : Bytes) (args : List Bytes)
      → unknown param ≡ true
      → parse_caddyfile_directive param args s ≡ one_argument param args s
  unfolding parse_caddyfile_directive
  unknown-directive param args h = ground arith

  unknown-Refines : (param : Bytes) (args : List Bytes) → unknown param ≡ true → Refines args param
  unfolding updated set_caddyfile_option
  unknown-Refines param args h =
      rw (unknown-directive param args h, unknown-field_of param h)
        (by_args (λ given. field_result param (one_argument param given s) ≡ updated no_field given)
          refl (λ a. rw (unknown-set_text param a h, unknown-set_value param a h) refl)
          (λ a b. refl) (λ a b c more. refl) args)

  -- A directive does to its field what the kind of the field says, and is refused when that is: it
  -- replaces a text, a time or a choice, sets a flag, adds one text or several countries to a list,
  -- or adds a rule, and a name without a field is refused.
  pub parse_caddyfile_directive-refines :
      (param : Bytes) (args : List Bytes)
      → field_result param (parse_caddyfile_directive param args s)
        ≡ updated (field_of param s) args
  parse_caddyfile_directive-refines param args = elim (Bool-cases (any (same param) text_options)) [
    | inl t ↦ named (Refines args) param text_options (text_options-refine args) t
    | inr no_text ↦ elim (Bool-cases (any (same param) list_options)) [
      | inl l ↦ named (Refines args) param list_options (list_options-refine args) l
      | inr no_list ↦ elim (Bool-cases (any (same param) other_options)) [
        | inl o ↦ named (Refines args) param other_options (other_options-refine args) o
        | inr no_other ↦ unknown-Refines param args (rw (no_text, no_list, no_other) refl)
      ]
    ]
  ]
