-- ===== src/Caddyfile/Block.antt =====
-- What a whole Caddyfile block makes of the settings.
use caddy_protector.Base.Int.{ℤ}
use caddy_protector.Base.{
  Option, ◌≡◌, ◌∙◌, refl, sym, ap, inl, inr, ◌↔◌, Bool, true, false, List, [], ◌∷◌, if◌then◌else◌,
  Bool-cases,
}
use caddy_protector.Base.Result.{Result, ok, err, Result-cases, ok-injective, ◌>>=◌, >>=-eq-ok}
use caddy_protector.Text.{Bytes, codes, same, same_iff}
use caddy_protector.Protector.{HeaderSubstringRule, Settings}
use caddy_protector.Caddyfile.{
  CaddyfileError, parse_caddyfile_directive, unmarshal_caddyfile, zero_settings, parse_caddyfile,
}
use caddy_protector.Caddyfile.Fields.{
  FieldValue, text_value, texts_value, countries_value, time_value, flag_value, choice_value,
  rules_value, field_of,
}
use caddy_protector.Caddyfile.Updates.{field_result, updated, parse_caddyfile_directive-refines}
use caddy_protector.Caddyfile.Kept.{parse_caddyfile_directive-Kept}

-- The arguments of the directives with a name, in the order of the block.
pub lines_of : Bytes → List (Bytes × List Bytes) → List (List Bytes)
lines_of name [] = []
lines_of name ((param, args) ∷ directives) =
    let rest = lines_of name directives in if same name param then args ∷ rest else rest

-- What they make of the value of a field, one after the other.
pub replay : List (List Bytes) → FieldValue → Result CaddyfileError FieldValue
replay [] value = ok value
replay (args ∷ lines) value = updated value args >>= replay lines

-- Every field of the settings is what the directives of its own name make of another's.
abbrev pub Replays : List (Bytes × List Bytes) → Settings → Settings → Type 0
Replays directives s t =
    (name : Bytes) → replay (lines_of name directives) (field_of name s) ≡ ok (field_of name t)

module _ (param : Bytes) (args : List Bytes) (directives : List (Bytes × List Bytes))
    (s next : Settings) (first : parse_caddyfile_directive param args s ≡ ok next) where
  own_update :
      (name : Bytes)
      → same name param ≡ true
      → updated (field_of name s) args ≡ ok (field_of name next)
  own_update name here =
      rw ((same_iff name param).0 here)
        (sym (parse_caddyfile_directive-refines s param args) ∙ ap (field_result param) first)

  replay-step :
      (name : Bytes)
      → replay (lines_of name ((param, args) ∷ directives)) (field_of name s)
        ≡ replay (lines_of name directives) (field_of name next)
  unfolding replay lines_of
  replay-step name = elim (Bool-cases (same name param)) [
    | inl here ↦ rw (here, own_update name here) refl
    | inr there ↦ rw (there, parse_caddyfile_directive-Kept name s param args there next first) refl
  ]

unmarshal_caddyfile-Replays :
    (directives : List (Bytes × List Bytes)) (s t : Settings)
    → unmarshal_caddyfile directives s ≡ ok t
    → Replays directives s t
unfolding unmarshal_caddyfile replay lines_of
unmarshal_caddyfile-Replays [] s t h name = ap (λ r. ok (field_of name r)) (ok-injective h)
unmarshal_caddyfile-Replays ((param, args) ∷ directives) s t h name =
    let (next, first, rest) = >>=-eq-ok (parse_caddyfile_directive param args s) _ h in
    replay-step param args directives s next first name
    ∙ unmarshal_caddyfile-Replays directives next t rest name

-- A directive that is refused is one that its own field refuses.
refused-own :
    (param : Bytes) (args : List Bytes) (directives : List (Bytes × List Bytes)) (s : Settings)
    (e : CaddyfileError)
    → parse_caddyfile_directive param args s ≡ err e
    → replay (lines_of param ((param, args) ∷ directives)) (field_of param s) ≡ err e
unfolding replay lines_of
refused-own param args directives s e h =
    rw
      (
        (same_iff param param).1 refl,
        sym (parse_caddyfile_directive-refines s param args) ∙ ap (field_result param) h,
      )
      refl

Replays-unmarshal_caddyfile :
    (directives : List (Bytes × List Bytes)) (s t : Settings)
    → Replays directives s t
    → (end : Settings) × (unmarshal_caddyfile directives s ≡ ok end)
unfolding unmarshal_caddyfile
Replays-unmarshal_caddyfile [] s t h = (s, refl)
Replays-unmarshal_caddyfile ((param, args) ∷ directives) s t h =
    elim (Result-cases (parse_caddyfile_directive param args s)) [
      | inl (next, first) ↦ rw first (
          Replays-unmarshal_caddyfile directives next t
            (λ name. sym (replay-step param args directives s next first name) ∙ h name))
      | inr (e, refused) ↦ cc (refused-own param args directives s e refused, h param)
    ]

text_injective : {a b : Bytes} → text_value a ≡ text_value b → a ≡ b
text_injective h = cc

texts_injective : {a b : List Bytes} → texts_value a ≡ texts_value b → a ≡ b
texts_injective h = cc

countries_injective : {a b : List Bytes} → countries_value a ≡ countries_value b → a ≡ b
countries_injective h = cc

time_injective : {a b : ℤ} → time_value a ≡ time_value b → a ≡ b
time_injective h = cc

flag_injective : {a b : Bool} → flag_value a ≡ flag_value b → a ≡ b
flag_injective h = cc

choice_injective : {a b : Option Bool} → choice_value a ≡ choice_value b → a ≡ b
choice_injective h = cc

rules_injective : {a b : List HeaderSubstringRule} → rules_value a ≡ rules_value b → a ≡ b
rules_injective h = cc

-- Two settings are the same if every field of them is.
settings_ext : (s t : Settings) → ((name : Bytes) → field_of name s ≡ field_of name t) → s ≡ t
unfolding field_of
settings_ext s t h = λ i. record {
  template_path = text_injective (h (codes "template")) i;
  disable_csp_header = flag_injective (h (codes "disable_csp_header")) i;
  allow_for = time_injective (h (codes "allow_for")) i;
  verify_path = text_injective (h (codes "verify_path")) i;
  cap_api_url = text_injective (h (codes "cap_api_url")) i;
  cap_site_key = text_injective (h (codes "cap_site_key")) i;
  cap_secret_key = text_injective (h (codes "cap_secret_key")) i;
  bypass_api_key = text_injective (h (codes "bypass_api_key")) i;
  cookie_name = text_injective (h (codes "cookie_name")) i;
  cookie_path = text_injective (h (codes "cookie_path")) i;
  cookie_domain = text_injective (h (codes "cookie_domain")) i;
  cookie_secure = choice_injective (h (codes "cookie_secure")) i;
  cookie_http_only = choice_injective (h (codes "cookie_http_only")) i;
  cookie_same_site = text_injective (h (codes "cookie_same_site")) i;
  deny_path_prefixes = texts_injective (h (codes "deny_path_prefix")) i;
  deny_query_substrings = texts_injective (h (codes "deny_query_substring")) i;
  deny_header_substrings = rules_injective (h (codes "deny_header_substring")) i;
  whitelist_ips = texts_injective (h (codes "whitelist_ip")) i;
  whitelist_file = text_injective (h (codes "whitelist_file")) i;
  whitelist_url = text_injective (h (codes "whitelist_url")) i;
  whitelist_refresh = time_injective (h (codes "whitelist_refresh")) i;
  whitelist_countries = countries_injective (h (codes "whitelist_country")) i;
  blacklist_ips = texts_injective (h (codes "blacklist_ip")) i;
  blacklist_file = text_injective (h (codes "blacklist_file")) i;
  blacklist_url = text_injective (h (codes "blacklist_url")) i;
  blacklist_refresh = time_injective (h (codes "blacklist_refresh")) i;
  blacklist_countries = countries_injective (h (codes "blacklist_country")) i;
  country_url = text_injective (h (codes "country_url")) i;
  country_refresh = time_injective (h (codes "country_url_refresh")) i;
}

-- A Caddyfile block is accepted with some settings exactly if every field of them is what the
-- directives of its name, in their order, make of its zero value: a text, a time or a choice is
-- replaced, a flag set, and a list grows.
pub parse_caddyfile_iff :
    (directives : List (Bytes × List Bytes)) (settings : Settings)
    → (parse_caddyfile directives ≡ ok settings) ↔ Replays directives zero_settings settings
unfolding parse_caddyfile
parse_caddyfile_iff directives settings = (
  unmarshal_caddyfile-Replays directives zero_settings settings,
  λ h.
      let (end, read) = Replays-unmarshal_caddyfile directives zero_settings settings h in
      let fields : (name : Bytes) → field_of name end ≡ field_of name settings = λ name.
        ok-injective
          (sym (unmarshal_caddyfile-Replays directives zero_settings end read name) ∙ h name) in
      read ∙ ap ok (settings_ext end settings fields),
)

-- Two Caddyfile blocks in which each option has the same directives in the same order, whatever
-- stands between them, are accepted with the same settings.
pub parse_caddyfile_order :
    (directives others : List (Bytes × List Bytes))
    → ((name : Bytes) → lines_of name directives ≡ lines_of name others)
    → (settings : Settings)
    → (parse_caddyfile directives ≡ ok settings) ↔ (parse_caddyfile others ≡ ok settings)
parse_caddyfile_order directives others same_lines settings = (
  λ h.
      (parse_caddyfile_iff others settings).1
        (λ name. rw (← same_lines name) ((parse_caddyfile_iff directives settings).0 h name)),
  λ h.
      (parse_caddyfile_iff directives settings).1
        (λ name. rw (same_lines name) ((parse_caddyfile_iff others settings).0 h name)),
)

pub lines_of-swap :
    (name : Bytes) (d e : Bytes × List Bytes) (directives : List (Bytes × List Bytes))
    → same d.0 e.0 ≡ false
    → lines_of name (d ∷ e ∷ directives) ≡ lines_of name (e ∷ d ∷ directives)
unfolding lines_of
lines_of-swap name d e directives differs = elim (Bool-cases (same name d.0)) [
  | inl here ↦ rw (here, rw (← (same_iff name d.0).0 here) at differs) refl
  | inr there ↦ rw there refl
]
