-- ===== src/Caddyfile.antt =====
-- caddyfile.go: the directives of the Caddyfile block, one after the other.
pub mod Minutes
pub mod Fields
pub mod Updates
pub mod Kept
pub mod Block
use caddy_protector.Base.{
  ℕ, ◌+◌, ◌-◌, ◌*◌, ◌%◌, ◌^◌, Bool, true, false, not, ◌&&◌, ◌||◌, Option, none, some, List, [], ◌∷◌,
  ◌++◌, leb, ◌==◌, if◌then◌else◌, is_nil, any,
}
use caddy_protector.Base.Int.{ℤ, pos, signed}
use caddy_protector.Base.Result.{Result, ok, err, or_err, require, ◌>>=◌}
use caddy_protector.Text.{Bytes, codes, same}
use caddy_protector.Protector.{Settings}
use caddy_protector.RateLimit.{second}

pub data CaddyfileError : Type 0 where
  wrong_argument_count bad_duration bad_flag unknown_option : CaddyfileError

-- time.Minute
abbrev pub minute : ℕ
minute = 60 * second

abbrev pub max_int : ℕ
max_int = 2 ^ 63 - 1

abbrev pub is_digit : ℕ → Bool
is_digit c = leb b'0' c && leb c b'9'

-- The digits of a number, with the digits before them.
unfoldable pub digits_from : ℕ → Bytes → Option ℕ
digits_from n [] = some n
digits_from n (c ∷ s) =
    let rest = digits_from (n * 10 + (c - b'0')) s in if is_digit c then rest else none

-- strconv.Atoi of a text without a sign; an int has 64 bits
abbrev pub in_range : Option ℕ → Option ℕ
in_range none = none
in_range (some n) = if leb n max_int then some n else none

unfoldable pub atoi : Bytes → Option ℕ
atoi [] = none
atoi (c ∷ s) = in_range (digits_from 0 (c ∷ s))

-- strings.TrimSuffix(raw, "m")
unfoldable pub trim_m : Bytes → Bytes
trim_m [] = []
trim_m (c ∷ []) = if c == b'm' then [] else c ∷ []
trim_m (c ∷ d ∷ s) = c ∷ trim_m (d ∷ s)

abbrev pub has_sign : Bytes → Bool
has_sign = any (λ c. c == b'.' || c == b'+' || c == b'-')

-- The product of two int64 numbers wraps around.
abbrev pub minutes_duration : ℕ → ℤ
minutes_duration minutes = signed (2 ^ 63) (minutes * minute % 2 ^ 64)

unfoldable pub parse_minutes_duration : Bytes → Result CaddyfileError ℤ
parse_minutes_duration raw = do
  given ← require (not (is_nil raw)) bad_duration
  plain ← require (not (is_nil (trim_m raw) || has_sign (trim_m raw))) bad_duration
  minutes ← or_err (atoi (trim_m raw)) bad_duration
  positive ← require (not (leb minutes 0)) bad_duration
  ok (minutes_duration minutes)

-- strconv.ParseBool
abbrev pub one_of : Bytes → List Bytes → Bool
one_of s = any (λ t. same t s)

unfoldable pub parse_bool : Bytes → Option Bool
parse_bool s =
    if one_of s
      (codes "1" ∷ codes "t" ∷ codes "T" ∷ codes "TRUE" ∷ codes "true" ∷ codes "True" ∷ [])
    then some true
    else if one_of s
        (codes "0" ∷ codes "f" ∷ codes "F" ∷ codes "FALSE" ∷ codes "false" ∷ codes "False" ∷ [])
    then some false
    else none

-- The options that take any text.
unfoldable pub set_text : Bytes → Bytes → Settings → Option Settings
set_text param arg s =
    if same param (codes "cap_api_url")
    then some (record s { cap_api_url = arg })
    else if same param (codes "cap_site_key")
    then some (record s { cap_site_key = arg })
    else if same param (codes "cap_secret_key")
    then some (record s { cap_secret_key = arg })
    else if same param (codes "bypass_api_key")
    then some (record s { bypass_api_key = arg })
    else if same param (codes "cookie_name")
    then some (record s { cookie_name = arg })
    else if same param (codes "cookie_path")
    then some (record s { cookie_path = arg })
    else if same param (codes "cookie_domain")
    then some (record s { cookie_domain = arg })
    else if same param (codes "cookie_same_site")
    then some (record s { cookie_same_site = arg })
    else if same param (codes "verify_path")
    then some (record s { verify_path = arg })
    else if same param (codes "deny_path_prefix")
    then some (record s { deny_path_prefixes = s.deny_path_prefixes ++ arg ∷ [] })
    else if same param (codes "deny_query_substring")
    then some (record s { deny_query_substrings = s.deny_query_substrings ++ arg ∷ [] })
    else if same param (codes "whitelist_ip")
    then some (record s { whitelist_ips = s.whitelist_ips ++ arg ∷ [] })
    else if same param (codes "whitelist_file")
    then some (record s { whitelist_file = arg })
    else if same param (codes "whitelist_url")
    then some (record s { whitelist_url = arg })
    else if same param (codes "blacklist_ip")
    then some (record s { blacklist_ips = s.blacklist_ips ++ arg ∷ [] })
    else if same param (codes "blacklist_file")
    then some (record s { blacklist_file = arg })
    else if same param (codes "blacklist_url")
    then some (record s { blacklist_url = arg })
    else if same param (codes "country_url")
    then some (record s { country_url = arg })
    else if same param (codes "template")
    then some (record s { template_path = arg })
    else none

-- The options that take a number of minutes or a flag, and those that there are not.
unfoldable pub set_value : Bytes → Bytes → Settings → Result CaddyfileError Settings
set_value param arg s =
    if same param (codes "allow_for")
    then (do duration ← parse_minutes_duration arg; ok (record s { allow_for = duration }))
    else if same param (codes "whitelist_refresh")
    then (do duration ← parse_minutes_duration arg; ok (record s { whitelist_refresh = duration }))
    else if same param (codes "blacklist_refresh")
    then (do duration ← parse_minutes_duration arg; ok (record s { blacklist_refresh = duration }))
    else if same param (codes "country_url_refresh")
    then (do duration ← parse_minutes_duration arg; ok (record s { country_refresh = duration }))
    else if same param (codes "cookie_secure")
    then (do value ← or_err (parse_bool arg) bad_flag; ok (record s { cookie_secure = some value }))
    else if same param (codes "cookie_http_only")
    then (do
      value ← or_err (parse_bool arg) bad_flag
      ok (record s { cookie_http_only = some value }))
    else err unknown_option

abbrev pub text_or_value :
    Option Settings → Result CaddyfileError Settings → Result CaddyfileError Settings
text_or_value none rest = rest
text_or_value (some s) rest = ok s

unfoldable pub set_caddyfile_option : Bytes → Bytes → Settings → Result CaddyfileError Settings
set_caddyfile_option param arg s = text_or_value (set_text param arg s) (set_value param arg s)

abbrev pub one_argument : Bytes → List Bytes → Settings → Result CaddyfileError Settings
one_argument param (arg ∷ []) s = set_caddyfile_option param arg s
one_argument param _ s = err wrong_argument_count

abbrev pub header_rule : List Bytes → Settings → Result CaddyfileError Settings
header_rule (name ∷ needle ∷ []) s = ok (record s {
  deny_header_substrings = s.deny_header_substrings ++ record { name = name; needle = needle } ∷ [];
})
header_rule _ s = err wrong_argument_count

-- One directive, with the arguments on its line.
unfoldable pub parse_caddyfile_directive :
    Bytes → List Bytes → Settings → Result CaddyfileError Settings
parse_caddyfile_directive param args s =
    if same param (codes "disable_csp_header")
    then (do
      bare ← require (is_nil args) wrong_argument_count
      ok (record s { disable_csp_header = true }))
    else if same param (codes "whitelist_country")
    then (do
      given ← require (not (is_nil args)) wrong_argument_count
      ok (record s { whitelist_countries = s.whitelist_countries ++ args }))
    else if same param (codes "blacklist_country")
    then (do
      given ← require (not (is_nil args)) wrong_argument_count
      ok (record s { blacklist_countries = s.blacklist_countries ++ args }))
    else if same param (codes "deny_header_substring")
    then header_rule args s
    else one_argument param args s

-- UnmarshalCaddyfile, of the directives of the block
unfoldable pub unmarshal_caddyfile :
    List (Bytes × List Bytes) → Settings → Result CaddyfileError Settings
unmarshal_caddyfile [] s = ok s
unmarshal_caddyfile ((param, args) ∷ directives) s = do
  next ← parse_caddyfile_directive param args s
  unmarshal_caddyfile directives next

-- new(CaddyProtector): every field is its zero value.
abbrev pub zero_settings : Settings
zero_settings = record {
  template_path = [];
  disable_csp_header = false;
  allow_for = pos 0;
  verify_path = [];
  cap_api_url = [];
  cap_site_key = [];
  cap_secret_key = [];
  bypass_api_key = [];
  cookie_name = [];
  cookie_path = [];
  cookie_domain = [];
  cookie_secure = none;
  cookie_http_only = none;
  cookie_same_site = [];
  deny_path_prefixes = [];
  deny_query_substrings = [];
  deny_header_substrings = [];
  whitelist_ips = [];
  whitelist_file = [];
  whitelist_url = [];
  whitelist_refresh = pos 0;
  whitelist_countries = [];
  blacklist_ips = [];
  blacklist_file = [];
  blacklist_url = [];
  blacklist_refresh = pos 0;
  blacklist_countries = [];
  country_url = [];
  country_refresh = pos 0;
}

-- parseCaddyfile: a fresh module with what the block sets.
unfoldable pub parse_caddyfile : List (Bytes × List Bytes) → Result CaddyfileError Settings
parse_caddyfile directives = unmarshal_caddyfile directives zero_settings
