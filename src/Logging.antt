-- ===== src/Logging.antt =====
-- What is written to the log: redactURLForLog, redactHeaderURLForLog and redactPathForLog of
-- handler.go, shortValue of challenge.go, and the fields of the log's entries.
pub mod Redaction
use caddy_protector.Base.{
  ℕ, ◌+◌, ◌-◌, ◌/◌, ◌%◌, ltb, any, Bool, true, false, not, ◌&&◌, ◌||◌, Option, none, some, List, [],
  ◌∷◌, ◌++◌, leb, ◌==◌, if◌then◌else◌, is_nil, is_some, length, take,
}
use caddy_protector.Base.Int.{ℤ, pos}
use caddy_protector.Text.{Bytes, codes, cut, contains}
use caddy_protector.Http.{Request, header_get}
use caddy_protector.Protector.{Protector, IpAllowlist, CountryDb}
use caddy_protector.Token.{cookie_secure_value, cookie_http_only_value}
use caddy_protector.Verify.{Parsers, Content, max_verify_body_bytes, get_client_ip}
use caddy_protector.Config.{Url, UrlParser}

-- "…" in UTF-8
abbrev pub ellipsis : Bytes
ellipsis = 0xe2 ∷ 0x80 ∷ 0xa6 ∷ []

unfoldable pub short_value : Bytes → ℕ → Bytes
short_value value max_len =
    if leb (length value) max_len then value else take max_len value ++ ellipsis

-- A character that URL.String leaves as it is in a host.
unfoldable pub is_host_char : ℕ → Bool
is_host_char c =
    leb b'0' c && leb c b'9'
    || leb b'A' c && leb c b'Z'
    || leb b'a' c && leb c b'z'
    || any (λ d. d == c) (codes "-_.~!$&'()*+,;=:[]<>\"")

abbrev pub upper_hex_digit : ℕ → ℕ
upper_hex_digit n = if ltb n 10 then b'0' + n else b'A' + (n - 10)

-- Every other byte is a per cent sign and two digits.
unfoldable pub escape_host : Bytes → Bytes
escape_host [] = []
escape_host (c ∷ host) =
    let rest = escape_host host in
    if is_host_char c
    then c ∷ rest
    else b'%' ∷ upper_hex_digit (c / 16) ∷ upper_hex_digit (c % 16) ∷ rest

-- URL.String, piece by piece.
abbrev pub scheme_text : Url → Bytes
scheme_text u = if is_nil u.scheme then [] else u.scheme ++ codes ":"

abbrev pub user_text : Option Bytes → Bytes
user_text none = []
user_text (some user) = user ++ codes "@"

abbrev pub has_authority : Url → Bool
has_authority u =
    (not (is_nil u.scheme) || not (is_nil u.host) || is_some u.user)
    && not (u.omit_host && is_nil u.host && not (is_some u.user))

abbrev pub authority_text : Url → Bytes
authority_text u =
    if has_authority u
    then (if not (is_nil u.host) || not (is_nil u.escaped_path) || is_some u.user
        then codes "//"
        else [])
      ++ user_text u.user
      ++ escape_host u.host
    else []

abbrev pub starts_with_slash : Bytes → Bool
starts_with_slash [] = false
starts_with_slash (c ∷ s) = c == b'/'

-- A slash between a host and a path, and "./" before a first segment with a colon.
abbrev pub path_text : Url → Bytes → Bytes
path_text u before =
    (if not (is_nil u.escaped_path) && not (starts_with_slash u.escaped_path) && not (is_nil u.host)
      then codes "/"
      else if is_nil before && contains (cut u.escaped_path b'/').before (codes ":")
      then codes "./"
      else [])
    ++ u.escaped_path

abbrev pub hierarchy_text : Url → Bytes
hierarchy_text u = authority_text u ++ path_text u (scheme_text u ++ authority_text u)

abbrev pub query_text : Url → Bytes
query_text u = if u.force_query || not (is_nil u.raw_query) then codes "?" ++ u.raw_query else []

abbrev pub fragment_text : Url → Bytes
fragment_text u = if is_nil u.escaped_fragment then [] else codes "#" ++ u.escaped_fragment

unfoldable pub url_string : Url → Bytes
url_string u =
    scheme_text u
    ++ (if is_nil u.opaque_part then hierarchy_text u else u.opaque_part)
    ++ query_text u
    ++ fragment_text u

unfoldable pub redact_url_for_log : Option Url → Bytes
redact_url_for_log none = []
redact_url_for_log (some u) = url_string (record u { raw_query = []; force_query = false })

module _ ⦃urls : UrlParser⦄ where
  -- What is logged of a text that may be a URL.
  abbrev pub redacted_or_short : Bytes → Option Url → Bytes
  redacted_or_short raw none = short_value raw 128
  redacted_or_short raw (some u) = redact_url_for_log (some u)

  unfoldable pub redact_path_for_log : Bytes → Bytes
  redact_path_for_log raw = redacted_or_short raw (urls.parse_url raw)

  unfoldable pub redact_header_url_for_log : Bytes → Bytes
  redact_header_url_for_log raw = if is_nil raw then [] else redact_path_for_log raw

-- A field of an entry.
pub data Value : Type 0 where
  text : Bytes → Value
  number : ℤ → Value
  flagged : Bool → Value
  texts : List Bytes → Value

abbrev pub Fields : Type 0
Fields = List (Bytes × Value)

module _ ⦃parsers : Parsers⦄ ⦃urls : UrlParser⦄ where
  -- ServeHTTP: what every entry for a request says.
  unfoldable pub request_fields : Request → Option Url → Fields
  request_fields r url =
      (codes "client_ip", text (get_client_ip r))
      ∷ (codes "method", text r.method)
      ∷ (codes "requested_url", text (redact_url_for_log url))
      ∷ []

  -- handleVerify: what every entry for a verification says.
  unfoldable pub verify_fields : Request → Option Url → ℤ → Fields
  verify_fields r url content_length =
      (codes "event", text (codes "caddy_protector_verify"))
      ∷ (codes "client_ip", text (get_client_ip r))
      ∷ (codes "method", text r.method)
      ∷ (codes "requested_url", text (redact_url_for_log url))
      ∷ (codes "user_agent", text (header_get (codes "User-Agent") r.headers))
      ∷ (codes "content_type", text (header_get (codes "Content-Type") r.headers))
      ∷ (codes "origin", text (header_get (codes "Origin") r.headers))
      ∷ (codes "referer", text (redact_header_url_for_log (header_get (codes "Referer") r.headers)))
      ∷ (codes "content_length", number content_length)
      ∷ []

-- logCountryDBLoaded: nothing is said of no database.
unfoldable pub log_country_db_loaded : Bytes → Option CountryDb → Fields
log_country_db_loaded mode none = []
log_country_db_loaded mode (some db) =
    (codes "mode", text mode)
    ∷ (codes "source", text db.source)
    ∷ (codes "size_bytes", number (pos db.size))
    ∷ []

-- logIPListLoaded
unfoldable pub log_ip_list_loaded : Bytes → Bytes → Option IpAllowlist → Fields
log_ip_list_loaded mode kind none = []
log_ip_list_loaded mode kind (some l) =
    (codes "mode", text mode)
    ∷ (codes "list", text kind)
    ∷ (codes "entries", number (pos l.entries))
    ∷ (codes "exact_ips", number (pos (length l.exact_ips)))
    ∷ (codes "prefixes", number (pos (length l.prefixes)))
    ∷ (codes "sources", texts l.sources)
    ∷ []

-- logAllowlistLoaded
abbrev pub log_allowlist_loaded : Bytes → Option IpAllowlist → Fields
log_allowlist_loaded mode l = log_ip_list_loaded mode (codes "allowlist") l

-- The last entry of Provision.
unfoldable pub provision_fields : Protector → Fields
provision_fields bb =
    (codes "allow_for", number bb.allow_for)
    ∷ (codes "verify_path", text bb.verify_path)
    ∷ (codes "cap_api_url", text bb.cap_api_url)
    ∷ (codes "cap_site_key", text bb.cap_site_key)
    ∷ (codes "cookie_name", text bb.cookie_name)
    ∷ (codes "cookie_path", text bb.cookie_path)
    ∷ (codes "cookie_domain", text bb.cookie_domain)
    ∷ (codes "cookie_secure", flagged (cookie_secure_value bb))
    ∷ (codes "cookie_http_only", flagged (cookie_http_only_value bb))
    ∷ (codes "cookie_same_site", text bb.cookie_same_site)
    ∷ (codes "whitelist_ips", texts bb.whitelist_ips)
    ∷ (codes "whitelist_file", text bb.whitelist_file)
    ∷ (codes "whitelist_url", text bb.whitelist_url)
    ∷ (codes "whitelist_refresh", number bb.whitelist_refresh)
    ∷ (codes "whitelist_countries", texts bb.whitelist_countries)
    ∷ (codes "blacklist_ips", texts bb.blacklist_ips)
    ∷ (codes "blacklist_file", text bb.blacklist_file)
    ∷ (codes "blacklist_url", text bb.blacklist_url)
    ∷ (codes "blacklist_refresh", number bb.blacklist_refresh)
    ∷ (codes "blacklist_countries", texts bb.blacklist_countries)
    ∷ (codes "country_url", text bb.country_url)
    ∷ (codes "country_url_refresh", number bb.country_refresh)
    ∷ []

-- What decodeVerifyRequest tells of a body that was read; `json_error` is the decoder's error for a
-- text, empty if there is none.
pub record VerifyDecodeInfo : Type 0 where
  pub body_length : ℕ
  pub body_preview : Bytes
  pub original_decode_error : Bytes

abbrev pub read_part : Content → Bytes
read_part body = take max_verify_body_bytes body.text

abbrev pub read_whole : Content → Bool
read_whole body = body.complete && leb (length body.text) max_verify_body_bytes

unfoldable pub decode_info : (Bytes → Bytes) → Content → VerifyDecodeInfo
decode_info json_error body = record {
  body_length = length (read_part body);
  body_preview = short_value (read_part body) 512;
  original_decode_error = if read_whole body then json_error body.text else [];
}
