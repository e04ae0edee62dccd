-- ===== src/Tests/Site.antt =====
-- A module with a few rules, and the requests of one browser: it asks for a page, posts the solved
-- challenge, and comes back with its cookie.
use caddy_protector.Base.{take, ℕ, ◌*◌, true, false, Option, none, some, [], ◌∷◌, ◌++◌}
use caddy_protector.Base.Int.{pos}
use caddy_protector.Text.{Bytes, codes}
use caddy_protector.Base64
use caddy_protector.Http.{Request, Response, Cookie, lax, verified}
use caddy_protector.Protector.{Settings, IpAllowlist, Protector}
use caddy_protector.RateLimit.{second}
use caddy_protector.Token.{allow_cookie}
use caddy_protector.Token.ReturnState.{claims_for}
use caddy_protector.Token.AllowCookie.{claims_at}
use caddy_protector.Verify.{Content}
use caddy_protector.Handler.{Outside, post}
use caddy_protector.Tests.Fixtures.{toy_mac, state_text, cookie_text, network}

abbrev pub settings : Settings
settings = record {
  template_path = [];
  disable_csp_header = false;
  allow_for = pos (3600 * second);
  verify_path = codes "/verify";
  cap_api_url = codes "https://cap.example";
  cap_site_key = codes "key";
  cap_secret_key = codes "secret";
  bypass_api_key = codes "0123456789abcdef0123456789abcdef";
  cookie_name = codes "bb_allow";
  cookie_path = codes "/";
  cookie_domain = [];
  cookie_secure = some true;
  cookie_http_only = some true;
  cookie_same_site = codes "Lax";
  deny_path_prefixes = codes " /WP-Admin " ∷ [];
  deny_query_substrings = codes "union select" ∷ [];
  deny_header_substrings = record { name = codes "User-Agent"; needle = codes "BadBot" } ∷ [];
  whitelist_ips = [];
  whitelist_file = [];
  whitelist_url = [];
  whitelist_refresh = pos 0;
  whitelist_countries = [];
  blacklist_ips = codes "198.51.100.0/24" ∷ [];
  blacklist_file = [];
  blacklist_url = [];
  blacklist_refresh = pos 0;
  blacklist_countries = [];
  country_url = [];
  country_refresh = pos 0;
}

abbrev pub key : Bytes
key =
    1 ∷ 2 ∷ 3 ∷ 4 ∷ 5 ∷ 6 ∷ 7 ∷ 8 ∷ 1 ∷ 2 ∷ 3 ∷ 4 ∷ 5 ∷ 6 ∷ 7 ∷ 8 ∷ 1 ∷ 2 ∷ 3 ∷ 4 ∷ 5 ∷ 6 ∷ 7 ∷ 8
    ∷ 1 ∷ 2 ∷ 3 ∷ 4 ∷ 5 ∷ 6 ∷ 7 ∷ 8 ∷ []

abbrev pub blocked : IpAllowlist
blocked = record {
  exact_ips = [];
  prefixes = network ∷ [];
  sources = codes "blacklist:inline" ∷ [];
  entries = 1;
}

abbrev pub site : Protector
site = record {
  settings = settings;
  allowlist = none;
  blacklist = some blocked;
  country_db = none;
  whitelist_country_set = [];
  blacklist_country_set = [];
  has_country_rules = false;
  has_country_whitelist = false;
  return_state_mac_key = key;
  cookie_mac_key = key;
  compiled_path_rules = record { value = codes "/wp-admin"; source = codes "config" } ∷ [];
  compiled_query_rules = record { value = codes "union select"; source = codes "config" } ∷ [];
  compiled_header_rules =
      record { name = codes "User-Agent"; needle = codes "badbot"; source = codes "config" } ∷ [];
  verify_rate_limits = none;
}

abbrev pub page_request : Request
page_request = record {
  method = codes "GET";
  path = codes "/shop";
  escaped_path = codes "/shop";
  raw_query = codes "id=7";
  request_uri = codes "/shop?id=7";
  headers = (codes "User-Agent", codes "Mozilla") ∷ [];
  cookies = [];
  remote_addr = codes "192.0.2.7:1234";
  client_ip = none;
  orig_uri = none;
}

abbrev pub admin_request : Request
admin_request = record page_request {
  path = codes "/wp-admin/x";
  escaped_path = codes "/wp-admin/x";
}

abbrev pub verify_request : Request
verify_request = record page_request {
  method = post;
  path = codes "/verify";
  escaped_path = codes "/verify";
  raw_query = [];
  request_uri = codes "/verify";
  headers = (codes "Content-Type", codes "application/json") ∷ [];
}

-- The times of the challenge, the verification and the next request.
abbrev pub start : ℕ
start = 1000 * second

abbrev pub solved_at : ℕ
solved_at = 1010 * second

abbrev pub next_at : ℕ
next_at = 1200 * second

abbrev or_nothing : Option Bytes → Bytes
or_nothing none = []
or_nothing (some s) = s

abbrev pub signed_with : Bytes → Bytes → Bytes
signed_with mac_key text =
    Base64.encode text ++ b'.' ∷ Base64.encode (or_nothing (toy_mac mac_key (Base64.encode text)))

abbrev pub signed : Bytes → Bytes
signed = signed_with key

abbrev pub raw_state : Bytes
raw_state = signed (state_text (claims_for (codes "/shop?id=7") start))

abbrev pub raw_cookie : Bytes
raw_cookie = signed (cookie_text (claims_at site solved_at))

abbrev pub body : Content
body = record { text = codes "tok|" ++ raw_state; complete = true }

abbrev pub outside : Outside
outside = record {
  body = body;
  ask_cap = λ token. some true;
  random = λ n. some (take n key);
  cookie_time = next_at;
  challenge_time = start;
  verify_time = solved_at;
}

abbrev pub cookie_request : Request
cookie_request = record page_request { cookies = (codes "bb_allow", raw_cookie) ∷ [] }

abbrev pub site_cookie : Cookie
site_cookie = allow_cookie site solved_at raw_cookie lax

-- The answer to the verification.
abbrev pub site_answer : Response
site_answer = record {
  status = 200;
  headers =
      (codes "Cache-Control", codes "no-store")
      ∷ (codes "Pragma", codes "no-cache")
      ∷ (codes "Content-Type", codes "application/json")
      ∷ [];
  cookies = site_cookie ∷ [];
  body = verified (codes "/shop?id=7");
}
