-- ===== src/Tests/Fixtures.antt =====
-- Small stand-ins for the libraries: a checksum of 32 bytes for BLAKE3, two encodings for JSON, and
-- parsers that know a few texts.
use caddy_protector.Base.{
  ℕ, zero, suc, ◌+◌, ◌*◌, ◌/◌, ◌%◌, ◌≡◌, refl, sym, ap, ◌∙◌, Bool, true, false, ◌&&◌, Option, none,
  some, [], ◌∷◌, ◌++◌, map, all, ltb, ◌==◌, if◌then◌else◌, is_some, length, arith,
}
use caddy_protector.Base.Int.{ℤ, pos, negsuc}
use caddy_protector.Base64.RoundTrip.{IsBytes}
use caddy_protector.Text.{Bytes, codes, same, same_refl, has_prefix, cut}
use caddy_protector.Text.Unicode.{Unicode}
use caddy_protector.Netip.{Addr, v4, v6, Prefix}
use caddy_protector.Filters.{Escapes}
use caddy_protector.IpList.{AddressParser}
use caddy_protector.Challenge.{Template}
use caddy_protector.Token.{Crypto, Codec, ReturnStateClaims, AllowCookieClaims}
use caddy_protector.Verify.{Parsers}
use caddy_protector.Config.{Url, UrlParser}

instance abbrev pub ascii_only : Unicode
ascii_only = record {
  lower = λ s. s;
  upper = λ s. s;
  equal_fold = same;
  equal_fold-self = same_refl;
  lower-is_nil = λ s h. h;
}

-- A checksum, spread over 32 bytes.
abbrev checksum : Bytes → ℕ
checksum [] = 7
checksum (c ∷ s) = (c + 31 * checksum s) % 65536

abbrev spread : ℕ → ℕ → Bytes
spread zero sum = []
spread (suc n) sum = (sum + n * 37) % 256 ∷ spread n sum

pub spread-length : (n sum : ℕ) → length (spread n sum) ≡ n
spread-length zero sum = refl
spread-length (suc n) sum = ap suc (spread-length n sum)

spread-IsBytes : (n sum : ℕ) → IsBytes (spread n sum)
spread-IsBytes zero sum = tt
spread-IsBytes (suc n) sum = (omega arith, spread-IsBytes n sum)

abbrev pub toy_mac : Bytes → Bytes → Option Bytes
toy_mac key text = if length key == 32 then some (spread 32 (checksum (key ++ text))) else none

pub toy_mac_total : (key text : Bytes) → length key ≡ 32 → is_some (toy_mac key text) ≡ true
toy_mac_total key text h = rw h

pub toy_mac-length : (key text mac : Bytes) → toy_mac key text ≡ some mac → length mac ≡ 32
toy_mac-length key text mac h =
    let e : spread 32 (checksum (key ++ text)) ≡ mac = ground arith in
    ap length (sym e) ∙ spread-length 32 (checksum (key ++ text))

pub toy_mac-IsBytes : (key text mac : Bytes) → toy_mac key text ≡ some mac → IsBytes mac
toy_mac-IsBytes key text mac h =
    let e : spread 32 (checksum (key ++ text)) ≡ mac = ground arith in
    rw (← e) (spread-IsBytes 32 (checksum (key ++ text)))

instance abbrev pub toy_crypto : Crypto
toy_crypto = record {
  keyed_mac = toy_mac;
  derive_key = λ context secret. spread 32 (checksum (context ++ secret));
  keyed_mac_total = toy_mac_total;
  keyed_mac-length = toy_mac-length;
  keyed_mac-IsBytes = toy_mac-IsBytes;
  derive_key-length = λ context secret. spread-length 32 (checksum (context ++ secret));
}

abbrev magnitude : ℤ → ℕ
magnitude (pos n) = n
magnitude (negsuc n) = n

abbrev fits_below : ℕ → ℤ → Bool
fits_below bound (pos n) = ltb n bound
fits_below bound (negsuc n) = false

abbrev low_bytes : Bytes → Bytes
low_bytes = map (λ c. c % 256)

pub low_bytes-IsBytes : (s : Bytes) → IsBytes (low_bytes s)
low_bytes-IsBytes [] = tt
low_bytes-IsBytes (c ∷ s) = (omega arith, low_bytes-IsBytes s)

low_bytes_same : (s : Bytes) → all (λ c. ltb c 256) s ≡ true → low_bytes s ≡ s
low_bytes_same [] h = refl
low_bytes_same (c ∷ s) h = ground (arith, low_bytes_same s)

-- Two bytes of a number.
abbrev high : ℤ → ℕ
high n = magnitude n / 256 % 256

abbrev low : ℤ → ℕ
low n = magnitude n % 256

abbrev pub state_text : ReturnStateClaims → Bytes
state_text c = low c.version ∷ high c.expires_at ∷ low c.expires_at ∷ low_bytes c.return_path

abbrev read_state : Bytes → Option ReturnStateClaims
read_state (v ∷ h ∷ l ∷ path) =
    some (record { version = pos v; return_path = path; expires_at = pos (h * 256 + l) })
read_state _ = none

abbrev state_carries : ReturnStateClaims → Bool
state_carries c =
    fits_below 256 c.version && fits_below 65536 c.expires_at && all (λ x. ltb x 256) c.return_path

two_bytes : (n : ℤ) → fits_below 65536 n ≡ true → pos (high n * 256 + low n) ≡ n
two_bytes (pos n) h = ground arith
two_bytes (negsuc n) h = cc

one_byte : (n : ℤ) → fits_below 256 n ≡ true → pos (low n) ≡ n
one_byte (pos n) h = ground arith
one_byte (negsuc n) h = cc

all_three : (a b c : Bool) → (a && b && c) ≡ true → (a ≡ true) × (b ≡ true) × (c ≡ true)
all_three a b c h = ground arith

pub state_back :
    (c : ReturnStateClaims) → state_carries c ≡ true → read_state (state_text c) ≡ some c
state_back c h =
    let (v, e, p) =
      all_three (fits_below 256 c.version) (fits_below 65536 c.expires_at)
        (all (λ x. ltb x 256) c.return_path) h in
    rw (one_byte c.version v, two_bytes c.expires_at e, low_bytes_same c.return_path p)

abbrev pub toy_states : Codec ReturnStateClaims
toy_states = record {
  marshal = state_text;
  unmarshal = read_state;
  carries = state_carries;
  marshal-IsBytes =
      λ c. (omega arith, (omega arith, (omega arith, low_bytes-IsBytes c.return_path)));
  marshal-is_nil = λ c. refl;
  unmarshal-marshal = state_back;
}

abbrev pub cookie_text : AllowCookieClaims → Bytes
cookie_text c =
    low c.version ∷ high c.issued_at ∷ low c.issued_at ∷ high c.expires_at ∷ low c.expires_at ∷ []

abbrev read_cookie : Bytes → Option AllowCookieClaims
read_cookie (v ∷ a ∷ b ∷ c ∷ d ∷ []) =
    some (record { version = pos v; issued_at = pos (a * 256 + b); expires_at = pos (c * 256 + d) })
read_cookie _ = none

abbrev cookie_carries : AllowCookieClaims → Bool
cookie_carries c =
    fits_below 256 c.version && fits_below 65536 c.issued_at && fits_below 65536 c.expires_at

pub cookie_back :
    (c : AllowCookieClaims) → cookie_carries c ≡ true → read_cookie (cookie_text c) ≡ some c
cookie_back c h =
    let (v, i, e) =
      all_three (fits_below 256 c.version) (fits_below 65536 c.issued_at)
        (fits_below 65536 c.expires_at) h in
    rw (one_byte c.version v, two_bytes c.issued_at i, two_bytes c.expires_at e)

abbrev pub toy_cookies : Codec AllowCookieClaims
toy_cookies = record {
  marshal = cookie_text;
  unmarshal = read_cookie;
  carries = cookie_carries;
  marshal-IsBytes =
      λ c. (omega arith, (omega arith, (omega arith, (omega arith, (omega arith, tt)))));
  marshal-is_nil = λ c. refl;
  unmarshal-marshal = cookie_back;
}

-- 192.0.2.7 and 198.51.100.0/24
abbrev pub home : Addr
home = v4 3221225991

abbrev pub network : Prefix
network = record { addr = v4 3325256704; bits = 24 }

abbrev addr_numbers : Addr → Bytes → Bytes
addr_numbers (v4 a) s = 4 ∷ a ∷ s
addr_numbers (v6 a zone) s = 6 ∷ a ∷ s ++ zone

abbrev prefix_numbers : Prefix → Bytes
prefix_numbers p = addr_numbers p.addr (p.bits ∷ [])

numbers-injective :
    (a b : Addr) (m n : ℕ) → addr_numbers a (m ∷ []) ≡ addr_numbers b (n ∷ []) → (a ≡ b) × (m ≡ n)
numbers-injective (v4 a) (v4 b) m n h = (cc, cc)
numbers-injective (v4 a) (v6 b zone) m n h = cc
numbers-injective (v6 a zone) (v4 b) m n h = cc
numbers-injective (v6 a zone) (v6 b zone') m n h = (cc, cc)

pub prefix_numbers-injective : (p q : Prefix) → prefix_numbers p ≡ prefix_numbers q → p ≡ q
prefix_numbers-injective p q h =
    let (same_addr, same_bits) = numbers-injective p.addr q.addr p.bits q.bits h in
    rw (same_addr, same_bits)

instance abbrev pub toy_net : AddressParser
toy_net = record {
  parse_addr = λ s. if same s (codes "192.0.2.7") then some home else none;
  parse_prefix = λ s. if same s (codes "198.51.100.0/24") then some network else none;
  prefix_string = prefix_numbers;
  prefix_string-injective = prefix_numbers-injective;
}

instance abbrev pub no_escapes : Escapes
no_escapes = record { path_unescape = some; query_unescape = some; canonical_header_key = λ s. s }

-- A token and a state with a bar between them.
instance abbrev pub toy_parsers : Parsers
toy_parsers = record {
  parse_media_type = some;
  split_host = λ s. some (cut s b':').before;
  decode_request =
      λ s. some (record { token = (cut s b'|').before; state = (cut s b'|').after }, true);
}

abbrev pub bare_template : Template
bare_template = record { execute = some (λ content. (content.state, true)) }

abbrev pub cap_url : Url
cap_url = record {
  scheme = codes "https";
  host = codes "cap.example";
  hostname = codes "cap.example";
  opaque_part = [];
  user = none;
  omit_host = false;
  escaped_path = codes "/key/siteverify";
  force_query = false;
  raw_query = [];
  escaped_fragment = [];
}

abbrev pub dev_url : Url
dev_url = record {
  scheme = codes "http";
  host = codes "localhost:8080";
  hostname = codes "localhost";
  opaque_part = [];
  user = none;
  omit_host = false;
  escaped_path = codes "/";
  force_query = false;
  raw_query = [];
  escaped_fragment = [];
}

instance abbrev pub toy_urls : UrlParser
toy_urls = record {
  parse_url = λ s. if has_prefix s (codes "https://cap.example") then some cap_url else none;
  parse_ip = λ s. none;
}
