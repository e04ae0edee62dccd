-- ===== src/Http.antt =====
-- The part of net/http and of Caddy that a handler sees: a request as it is parsed, and the response
-- that a handler writes.
use caddy_protector.Base.{
  ℕ, Bool, not, ◌&&◌, ◌||◌, Option, none, some, List, [], ◌∷◌, ◌++◌, leb, ◌==◌, if◌then◌else◌,
  is_nil, any, all,
}
use caddy_protector.Base.Assoc.{insert}
use caddy_protector.Base.Int.{ℤ}
use caddy_protector.Text.{Bytes, codes, same, bytes_Eq}

-- `client_ip` is Caddy's variable, if it is set to a string, and `orig_uri` the replacer's value.
pub record Request : Type 0 where
  pub method : Bytes
  pub path : Bytes
  pub escaped_path : Bytes
  pub raw_query : Bytes
  pub request_uri : Bytes
  pub headers : List (Bytes × Bytes)
  pub cookies : List (Bytes × Bytes)
  pub remote_addr : Bytes
  pub client_ip : Option Bytes
  pub orig_uri : Option Bytes

-- r.Header.Values(name), for a canonical name.
unfoldable pub header_values : Bytes → List (Bytes × Bytes) → List Bytes
header_values name [] = []
header_values name ((n, v) ∷ headers) =
    let rest = header_values name headers in if same n name then v ∷ rest else rest

-- r.Header.Get(name)
unfoldable pub header_get : Bytes → List (Bytes × Bytes) → Bytes
header_get name [] = []
header_get name ((n, v) ∷ headers) = if same n name then v else header_get name headers

unfoldable pub find_cookie : Bytes → List (Bytes × Bytes) → Option Bytes
find_cookie name [] = none
find_cookie name ((n, v) ∷ cookies) = if same n name then some v else find_cookie name cookies

-- r.Cookie(name)
unfoldable pub cookie_of : Bytes → Request → Option Bytes
unfolding find_cookie
cookie_of name r = if is_nil name then none else find_cookie name r.cookies

pub data SameSite : Type 0 where
  lax strict no_site : SameSite

pub record Cookie : Type 0 where
  pub name : Bytes
  pub value : Bytes
  pub path : Bytes
  pub domain : Bytes
  pub http_only : Bool
  pub secure : Bool
  pub same_site : SameSite
  pub expires : ℤ
  pub max_age : ℤ

-- A body: none yet, a plain text, the rendered page, or the answer to a verification with the path
-- to return to.
pub data Body : Type 0 where
  no_body : Body
  plain : Bytes → Body
  page : Bytes → Body
  verified : Bytes → Body

pub record Response : Type 0 where
  pub status : ℕ
  pub headers : List (Bytes × Bytes)
  pub cookies : List Cookie
  pub body : Body

abbrev pub fresh_response : Response
fresh_response = record { status = 200; headers = []; cookies = []; body = no_body }

-- w.Header().Set(name, value)
abbrev pub set_header : Bytes → Bytes → Response → Response
set_header name value w = record w { headers = insert name value w.headers }

-- http.Error(w, message, status)
unfoldable pub http_error : Bytes → ℕ → Response → Response
http_error message status w =
    record (set_header (codes "X-Content-Type-Options") (codes "nosniff")
      (set_header (codes "Content-Type") (codes "text/plain; charset=utf-8") w)) {
        status = status;
        body = plain message;
      }

-- The characters of a token, which are all ASCII.
unfoldable pub is_token_char : ℕ → Bool
is_token_char c =
    leb b'0' c && leb c b'9'
    || leb b'A' c && leb c b'Z'
    || leb b'a' c && leb c b'z'
    || any (λ d. d == c) (codes "!#$%&'*+-.^_`|~")

-- A name that a cookie may have.
unfoldable pub is_token : Bytes → Bool
is_token name = not (is_nil name) && all is_token_char name

-- http.SetCookie(w, cookie): a cookie whose name is no token is dropped without an error.
unfoldable pub set_cookie : Cookie → Response → Response
set_cookie cookie w = record w {
  cookies = if is_token cookie.name then w.cookies ++ cookie ∷ [] else w.cookies;
}
