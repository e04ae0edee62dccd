-- ===== src/Challenge.antt =====
-- challenge.go: the page that asks a browser to prove itself, its addresses and its policy.
pub mod Page
pub mod Nonce
use caddy_protector.Base.{
  ℕ, ◌+◌, ◌-◌, ◌/◌, ◌%◌, ◌≡◌, refl, Bool, true, false, Option, none, some, List, [], ◌∷◌, ◌++◌,
  reverse, ltb, ◌==◌, if◌then◌else◌,
}
use caddy_protector.Base.Result.{Result, ok, err}
use caddy_protector.Text.{Bytes, codes, bytes_Eq}
use caddy_protector.Http.{Request, Response, page, set_header, http_error}
use caddy_protector.Protector.{Protector}
use caddy_protector.ReturnPath.{get_original_path}
use caddy_protector.Token.{Crypto, Codec, ReturnStateClaims, TokenError, create_return_state}

-- strings.TrimLeft(s, "/")
unfoldable pub trim_left_slash : Bytes → Bytes
trim_left_slash [] = []
trim_left_slash (c ∷ s) = let rest = trim_left_slash s in if c == b'/' then rest else c ∷ s

-- strings.TrimRight(s, "/")
unfoldable pub trim_right_slash : Bytes → Bytes
trim_right_slash s = reverse (trim_left_slash (reverse s))

unfoldable pub cap_api_endpoint : Protector → Bytes
cap_api_endpoint bb =
    trim_right_slash bb.cap_api_url
    ++ codes "/"
    ++ trim_right_slash (trim_left_slash bb.cap_site_key)
    ++ codes "/"

unfoldable pub cap_asset_url : Protector → Bytes → Bytes
cap_asset_url bb asset_name =
    trim_right_slash bb.cap_api_url ++ codes "/assets/" ++ trim_left_slash asset_name

unfoldable pub cap_site_verify_url : Protector → Bytes
cap_site_verify_url bb =
    trim_right_slash bb.cap_api_url
    ++ codes "/"
    ++ trim_right_slash (trim_left_slash bb.cap_site_key)
    ++ codes "/siteverify"

-- strings.Join
unfoldable pub join : Bytes → List Bytes → Bytes
join sep [] = []
join sep (s ∷ []) = s
join sep (s ∷ t ∷ ss) = s ++ sep ++ join sep (t ∷ ss)

abbrev pub self_source : Bytes
self_source = codes "'self'"

abbrev pub js_delivr_origin : Bytes
js_delivr_origin = codes "https://cdn.jsdelivr.net"

abbrev nonce_source : Bytes → Bytes
nonce_source nonce = codes "'nonce-" ++ nonce ++ codes "'"

unfoldable pub challenge_page_csp : Protector → Bytes → Bytes
challenge_page_csp bb nonce =
    let cap_origin = trim_right_slash bb.cap_api_url in
    let sep = codes " " in
    let script_src = join sep (
      nonce_source nonce
      ∷ codes "'unsafe-eval'"
      ∷ codes "'wasm-unsafe-eval'"
      ∷ cap_origin
      ∷ js_delivr_origin
      ∷ []) in
    let style_src = join sep (nonce_source nonce ∷ codes "'unsafe-inline'" ∷ []) in
    let connect_src = join sep (self_source ∷ cap_origin ∷ js_delivr_origin ∷ []) in
    let worker_src = join sep (self_source ∷ codes "blob:" ∷ cap_origin ∷ js_delivr_origin ∷ []) in
    let frame_src = join sep (self_source ∷ codes "blob:" ∷ []) in
    join (codes "; ") (
      codes "default-src 'none'"
      ∷ (codes "script-src " ++ script_src)
      ∷ (codes "style-src " ++ style_src)
      ∷ (codes "connect-src " ++ connect_src)
      ∷ codes "img-src 'self' data:"
      ∷ (codes "worker-src " ++ worker_src)
      ∷ (codes "child-src " ++ frame_src)
      ∷ (codes "frame-src " ++ frame_src)
      ∷ codes "base-uri 'none'"
      ∷ codes "form-action 'self'"
      ∷ codes "object-src 'none'"
      ∷ [])
    ++ codes ";"

-- hex.EncodeToString
abbrev hex_digit : ℕ → ℕ
hex_digit n = if ltb n 10 then b'0' + n else b'a' + (n - 10)

unfoldable pub hex : Bytes → Bytes
hex [] = []
hex (c ∷ s) = hex_digit (c / 16) ∷ hex_digit (c % 16) ∷ hex s

-- How many random bytes a nonce has.
abbrev pub nonce_length : ℕ
nonce_length = 18

abbrev pub nonce_of : Option Bytes → Option Bytes
nonce_of none = none
nonce_of (some bytes) = some (hex bytes)

-- generateCSPNonce: `draw` gives as many random bytes as it is asked for, if it does.
unfoldable pub generate_csp_nonce : (ℕ → Option Bytes) → Option Bytes
generate_csp_nonce draw = nonce_of (draw nonce_length)

-- setNoStoreHeaders
unfoldable pub set_no_store_headers : Response → Response
set_no_store_headers w =
    set_header (codes "Pragma") (codes "no-cache")
      (set_header (codes "Cache-Control") (codes "no-store") w)

-- What the template is executed with; `none` for a nonce that is not set.
pub record PageData : Type 0 where
  pub verify_path : Bytes
  pub state : Bytes
  pub cap_widget_script : Bytes
  pub cap_api_endpoint : Bytes
  pub cap_wasm_url : Bytes
  pub csp_nonce : Option Bytes

-- The template, if it can be loaded: what it writes, and whether it comes to its end.
pub record Template : Type 0 where
  pub execute : Option (PageData → Bytes × Bool)

abbrev pub with_page_headers : Response → Response
with_page_headers w =
    set_header (codes "X-Bot-Barrier") (codes "challenge") (
      set_header (codes "Content-Type") (codes "text/html; charset=utf-8") (set_no_store_headers w))

abbrev pub render_failed : Bytes
render_failed = codes "Challenge-Seite konnte nicht gerendert werden"

module _ ⦃crypto : Crypto⦄ (codec : Codec ReturnStateClaims) (template : Template) where
  abbrev pub page_data : Protector → Bytes → Option Bytes → PageData
  page_data bb state nonce = record {
    verify_path = bb.verify_path;
    state = state;
    cap_widget_script = cap_asset_url bb (codes "widget.js");
    cap_api_endpoint = cap_api_endpoint bb;
    cap_wasm_url = cap_asset_url bb (codes "cap_wasm_bg.wasm");
    csp_nonce = nonce;
  }

  -- A template writes as it runs: once something is written the status is sent, and the error's
  -- text stands behind it.
  abbrev pub page_or_error : Bytes × Bool → Response → Response
  page_or_error (text, true) w = record w { status = 200; body = page text }
  page_or_error ([], false) w = http_error render_failed 500 w
  page_or_error (c ∷ text, false) w = record w {
    status = 200;
    body = page (c ∷ text ++ render_failed ++ codes "\n");
  }

  abbrev pub page_of_template : Option (PageData → Bytes × Bool) → PageData → Response → Response
  page_of_template none content w = http_error render_failed 500 w
  page_of_template (some execute) content w = page_or_error (execute content) w

  -- renderChallengePage, with what serveChallenge does on its error
  unfoldable pub render_challenge_page : PageData → Response → Response
  render_challenge_page content w = page_of_template template.execute content w

  abbrev pub challenge_with_nonce : Protector → Bytes → Option Bytes → Response → Response
  challenge_with_nonce bb state none w = http_error render_failed 500 w
  challenge_with_nonce bb state (some nonce) w =
      render_challenge_page (page_data bb state (some nonce))
        (set_header (codes "Content-Security-Policy") (challenge_page_csp bb nonce) w)

  abbrev pub challenge_with_state :
      Protector → (ℕ → Option Bytes) → Result TokenError Bytes → Response → Response
  challenge_with_state bb draw (err e) w = http_error render_failed 500 w
  challenge_with_state bb draw (ok state) w =
      if bb.disable_csp_header
      then render_challenge_page (page_data bb state none) (with_page_headers w)
      else challenge_with_nonce bb state (generate_csp_nonce draw) (with_page_headers w)

  -- `now` is the clock, and `draw` crypto/rand.
  unfoldable pub serve_challenge :
      Protector → Request → ℕ → (ℕ → Option Bytes) → Response → Response
  serve_challenge bb r now draw w =
      challenge_with_state bb draw
        (create_return_state codec bb.return_state_mac_key
          (get_original_path r.orig_uri r.request_uri) now)
        w

csp_test : hex (0x0f ∷ 0xa0 ∷ []) ≡ codes "0fa0"
unfolding hex
csp_test = refl
