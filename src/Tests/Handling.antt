-- ===== src/Tests/Handling.antt =====
-- Requests and verifications at concrete inputs.
use caddy_protector.Base.{◌≡◌, ◌↔◌, ◌⊎◌, refl, true, not, ◌&&◌, ◌||◌, [], arith}
use caddy_protector.Http.{fresh_response}
use caddy_protector.Text.{codes, cut}
use caddy_protector.Text.Segments.{clean}
use caddy_protector.Text.Unicode.{trim_space, trim_left, trim_back, equal_fold}
use caddy_protector.ReturnPath.{safe_return_path_from}
use caddy_protector.Token.{verify_return_state, verify_signed_value, keyed_mac}
use caddy_protector.Http.{header_get}
use caddy_protector.Base64
use caddy_protector.Verify.{is_json_content_type, decode_verify_request, get_client_ip}
use caddy_protector.RateLimit.{made}
use caddy_protector.RateLimit.Table.{IsValid}
use caddy_protector.Verify.{admit, handle_verify}
use caddy_protector.Verify.Admission.{IsAdmitted, admit-IsAdmitted}
use caddy_protector.Challenge.Page.{IsUnstored}
use caddy_protector.Verify.Outcome.{Succeeds, IsDropped, IsRefused, handle_verify_outcome}
use caddy_protector.Handler.{passed, cut_off, serve_http, has_bypass_key}
use caddy_protector.Handler.Decision.{
  is_verify, denied, cleared, serve_http-passed_iff, serve_http-cut_off_iff,
}
use caddy_protector.Handler.Flow.{serve_http-limits}
use caddy_protector.Handler.Journey.{admitted_browser}
use caddy_protector.Tests.Fixtures.{
  ascii_only, toy_crypto, toy_net, no_escapes, toy_parsers, toy_states, toy_cookies, bare_template,
  home,
}
use caddy_protector.Tests.Site.{
  site, admin_request, verify_request, cookie_request, outside, body, raw_state, start, solved_at,
}

serve_http-passed_iff_example :
    ((serve_http toy_states toy_cookies bare_template site cookie_request outside fresh_response).1
      ≡ passed)
    ↔ ((not (is_verify toy_states toy_cookies bare_template site cookie_request)
          && (has_bypass_key site cookie_request
              || (not (denied toy_states toy_cookies bare_template site cookie_request)
                  && cleared toy_states toy_cookies bare_template site cookie_request outside)))
        ≡ true)
serve_http-passed_iff_example =
    serve_http-passed_iff toy_states toy_cookies bare_template site cookie_request outside
      fresh_response

serve_http-cut_off_iff_example :
    ((serve_http toy_states toy_cookies bare_template site admin_request outside fresh_response).1
      ≡ cut_off)
    ↔ ((not (is_verify toy_states toy_cookies bare_template site admin_request)
          && not (has_bypass_key site admin_request)
          && denied toy_states toy_cookies bare_template site admin_request)
        ≡ true)
serve_http-cut_off_iff_example =
    serve_http-cut_off_iff toy_states toy_cookies bare_template site admin_request outside
      fresh_response

no_limits : IsValid []
no_limits = record { distinct = tt; small = tt; bounded = omega arith }

serve_http-limits_example :
    let after =
      (serve_http toy_states toy_cookies bare_template site verify_request outside
        fresh_response).0 in
    IsValid (made after.verify_rate_limits)
    × (after ≡ record site { verify_rate_limits = after.verify_rate_limits })
serve_http-limits_example =
    serve_http-limits toy_states toy_cookies bare_template site verify_request outside
      fresh_response no_limits

handle_verify_outcome_example :
    (Succeeds toy_states toy_cookies outside.ask_cap site verify_request body solved_at
        (handle_verify toy_states toy_cookies outside.ask_cap site verify_request body solved_at
          fresh_response).1
      ⊎ IsDropped toy_states toy_cookies outside.ask_cap site verify_request body solved_at
          (handle_verify toy_states toy_cookies outside.ask_cap site verify_request body solved_at
            fresh_response).1
      ⊎ IsRefused toy_states toy_cookies
          (handle_verify toy_states toy_cookies outside.ask_cap site verify_request body solved_at
            fresh_response).1)
    × IsUnstored
        (handle_verify toy_states toy_cookies outside.ask_cap site verify_request body solved_at
          fresh_response).1
handle_verify_outcome_example =
    handle_verify_outcome toy_states toy_cookies outside.ask_cap site verify_request body solved_at
      fresh_response refl refl

admit-IsAdmitted_example : IsAdmitted toy_states site verify_request body solved_at (
    admitted_browser toy_states toy_cookies (codes "tok") raw_state (codes "/shop?id=7") start home)
unfolding admit verify_return_state verify_signed_value keyed_mac is_json_content_type header_get
    equal_fold decode_verify_request get_client_ip cut clean safe_return_path_from Base64.decode
    Base64.values Base64.octets Base64.value_of Base64.encode Base64.sextets Base64.char_of
    trim_space trim_left trim_back
admit-IsAdmitted_example =
    admit-IsAdmitted toy_states site verify_request body solved_at
      (admitted_browser toy_states toy_cookies (codes "tok") raw_state (codes "/shop?id=7") start
        home)
      refl
