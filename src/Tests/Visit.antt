-- ===== src/Tests/Visit.antt =====
-- A visit of a browser to a module that was provisioned, at a concrete input.
use caddy_protector.Base.{◌≡◌, refl, true, [], ◌∷◌, ◌++◌}
use caddy_protector.Base.Assoc.{lookup, insert, remove_where}
use caddy_protector.Text.{codes, contains, cut, Bytes}
use caddy_protector.Text.Unicode.{to_lower, trim_space, trim_left, trim_back, equal_fold}
use caddy_protector.Netip.{masked, prefix_contains}
use caddy_protector.IpList.{
  load_ip_list, parse_allowlist_lines, parse_allowlist_entry, add_entry, scan_lines, raw_lines,
  drop_cr, join_lines, ip_list_contains, current_ip_list,
}
use caddy_protector.Filters.{
  compile_request_rules, compile_strings, compile_headers, compile_header, normalize_rule_value,
  match_request_rules, match_paths, match_queries, match_headers, path_values, decoded_query,
}
use caddy_protector.Country.{
  normalize_country_codes, normalize_from, country_code_set, lookup_country_code,
}
use caddy_protector.Token.{
  derive_mac_key, parse_same_site_mode, create_return_state, keyed_mac, sign_value,
  verify_signed_value, write_allow_cookie, verify_return_state, allow_cookie,
}
use caddy_protector.RateLimit.{
  reset_verify_rate_limits, allow_verify_attempt, attempt, spend, refill, retry_after_seconds,
}
use caddy_protector.Config.{
  validate, validate_countries, validate_ip_list_config, validate_country_config, validate_secrets,
  validate_cookie, validate_remote_url, check_inline, is_loopback_host,
}
use caddy_protector.Config.Provision.{load_challenge_template, provision}
use caddy_protector.Tests.Fixtures.{
  ascii_only, toy_crypto, toy_net, no_escapes, toy_urls, toy_parsers, toy_states, toy_cookies,
  bare_template, home, state_text, cookie_text,
}
use caddy_protector.Tests.Site.{
  site, verify_request, outside, start, solved_at, signed_with, page_request,
}
use caddy_protector.Text.Segments.{clean}
use caddy_protector.Base64
use caddy_protector.Http.{
  Response, set_cookie, is_token, is_token_char, Cookie, lax, fresh_response, cookie_of, header_get,
  header_values, http_error,
}
use caddy_protector.ReturnPath.{safe_return_path_from}
use caddy_protector.Verify.{
  decode_verify_request, is_json_content_type, get_client_ip, handle_verify, admit,
}
use caddy_protector.Handler.{Outcome, answered, Outside, passed, serve_http, is_blacklisted}
use caddy_protector.Challenge.{set_no_store_headers}
use caddy_protector.Lifecycle.{World, after_request, serve, here, step}
use caddy_protector.Lifecycle.Visit.{sending_back, Steps-passed}
use caddy_protector.Tests.Setup.{sources, served_site, no_loops}
use caddy_protector.Token.ReturnState.{claims_for}
use caddy_protector.Token.AllowCookie.{claims_at}

abbrev first_world : World
first_world = record { bb = served_site; loops = no_loops; closed = []; opened = 0 }

abbrev asked_world : World
asked_world =
    after_request toy_states toy_cookies bare_template page_request outside fresh_response
      first_world

abbrev given_state : Bytes
given_state =
    signed_with served_site.return_state_mac_key
      (state_text (claims_for (codes "/shop?id=7") start))

abbrev posted : Outside
posted = record outside { body = record { text = codes "tok|" ++ given_state; complete = true } }

abbrev solved_world : World
solved_world =
    after_request toy_states toy_cookies bare_template verify_request posted fresh_response
      asked_world

abbrev visit_cookie : Cookie
visit_cookie =
    allow_cookie served_site solved_at
      (signed_with served_site.cookie_mac_key (cookie_text (claims_at served_site solved_at))) lax

abbrev first_answer : Outcome
first_answer =
    (serve_http toy_states toy_cookies bare_template asked_world.bb verify_request posted
      fresh_response).1

Steps-passed_example :
    (cookie : Cookie) × (answer : Response) × (first_answer ≡ answered answer)
    × (answer.cookies ≡ cookie ∷ [])
    × ((serve_http toy_states toy_cookies bare_template solved_world.bb
          (sending_back first_answer page_request)
          outside
          fresh_response).1
        ≡ passed)
unfolding provision derive_mac_key load_challenge_template validate validate_countries
    validate_ip_list_config validate_country_config validate_secrets validate_cookie
    validate_remote_url check_inline is_loopback_host parse_allowlist_entry contains masked
    trim_space trim_left trim_back normalize_country_codes normalize_from country_code_set
    compile_request_rules compile_strings compile_headers compile_header normalize_rule_value
    to_lower parse_same_site_mode load_ip_list parse_allowlist_lines add_entry scan_lines raw_lines
    drop_cr join_lines lookup insert reset_verify_rate_limits create_return_state sign_value
    keyed_mac safe_return_path_from cut clean Base64.encode Base64.sextets Base64.char_of
    is_json_content_type header_get equal_fold decode_verify_request get_client_ip
    allow_verify_attempt attempt spend refill remove_where verify_signed_value Base64.decode
    Base64.values Base64.octets Base64.value_of retry_after_seconds serve_http handle_verify admit
    verify_return_state write_allow_cookie set_no_store_headers http_error cookie_of header_values
    match_request_rules match_paths match_queries match_headers path_values decoded_query
    is_blacklisted current_ip_list ip_list_contains lookup_country_code prefix_contains set_cookie
    is_token is_token_char
Steps-passed_example =
    Steps-passed toy_states toy_cookies bare_template sources site first_world asked_world
      solved_world verify_request page_request posted outside fresh_response fresh_response
      (codes "/shop?id=7") (codes "tok") given_state start home refl refl
      (step first_world asked_world asked_world
        (serve first_world page_request outside fresh_response) (here asked_world))
      refl refl refl refl refl refl refl refl refl refl refl refl refl refl (here solved_world) refl
      refl refl
