-- ===== src/Tests/Journey.antt =====
-- The way of one browser through the module.
use caddy_protector.Base.{◌≡◌, refl, true, [], ◌∷◌}
use caddy_protector.Base.Assoc.{lookup, insert, remove_where}
use caddy_protector.Base.Result.{ok}
use caddy_protector.Text.{codes, same, contains, cut}
use caddy_protector.Text.Unicode.{to_lower, trim_space, trim_left, trim_back, equal_fold}
use caddy_protector.Text.Segments.{clean}
use caddy_protector.Base64
use caddy_protector.Http.{
  set_cookie, is_token, is_token_char, Response, Cookie, lax, fresh_response, verified, cookie_of,
  header_get, header_values,
}
use caddy_protector.RateLimit.{allow_verify_attempt, attempt, spend, refill}
use caddy_protector.ReturnPath.{safe_return_path_from}
use caddy_protector.Token.{
  create_return_state, keyed_mac, sign_value, verify_signed_value, write_allow_cookie,
  parse_same_site_mode,
}
use caddy_protector.Verify.{
  decode_verify_request, is_json_content_type, get_client_ip, handle_verify, admit,
}
use caddy_protector.Handler.{passed, answered, post, serve_http}
use caddy_protector.Handler.Journey.{
  serve_http-solved, serve_http-with_cookie, serve_http-set_cookie,
}
use caddy_protector.Http.{http_error}
use caddy_protector.Challenge.{set_no_store_headers}
use caddy_protector.Token.{verify_return_state}
use caddy_protector.RateLimit.{retry_after_seconds}
use caddy_protector.Filters.{
  match_request_rules, match_paths, match_queries, match_headers, path_values, decoded_query,
}
use caddy_protector.IpList.{current_ip_list, ip_list_contains}
use caddy_protector.Country.{lookup_country_code}
use caddy_protector.Handler.{is_blacklisted}
use caddy_protector.Netip.{prefix_contains}
use caddy_protector.Verify.Outcome.{Succeeds}
use caddy_protector.Tests.Fixtures.{
  ascii_only, toy_crypto, toy_net, no_escapes, toy_parsers, toy_states, toy_cookies, bare_template,
  home,
}
use caddy_protector.Tests.Site.{
  site, verify_request, cookie_request, outside, raw_state, site_cookie, site_answer, start,
  solved_at, key,
}

site_state : create_return_state toy_states key (codes "/shop?id=7") start ≡ ok raw_state
unfolding create_return_state sign_value keyed_mac safe_return_path_from cut clean Base64.encode
    Base64.sextets Base64.char_of
site_state = refl

serve_http-solved_example :
    (cookie : Cookie) × (answer : Response) × (write_allow_cookie toy_cookies site solved_at
      ≡ ok cookie)
    × ((serve_http toy_states toy_cookies bare_template site verify_request outside
          fresh_response).1
        ≡ answered answer)
    × (answer.status ≡ 200)
    × (answer.cookies ≡ cookie ∷ [])
    × (answer.body ≡ verified (safe_return_path_from (codes "/shop?id=7")))
unfolding create_return_state sign_value keyed_mac safe_return_path_from cut clean Base64.encode
    Base64.sextets Base64.char_of parse_same_site_mode to_lower trim_space trim_left trim_back
    is_json_content_type header_get equal_fold decode_verify_request get_client_ip
    allow_verify_attempt attempt spend refill lookup insert remove_where is_token is_token_char
serve_http-solved_example =
    serve_http-solved toy_states toy_cookies bare_template site verify_request outside
      fresh_response (codes "/shop?id=7") (codes "tok") raw_state start home lax refl refl refl refl
      refl refl refl refl refl refl refl refl refl refl refl refl

site_answers :
    (serve_http toy_states toy_cookies bare_template site verify_request outside fresh_response).1
    ≡ answered site_answer
unfolding create_return_state sign_value keyed_mac verify_signed_value safe_return_path_from cut
    clean Base64.encode Base64.decode Base64.values Base64.octets Base64.value_of Base64.sextets
    Base64.char_of parse_same_site_mode to_lower trim_space trim_left trim_back is_json_content_type
    header_get equal_fold decode_verify_request get_client_ip allow_verify_attempt attempt spend
    refill retry_after_seconds lookup insert remove_where serve_http handle_verify admit
    verify_return_state write_allow_cookie set_no_store_headers http_error set_cookie is_token
    is_token_char
site_answers = refl

serve_http-set_cookie_example :
    (same (codes "/verify") (codes "/verify") ≡ true)
    × (same post post ≡ true)
    × Succeeds toy_states toy_cookies outside.ask_cap site verify_request outside.body solved_at
        site_answer
serve_http-set_cookie_example =
    serve_http-set_cookie toy_states toy_cookies bare_template site verify_request outside
      fresh_response site_answer refl refl site_answers refl

serve_http-with_cookie_example :
    (serve_http toy_states toy_cookies bare_template site cookie_request outside fresh_response).1
    ≡ passed
unfolding cookie_of header_values match_request_rules match_paths match_queries match_headers
    path_values decoded_query contains to_lower is_blacklisted current_ip_list ip_list_contains
    lookup get_client_ip lookup_country_code cut prefix_contains
serve_http-with_cookie_example =
    serve_http-with_cookie toy_states toy_cookies bare_template site site verify_request
      cookie_request outside outside fresh_response fresh_response site_answer site_cookie refl refl
      refl refl site_answers refl refl refl refl refl refl
