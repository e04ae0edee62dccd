-- ===== src/Tests/Pages.antt =====
-- The challenge page, the log and the Caddyfile block at concrete inputs.
use caddy_protector.Base.{◌↔◌, List, ◌≡◌, refl, Bool, true, some, [], ◌∷◌, ◌++◌, arith}
use caddy_protector.Text.{Bytes, codes, cut}
use caddy_protector.ReturnPath.{safe_return_path_from, get_original_path}
use caddy_protector.Text.Cut.{Lacks}
use caddy_protector.Text.Segments.{clean}
use caddy_protector.Http.{Response, fresh_response}
use caddy_protector.Protector.{Settings}
use caddy_protector.Challenge.Page.{IsChallenge}
use caddy_protector.Config.{Url}
use caddy_protector.Logging.{fragment_text, redact_url_for_log}
use caddy_protector.Logging.Redaction.{IsEscaped, front, redact_url_for_log_lem}
use caddy_protector.Caddyfile.{
  parse_caddyfile_directive, set_caddyfile_option, set_text, unmarshal_caddyfile, zero_settings,
  parse_caddyfile,
}
use caddy_protector.Caddyfile.Block.{
  Replays, parse_caddyfile_iff, parse_caddyfile_order, lines_of-swap,
}
use caddy_protector.Base.Result.{ok}
use caddy_protector.Base.Assoc.{lookup}
use caddy_protector.Text.{contains}
use caddy_protector.Text.Unicode.{to_lower}
use caddy_protector.Http.{cookie_of, header_values}
use caddy_protector.Verify.{get_client_ip}
use caddy_protector.Filters.{
  match_request_rules, match_paths, match_queries, match_headers, path_values, decoded_query,
}
use caddy_protector.IpList.{current_ip_list, ip_list_contains}
use caddy_protector.Country.{lookup_country_code}
use caddy_protector.Handler.{is_blacklisted, has_bypass_key, is_allowlisted}
use caddy_protector.Token.{has_valid_allow_cookie}
use caddy_protector.Netip.{prefix_contains}
use caddy_protector.Handler.{Outside, answered, serve_http}
use caddy_protector.Handler.Challenged.{serve_http-IsChallenge}
use caddy_protector.Tests.Fixtures.{
  no_escapes, toy_parsers, toy_cookies, toy_net, ascii_only, toy_crypto, toy_states, bare_template,
  dev_url,
}
use caddy_protector.Tests.Site.{outside, site, page_request, start}

abbrev some_bytes : Bytes
some_bytes = 0x0f ∷ 0xa0 ∷ codes "0123456789abcdef"

abbrev drawing : Outside
drawing = record outside { random = λ n. some some_bytes }

serve_http-IsChallenge_example :
    (answer : Response) × (serve_http toy_states toy_cookies bare_template site page_request drawing
        fresh_response
      ≡ (site, answered answer))
    × IsChallenge toy_states bare_template
        (λ content. (content.state, true))
        site
        page_request
        start
        some_bytes
        fresh_response
        answer
unfolding safe_return_path_from get_original_path clean cut cookie_of header_values
    match_request_rules match_paths match_queries match_headers path_values decoded_query contains
    to_lower is_blacklisted current_ip_list ip_list_contains lookup get_client_ip
    lookup_country_code prefix_contains has_bypass_key is_allowlisted has_valid_allow_cookie
serve_http-IsChallenge_example =
    serve_http-IsChallenge toy_states toy_cookies bare_template (λ content. (content.state, true))
      site page_request drawing some_bytes fresh_response refl refl refl refl (ground arith) refl
      (λ content. refl)

abbrev asked_url : Url
asked_url = record dev_url { raw_query = codes "token=1" }

asked_url-IsEscaped : IsEscaped asked_url
asked_url-IsEscaped = record {
  scheme_clean = ground arith;
  opaque_clean = tt;
  user_clean = tt;
  path_clean = ground arith;
}

redact_url_for_log_lem_example :
    (redact_url_for_log (some asked_url) ≡ front asked_url ++ fragment_text asked_url)
    × Lacks b'?' (front asked_url)
    × ((query : Bytes) (force : Bool)
        → redact_url_for_log (some (record asked_url { raw_query = query; force_query = force }))
          ≡ redact_url_for_log (some asked_url))
redact_url_for_log_lem_example = redact_url_for_log_lem asked_url asked_url-IsEscaped

abbrev parsed_settings : Settings
parsed_settings = record zero_settings { verify_path = codes "/v"; disable_csp_header = true }

abbrev path_line : Bytes × List Bytes
path_line = (codes "verify_path", codes "/v" ∷ [])

abbrev csp_line : Bytes × List Bytes
csp_line = (codes "disable_csp_header", [])

parse_caddyfile_iff_example :
    (parse_caddyfile (path_line ∷ csp_line ∷ []) ≡ ok parsed_settings)
    ↔ Replays (path_line ∷ csp_line ∷ []) zero_settings parsed_settings
parse_caddyfile_iff_example = parse_caddyfile_iff (path_line ∷ csp_line ∷ []) parsed_settings

parse_caddyfile-test : parse_caddyfile (path_line ∷ csp_line ∷ []) ≡ ok parsed_settings
unfolding parse_caddyfile unmarshal_caddyfile parse_caddyfile_directive set_caddyfile_option
    set_text
parse_caddyfile-test = refl

parse_caddyfile_order_example :
    (parse_caddyfile (path_line ∷ csp_line ∷ []) ≡ ok parsed_settings)
    ↔ (parse_caddyfile (csp_line ∷ path_line ∷ []) ≡ ok parsed_settings)
parse_caddyfile_order_example =
    parse_caddyfile_order (path_line ∷ csp_line ∷ []) (csp_line ∷ path_line ∷ [])
      (λ name. lines_of-swap name path_line csp_line [] refl) parsed_settings
