-- ===== src/Tests/Network.antt =====
-- Outgoing requests at concrete inputs: Cap's server redirects once.
use caddy_protector.Base.{
  zero, suc, ◌+◌, ◌≤◌, ◌≡◌, ◌≢◌, refl, true, false, some, [], ◌∷◌, ◌++◌, length, all,
}
use caddy_protector.Base.Int.{pos}
use caddy_protector.Base.Assoc.{lookup, insert, remove_where}
use caddy_protector.Base.Result.{ok, err}
use caddy_protector.Text.{Bytes, codes, cut}
use caddy_protector.Text.Unicode.{to_lower, trim_space, trim_left, trim_back, equal_fold}
use caddy_protector.Text.Segments.{clean}
use caddy_protector.Base64
use caddy_protector.RateLimit.{allow_verify_attempt, attempt, spend, refill, retry_after_seconds}
use caddy_protector.ReturnPath.{safe_return_path_from}
use caddy_protector.Token.{
  create_return_state, keyed_mac, sign_value, verify_signed_value, verify_return_state,
  write_allow_cookie, parse_same_site_mode,
}
use caddy_protector.Netip.{v4}
use caddy_protector.Netip.Classes.{
  is_loopback, is_private, is_multicast, is_link_local_unicast, is_global_unicast,
}
use caddy_protector.Http.{
  set_cookie, is_token, is_token_char, fresh_response, http_error, header_get,
}
use caddy_protector.Challenge.{
  cap_site_verify_url, trim_left_slash, trim_right_slash, set_no_store_headers,
}
use caddy_protector.Outbound.{
  OutboundPolicy, max_outbound_redirects, is_public_address, check_addresses, same_origin,
  validate_literal_public_address, validate_url, validate_initial_url, validate_redirect_url,
  check_redirect, new_outbound_policy, dial_context,
}
use caddy_protector.Outbound.Client.{
  moved, final, Reply, Web, out_of_fuel, moved_request, client_do_from, client_do,
}
use caddy_protector.Outbound.Client.Fuel.{client_do_terminates}
use caddy_protector.Outbound.Client.Contacts.{contact_allowed, client_do-contacts}
use caddy_protector.Outbound.Download.{
  is_success, read_reply, get_request, fetch_url_bytes_limited, fetch_url_bytes_limited_lem,
}
use caddy_protector.Verify.{
  VerifyRequest, decode_verify_request, is_json_content_type, get_client_ip, handle_verify, admit,
}
use caddy_protector.Verify.Siteverify.{
  CapApi, IsAsked, verify_cap_token, ask_cap, post_request, at_home,
}
use caddy_protector.Handler.{Outside, answered, serve_http}
use caddy_protector.Handler.Asked.{online, serve_http-IsAsked}
use caddy_protector.Tests.Fixtures.{
  ascii_only, toy_crypto, toy_net, no_escapes, toy_urls, toy_parsers, toy_states, toy_cookies,
  bare_template, cap_url,
}
use caddy_protector.Tests.Site.{site, verify_request, outside, site_answer}

abbrev small_reply : Reply
small_reply = record { status = 200; content_length = pos 3; body = codes "abc"; readable = true }

abbrev web : Web
web = record {
  resolve = λ via host. some (v4 134744072 ∷ []);
  exchange =
      λ via address sent. some (elim via [ zero ↦ moved 307 cap_url | _ ↦ final small_reply ]);
}

abbrev list_url : Bytes
list_url = codes "https://cap.example/list"

abbrev policy : OutboundPolicy
policy = record { origin = cap_url; cap_verification = false }

-- A list is downloaded over one redirect.
fetch_url_bytes_limited_lem_example :
    (p : OutboundPolicy) × (reply : Reply) × (new_outbound_policy list_url false ≡ ok p)
    × ((client_do web p (get_request p.origin)).outcome ≡ ok reply)
    × (is_success reply.status ≡ true)
    × (reply.readable ≡ true)
    × (codes "abc" ≡ reply.body)
    × (length (codes "abc") ≤ 4)
    × (all (contact_allowed p) (client_do web p (get_request p.origin)).contacts ≡ true)
unfolding fetch_url_bytes_limited new_outbound_policy validate_initial_url validate_url
    validate_literal_public_address client_do client_do_from dial_context check_addresses
    is_public_address is_global_unicast is_loopback is_private is_multicast is_link_local_unicast
    check_redirect validate_redirect_url moved_request read_reply
fetch_url_bytes_limited_lem_example = fetch_url_bytes_limited_lem web list_url 4 (codes "abc") refl

client_do_terminates_example :
    (client_do_from web policy (suc max_outbound_redirects + 9) 0 (get_request cap_url)
      ≡ client_do web policy (get_request cap_url))
    × ((client_do web policy (get_request cap_url)).outcome ≢ err out_of_fuel)
client_do_terminates_example = client_do_terminates web policy 9 (get_request cap_url)

client_do-contacts_example :
    (all (contact_allowed policy) (client_do web policy (get_request cap_url)).contacts ≡ true)
    × (length (client_do web policy (get_request cap_url)).contacts ≤ suc max_outbound_redirects)
unfolding new_outbound_policy validate_initial_url validate_url validate_literal_public_address
client_do-contacts_example =
    client_do-contacts web list_url false policy (get_request cap_url) refl refl

abbrev api : CapApi
api = record {
  encode_payload = λ secret token. some (secret ++ token);
  decode_success = λ s. some true;
}

abbrev asking : Outside
asking = online toy_states toy_cookies bare_template web api site outside

asked_answer :
    (serve_http toy_states toy_cookies bare_template site verify_request asking fresh_response).1
    ≡ answered site_answer
unfolding create_return_state sign_value keyed_mac verify_signed_value safe_return_path_from cut
    clean Base64.encode Base64.decode Base64.values Base64.octets Base64.value_of Base64.sextets
    Base64.char_of parse_same_site_mode to_lower trim_space trim_left trim_back is_json_content_type
    header_get equal_fold decode_verify_request get_client_ip allow_verify_attempt attempt spend
    refill retry_after_seconds lookup insert remove_where serve_http handle_verify admit
    verify_return_state write_allow_cookie set_no_store_headers http_error set_cookie is_token
    is_token_char ask_cap verify_cap_token cap_site_verify_url trim_left_slash trim_right_slash
    new_outbound_policy validate_initial_url validate_url validate_literal_public_address
    same_origin client_do client_do_from dial_context check_addresses is_public_address
    is_global_unicast is_loopback is_private is_multicast is_link_local_unicast check_redirect
    validate_redirect_url moved_request
asked_answer = refl

serve_http-IsAsked_example :
    (request : VerifyRequest) × (toy_parsers.decode_request outside.body.text
      ≡ some (request, true))
    × (asked : IsAsked web api site request.token true) × (all
          (at_home asked.policy)
          (client_do web asked.policy (post_request asked.payload asked.policy.origin)).contacts
        ≡ true)
    × (length (client_do web asked.policy (post_request asked.payload asked.policy.origin)).contacts
        ≤ suc max_outbound_redirects)
serve_http-IsAsked_example =
    serve_http-IsAsked toy_states toy_cookies bare_template web api site verify_request outside
      fresh_response site_answer refl refl asked_answer refl
