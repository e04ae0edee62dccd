-- ===== src/Tests/Setup.antt =====
-- The configuration and the outgoing requests at concrete inputs.
use caddy_protector.Base.{
  ℕ, ◌+◌, ◌*◌, ◌^◌, ◌<◌, ◌≤◌, ◌≡◌, ◌↔◌, refl, true, false, none, some, [], ◌∷◌,
}
use caddy_protector.Base.Assoc.{lookup, insert}
use caddy_protector.Base.Int.{pos, negsuc}
use caddy_protector.Base.Result.{ok, is_ok}
use caddy_protector.Text.{codes, contains}
use caddy_protector.Text.Unicode.{to_lower, trim_space, trim_left, trim_back}
use caddy_protector.Netip.{v6, masked}
use caddy_protector.Protector.{Protector}
use caddy_protector.IpList.{
  load_ip_list, parse_allowlist_lines, parse_allowlist_entry, add_entry, scan_lines, raw_lines,
  drop_cr, join_lines, ip_list_contains,
}
use caddy_protector.IpList.Mapped.{ip_list_contains-v6}
use caddy_protector.Filters.{
  compile_request_rules, compile_strings, compile_headers, compile_header, normalize_rule_value,
}
use caddy_protector.Country.{normalize_country_codes, normalize_from, country_code_set}
use caddy_protector.Token.{parse_same_site_mode}
use caddy_protector.RateLimit.{reset_verify_rate_limits}
use caddy_protector.Config.{
  validate, validate_countries, validate_ip_list_config, validate_country_config, validate_secrets,
  validate_cookie, validate_remote_url, check_inline, is_loopback_host, with_keys,
}
use caddy_protector.Config.Provision.{Sources, Loops, load_challenge_template, provision}
use caddy_protector.Config.Ready.{IsReady, validate-IsReady}
use caddy_protector.Config.Served.{IsServed, provision-IsServed}
use caddy_protector.Outbound.{OutboundPolicy, validate_url}
use caddy_protector.Outbound.Reach.{reachable, validate_url-is_ok}
use caddy_protector.Caddyfile.{minute, digits_from, atoi, trim_m, parse_minutes_duration}
use caddy_protector.Caddyfile.Minutes.{max_minutes, parse_minutes_duration_lem}
use caddy_protector.Tests.Fixtures.{
  ascii_only, toy_crypto, toy_net, no_escapes, toy_urls, cap_url, dev_url,
}
use caddy_protector.Tests.Site.{site, blocked}

abbrev checked_site : Protector
checked_site = with_keys site

validate-IsReady_example : IsReady checked_site
unfolding validate validate_countries validate_ip_list_config validate_country_config
    validate_secrets validate_cookie validate_remote_url check_inline is_loopback_host
    parse_allowlist_entry contains masked trim_space trim_left trim_back normalize_country_codes
    normalize_from country_code_set compile_request_rules compile_strings compile_headers
    compile_header normalize_rule_value to_lower parse_same_site_mode
validate-IsReady_example = validate-IsReady site checked_site refl

abbrev pub sources : Sources
sources = record {
  read_file = λ name. none;
  fetch_url = λ kind url. none;
  default_parses = true;
  file_parses = λ path. false;
  open_bytes = λ body. none;
}

abbrev pub served_site : Protector
served_site = record checked_site {
  allowlist = some (record {
    exact_ips = [];
    prefixes = [];
    sources = codes "whitelist:inline" ∷ [];
    entries = 0;
  });
  blacklist = some blocked;
  verify_rate_limits = some [];
}

abbrev pub no_loops : Loops
no_loops = record { allowlist_loop = false; blacklist_loop = false; country_loop = false }

provision-IsServed_example : IsServed sources served_site
unfolding provision load_challenge_template validate validate_countries validate_ip_list_config
    validate_country_config validate_secrets validate_cookie validate_remote_url check_inline
    is_loopback_host parse_allowlist_entry contains masked trim_space trim_left trim_back
    normalize_country_codes normalize_from country_code_set compile_request_rules compile_strings
    compile_headers compile_header normalize_rule_value to_lower parse_same_site_mode load_ip_list
    parse_allowlist_lines add_entry scan_lines raw_lines drop_cr join_lines lookup insert
    reset_verify_rate_limits
provision-IsServed_example = provision-IsServed sources site served_site no_loops refl

abbrev cap_policy : OutboundPolicy
cap_policy = record { origin = cap_url; cap_verification = true }

validate_url-is_ok_example :
    is_ok (validate_url cap_policy dev_url false) ≡ reachable cap_policy dev_url
validate_url-is_ok_example = validate_url-is_ok cap_policy dev_url false

parse_minutes_duration_lem_example :
    (minutes : ℕ) × (atoi (trim_m (codes "120m")) ≡ some minutes)
    × (0 < minutes)
    × ((pos (120 * minute) ≡ pos (minutes * minute)) ↔ (minutes ≤ max_minutes))
unfolding parse_minutes_duration atoi trim_m digits_from
parse_minutes_duration_lem_example =
    parse_minutes_duration_lem (codes "120m") (pos (120 * minute)) refl

-- 585 years wrap around to 26 seconds, and one minute above the most is before zero.
parse_minutes_wraps :
    (parse_minutes_duration (codes "307445735") ≡ ok (pos 26_290_448_384))
    × (parse_minutes_duration (codes "153722868") ≡ ok (negsuc 9_223_371_993_709_551_615))
unfolding parse_minutes_duration atoi trim_m digits_from
parse_minutes_wraps = (refl, refl)

ip_list_contains-v6_example :
    ip_list_contains blocked (v6 (0xffff * 2 ^ 32 + 3325256711) []) ≡ false
ip_list_contains-v6_example = ip_list_contains-v6 blocked (0xffff * 2 ^ 32 + 3325256711) [] refl
