-- ===== src/Tests/Lists.antt =====
-- A module that refreshes the allowlist of a file, at a concrete input.
use caddy_protector.Base.{◌*◌, refl, true, false, Option, none, some, [], ◌∷◌}
use caddy_protector.Base.Int.{pos}
use caddy_protector.Base.Assoc.{lookup, insert}
use caddy_protector.Text.{Bytes, codes, contains}
use caddy_protector.Text.Unicode.{to_lower, trim_space, trim_left, trim_back}
use caddy_protector.Netip.{masked}
use caddy_protector.Protector.{Protector}
use caddy_protector.IpList.{
  load_ip_list, parse_allowlist_lines, parse_allowlist_entry, add_entry, scan_lines, raw_lines,
  drop_cr, join_lines,
}
use caddy_protector.Filters.{
  compile_request_rules, compile_strings, compile_headers, compile_header, normalize_rule_value,
}
use caddy_protector.Country.{normalize_country_codes, normalize_from, country_code_set}
use caddy_protector.Token.{derive_mac_key, parse_same_site_mode}
use caddy_protector.RateLimit.{second, reset_verify_rate_limits}
use caddy_protector.Config.{
  validate, validate_countries, validate_ip_list_config, validate_country_config, validate_secrets,
  validate_cookie, validate_remote_url, check_inline, is_loopback_host, with_keys,
}
use caddy_protector.Config.Provision.{Sources, load_challenge_template, provision}
use caddy_protector.Tests.Fixtures.{
  ascii_only, toy_crypto, toy_net, no_escapes, toy_urls, toy_parsers, toy_states, toy_cookies,
  bare_template,
}
use caddy_protector.Tests.Site.{site, blocked}
use caddy_protector.Tests.Setup.{sources}
use caddy_protector.Lifecycle.{World, allowlist_tick, refresh_allowlist, Steps, here, step}
use caddy_protector.Lifecycle.Lists.{
  IsCurrent, allowed_by, blocked_by, last_allowed, last_blocked, Steps-lists,
}

abbrev file_site : Protector
file_site = record site {
  settings = record site.settings {
    whitelist_file = codes "hosts";
    whitelist_refresh = pos (60 * second);
  };
}

abbrev with_file : Option Bytes → Sources
with_file text = record sources { read_file = λ name. text }

abbrev first_world : World
first_world = record {
  bb = record (with_keys file_site) {
    allowlist = some (record {
      exact_ips = [];
      prefixes = [];
      sources = codes "whitelist:inline" ∷ codes "whitelist:file:hosts" ∷ [];
      entries = 0;
    });
    blacklist = some blocked;
    verify_rate_limits = some [];
  };
  loops = record { allowlist_loop = true; blacklist_loop = false; country_loop = false };
  closed = [];
  opened = 0;
}

abbrev second_world : World
second_world = allowlist_tick (with_file (some (codes "192.0.2.7"))) first_world

abbrev third_world : World
third_world = allowlist_tick (with_file none) second_world

abbrev refreshes : Steps toy_states toy_cookies bare_template first_world third_world
unfolding allowlist_tick load_ip_list parse_allowlist_lines parse_allowlist_entry add_entry
    scan_lines raw_lines drop_cr join_lines contains masked trim_space trim_left trim_back lookup
    insert
refreshes =
    step first_world second_world third_world
      (refresh_allowlist first_world (with_file (some (codes "192.0.2.7"))) refl)
      (step second_world third_world third_world
        (refresh_allowlist second_world (with_file none) refl) (here third_world))

Steps-lists_example :
    IsCurrent (with_file (some (codes "192.0.2.7"))) (with_file (some [])) third_world.bb
unfolding allowlist_tick load_ip_list parse_allowlist_lines parse_allowlist_entry add_entry
    scan_lines raw_lines drop_cr join_lines contains masked trim_space trim_left trim_back lookup
    insert provision derive_mac_key load_challenge_template validate validate_countries
    validate_ip_list_config validate_country_config validate_secrets validate_cookie
    validate_remote_url check_inline is_loopback_host normalize_country_codes normalize_from
    country_code_set compile_request_rules compile_strings compile_headers compile_header
    normalize_rule_value to_lower parse_same_site_mode reset_verify_rate_limits last_allowed
    last_blocked allowed_by blocked_by
Steps-lists_example =
    Steps-lists toy_states toy_cookies bare_template (with_file (some [])) file_site first_world
      third_world refl refreshes
