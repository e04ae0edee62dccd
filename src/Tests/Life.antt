-- ===== src/Tests/Life.antt =====
-- A module that refreshes its country database, serves a request and is cleaned up.
use caddy_protector.Base.{◌≡◌, refl, true, false, some, [], length, arith}
use caddy_protector.Text.{Bytes, codes}
use caddy_protector.Http.{fresh_response}
use caddy_protector.Lifecycle.{
  World, started, clean_up, in_use, cleanup, country_tick, set_country_db, after_request, stopped,
  refresh_country, serve, Steps, here, step,
}
use caddy_protector.Lifecycle.Readers.{Different, Below, IsSound, Steps-provisioned, Steps-cleanup}
use caddy_protector.Tests.Fixtures.{
  toy_urls, ascii_only, toy_crypto, toy_net, no_escapes, toy_parsers, toy_states, toy_cookies,
  bare_template,
}
use caddy_protector.Base.{◌*◌, ◌∷◌}
use caddy_protector.Base.Int.{pos}
use caddy_protector.Base.Result.{Result, ok, err}
use caddy_protector.RateLimit.{second, reset_verify_rate_limits}
use caddy_protector.Protector.{Protector}
use caddy_protector.Base.Assoc.{lookup, insert}
use caddy_protector.Text.{contains}
use caddy_protector.Text.Unicode.{to_lower, to_upper, trim_space, trim_left, trim_back}
use caddy_protector.Netip.{masked}
use caddy_protector.IpList.{
  load_ip_list, parse_allowlist_lines, parse_allowlist_entry, add_entry, scan_lines, raw_lines,
  drop_cr, join_lines,
}
use caddy_protector.Filters.{
  compile_request_rules, compile_strings, compile_headers, compile_header, normalize_rule_value,
}
use caddy_protector.Country.{
  normalize_country_codes, normalize_from, country_code_set, is_valid_country_code,
}
use caddy_protector.Token.{derive_mac_key, parse_same_site_mode}
use caddy_protector.Config.{
  ConfigError, validate, validate_countries, validate_ip_list_config, validate_country_config,
  validate_secrets, validate_cookie, validate_remote_url, check_inline, is_loopback_host,
}
use caddy_protector.Config.Provision.{
  Opened, Sources, Loops, load_challenge_template, load_country_db, provision,
}
use caddy_protector.Tests.Setup.{sources}
use caddy_protector.Tests.Site.{site, page_request, outside}

abbrev first_world : World
first_world = record {
  bb = site;
  loops = record { allowlist_loop = false; blacklist_loop = false; country_loop = true };
  closed = [];
  opened = 0;
}

abbrev always_german : Bytes → Opened
always_german body = some (λ a. some (codes "DE"))

abbrev from_text : Bytes → Sources
from_text body = record sources { fetch_url = λ kind url. some body; open_bytes = always_german }

abbrev second_world : World
second_world = country_tick (from_text (codes "db")) first_world

abbrev third_world : World
third_world = country_tick (from_text (codes "newer db")) second_world

abbrev last_world : World
last_world =
    after_request toy_states toy_cookies bare_template page_request outside fresh_response
      third_world

first_world-IsSound : IsSound first_world
first_world-IsSound = record {
  different = tt;
  known = tt;
  complete = refl;
  limits = record { distinct = tt; small = tt; bounded = omega arith };
}

way : Steps toy_states toy_cookies bare_template first_world last_world
unfolding country_tick load_country_db set_country_db
way =
    step first_world second_world last_world
      (refresh_country first_world (from_text (codes "db")) refl)
      (step second_world third_world last_world
        (refresh_country second_world (from_text (codes "newer db")) refl)
        (step third_world last_world last_world
          (serve third_world page_request outside fresh_response) (here last_world)))

abbrev german_site : Protector
german_site = record site {
  settings = record site.settings {
    blacklist_countries = codes "de" ∷ [];
    country_url = codes "https://cap.example";
    country_refresh = pos (60 * second);
  };
}

abbrev module_of : Result ConfigError (Protector × Loops) → Protector × Loops
module_of (ok m) = m
module_of (err e) = (site, stopped)

abbrev german_module : Protector × Loops
german_module = module_of (provision (from_text (codes "db")) german_site)

abbrev german_world : World
german_world = started german_module.0 german_module.1

abbrev german_end : World
german_end = cleanup (country_tick (from_text (codes "newer db")) german_world)

Steps-provisioned_example : IsSound german_end
unfolding country_tick load_country_db set_country_db provision derive_mac_key
    load_challenge_template validate validate_countries is_valid_country_code to_upper
    validate_ip_list_config validate_country_config validate_secrets validate_cookie
    validate_remote_url check_inline is_loopback_host parse_allowlist_entry contains masked
    trim_space trim_left trim_back normalize_country_codes normalize_from country_code_set
    compile_request_rules compile_strings compile_headers compile_header normalize_rule_value
    to_lower parse_same_site_mode load_ip_list parse_allowlist_lines add_entry scan_lines raw_lines
    drop_cr join_lines lookup insert reset_verify_rate_limits
Steps-provisioned_example =
    Steps-provisioned toy_states toy_cookies bare_template (from_text (codes "db")) german_site
      german_module.0 german_module.1 german_end refl refl
      (step german_world (country_tick (from_text (codes "newer db")) german_world) german_end
        (refresh_country german_world (from_text (codes "newer db")) refl)
        (step (country_tick (from_text (codes "newer db")) german_world) german_end german_end
          (clean_up (country_tick (from_text (codes "newer db")) german_world)) (here german_end)))

Steps-cleanup_example :
    (in_use (cleanup last_world).bb.country_db ≡ [])
    × Different (cleanup last_world).closed
    × Below (cleanup last_world).opened (cleanup last_world).closed
    × (length (cleanup last_world).closed ≡ (cleanup last_world).opened)
    × ((cleanup last_world).loops ≡ stopped)
Steps-cleanup_example =
    Steps-cleanup toy_states toy_cookies bare_template first_world last_world way
      first_world-IsSound
