-- ===== src/Tests/Paths.antt =====
-- Return paths, lists of addresses, rules and country codes at concrete inputs.
use caddy_protector.Base.Result.{ok}
use caddy_protector.Base.{◌≡◌, refl, true, Option, none, some, [], ◌∷◌, is_some, any, all}
use caddy_protector.Base.Assoc.{lookup, insert}
use caddy_protector.Text.{Bytes, codes, same, cut, contains, bytes_Eq}
use caddy_protector.Text.Unicode.{to_lower, to_upper, trim_space, trim_left, trim_back}
use caddy_protector.ReturnPath.{safe_return_path_from}
use caddy_protector.ReturnPath.Safety.{
  IsLocal, safe_return_path_from_idempotent, safe_return_path_from-IsLocal,
  get_original_path-IsLocal,
}
use caddy_protector.ReturnPath.{get_original_path}
use caddy_protector.Netip.{masked}
use caddy_protector.Protector.{IpAllowlist}
use caddy_protector.IpList.{
  load_ip_list, parse_allowlist_lines, parse_allowlist_entry, add_entry, scan_lines, raw_lines,
  drop_cr, join_lines,
}
use caddy_protector.Filters.{
  CompiledRules, with_rules, compile_request_rules, compile_strings, compile_headers,
  compile_header, normalize_rule_value, match_request_rules,
}
use caddy_protector.Filters.Compile.{config_denies, NoneEmpty, match-compile}
use caddy_protector.Country.{
  is_valid_country_code, country_code_set, normalize_country_codes, normalize_from,
}
use caddy_protector.Country.Codes.{code_of, distinct, normalize_country_codes_lem}
use caddy_protector.Tests.Fixtures.{ascii_only, toy_net, no_escapes, home, network}
use caddy_protector.Tests.Site.{settings, site, admin_request}

safe_return_path_from_idempotent_example :
    safe_return_path_from (safe_return_path_from (codes "/a/../b/?q"))
    ≡ safe_return_path_from (codes "/a/../b/?q")
safe_return_path_from_idempotent_example = safe_return_path_from_idempotent (codes "/a/../b/?q")

safe_return_path_from-IsLocal_example : IsLocal (safe_return_path_from (codes "//evil.example"))
safe_return_path_from-IsLocal_example = safe_return_path_from-IsLocal (codes "//evil.example")

get_original_path-IsLocal_example : IsLocal (get_original_path (some (codes "/a//b")) (codes "/c"))
get_original_path-IsLocal_example = get_original_path-IsLocal (some (codes "/a//b")) (codes "/c")

abbrev no_file : Bytes → Option Bytes
no_file name = none

abbrev page_text : Bytes → Bytes → Option Bytes
page_text kind url = some (codes "192.0.2.7 # home\n\n198.51.100.0/24\r\n192.0.2.7")

abbrev loaded : IpAllowlist
loaded = record {
  exact_ips = (home, tt) ∷ [];
  prefixes = network ∷ [];
  sources = codes "blacklist:inline" ∷ codes "blacklist:url:u" ∷ [];
  entries = 2;
}

loads :
    load_ip_list no_file page_text (codes "blacklist") (codes "198.51.100.0/24" ∷ []) [] (codes "u")
    ≡ ok loaded
unfolding load_ip_list parse_allowlist_lines parse_allowlist_entry add_entry scan_lines raw_lines
    drop_cr join_lines trim_space trim_left trim_back contains cut masked lookup insert
loads = refl

abbrev rules : CompiledRules
rules = record {
  paths = site.compiled_path_rules;
  queries = site.compiled_query_rules;
  headers = site.compiled_header_rules;
  normalized = settings.deny_header_substrings;
}

match-compile_example :
    (is_some (match_request_rules (with_rules site rules) admin_request)
      ≡ config_denies settings admin_request)
    × NoneEmpty rules
unfolding compile_request_rules compile_strings compile_headers compile_header normalize_rule_value
    to_lower trim_space trim_left trim_back
match-compile_example = match-compile settings rules site admin_request refl

normalize_country_codes_lem_example :
    (all is_valid_country_code (codes "DE" ∷ codes "AT" ∷ []) ≡ true)
    × (distinct (codes "DE" ∷ codes "AT" ∷ []) ≡ true)
    × ((code : Bytes)
        → is_some (lookup code (country_code_set (codes "DE" ∷ codes "AT" ∷ [])))
          ≡ any (λ raw. same (code_of raw) code) (codes "de" ∷ codes " AT " ∷ codes "De" ∷ []))
unfolding normalize_country_codes normalize_from to_upper trim_space trim_left trim_back
    is_valid_country_code lookup insert
normalize_country_codes_lem_example =
    normalize_country_codes_lem (codes "whitelist_country")
      (codes "de" ∷ codes " AT " ∷ codes "De" ∷ []) (codes "DE" ∷ codes "AT" ∷ []) refl
