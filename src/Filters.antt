-- ===== src/Filters.antt =====
-- filters.go: the rules that deny a request by its path, its query or a header. url.PathUnescape,
-- url.QueryUnescape and the canonical form of a header name are parameters.
pub mod Match
pub mod Compile
use caddy_protector.Base.{
  Bool, not, ◌&&◌, ◌||◌, Option, none, some, List, [], ◌∷◌, if◌then◌else◌, is_nil, any,
}
use caddy_protector.Base.Result.{Result, ok, err, ◌>>=◌}
use caddy_protector.Text.{Bytes, codes, same, has_prefix, contains}
use caddy_protector.Text.Unicode.{Unicode, to_lower, trim_space}
use caddy_protector.Http.{Request, header_values}
use caddy_protector.Protector.{
  HeaderSubstringRule, CompiledStringRule, CompiledHeaderRule, Settings, Protector,
}

pub record Escapes : Type 0 where
  pub path_unescape : Bytes → Option Bytes
  pub query_unescape : Bytes → Option Bytes
  pub canonical_header_key : Bytes → Bytes

-- The configuration field that is empty.
pub data RuleError : Type 0 where
  empty_value : Bytes → RuleError
  empty_header_name : RuleError

-- configRuleSource
abbrev pub config_rule_source : Bytes
config_rule_source = codes "config"

-- requestRuleMatch
pub record RequestRuleMatch : Type 0 where
  pub source : Bytes
  pub kind : Bytes
  pub header_name : Bytes

pub record CompiledRules : Type 0 where
  pub paths : List CompiledStringRule
  pub queries : List CompiledStringRule
  pub headers : List CompiledHeaderRule
  pub normalized : List HeaderSubstringRule

module _ ⦃u : Unicode⦄ where
  unfoldable pub normalize_rule_value : Bytes → Bytes → Result RuleError Bytes
  normalize_rule_value kind raw =
      let value = trim_space raw in
      if is_nil value then err (empty_value kind) else ok (to_lower value)

  unfoldable pub compile_strings : Bytes → List Bytes → Result RuleError (List CompiledStringRule)
  compile_strings kind [] = ok []
  compile_strings kind (raw ∷ raws) = do
    value ← normalize_rule_value kind raw
    rules ← compile_strings kind raws
    ok (record { value = value; source = config_rule_source } ∷ rules)

  module _ ⦃escapes : Escapes⦄ where
    -- One round of the loop over the header rules: the rule, and the entry of the configuration.
    unfoldable pub compile_header :
        HeaderSubstringRule → Result RuleError (CompiledHeaderRule × HeaderSubstringRule)
    compile_header rule =
        let name = escapes.canonical_header_key (trim_space rule.name) in
        if is_nil name then err empty_header_name else (do
          needle ← normalize_rule_value (codes "deny_header_substring") rule.needle
          ok (
            record { name = name; needle = needle; source = config_rule_source },
            record { name = name; needle = trim_space rule.needle },
          ))

    unfoldable pub compile_headers :
        List HeaderSubstringRule
        → Result RuleError (List CompiledHeaderRule × List HeaderSubstringRule)
    compile_headers [] = ok ([], [])
    compile_headers (rule ∷ rules) = do
      first ← compile_header rule
      rest ← compile_headers rules
      ok (first.0 ∷ rest.0, first.1 ∷ rest.1)

    -- compileRequestRules: the rules, and the header rules as the configuration has them then.
    unfoldable pub compile_request_rules : Settings → Result RuleError CompiledRules
    compile_request_rules s = do
      paths ← compile_strings (codes "deny_path_prefix") s.deny_path_prefixes
      queries ← compile_strings (codes "deny_query_substring") s.deny_query_substrings
      headers ← compile_headers s.deny_header_substrings
      ok (record { paths = paths; queries = queries; headers = headers.0; normalized = headers.1 })

    -- The assignments at its end.
    abbrev pub with_rules : Protector → CompiledRules → Protector
    with_rules bb rules = record bb {
      settings = record bb.settings { deny_header_substrings = rules.normalized };
      compiled_path_rules = rules.paths;
      compiled_query_rules = rules.queries;
      compiled_header_rules = rules.headers;
    }

    abbrev pub decoded_also : Bytes → Option Bytes → List Bytes
    decoded_also value none = []
    decoded_also value (some text) = if same text value then [] else to_lower text ∷ []

    abbrev pub path_values_of : Bytes → List Bytes
    path_values_of value = to_lower value ∷ decoded_also value (escapes.path_unescape value)

    -- The path as it is matched: escaped, and decoded if that differs.
    unfoldable pub path_values : Request → List Bytes
    path_values r = path_values_of (if is_nil r.escaped_path then r.path else r.escaped_path)

    abbrev lowered : Option Bytes → Bytes
    lowered none = []
    lowered (some text) = to_lower text

    unfoldable pub decoded_query : Request → Bytes
    decoded_query r =
        if is_nil r.raw_query then [] else lowered (escapes.query_unescape r.raw_query)

    abbrev pub path_hit : Request → CompiledStringRule → Bool
    path_hit r rule = any (λ value. has_prefix value rule.value) (path_values r)

    abbrev pub query_hit : Request → CompiledStringRule → Bool
    query_hit r rule =
        contains (to_lower r.raw_query) rule.value
        || (not (is_nil (decoded_query r)) && contains (decoded_query r) rule.value)

    abbrev pub header_hit : Request → CompiledHeaderRule → Bool
    header_hit r rule =
        any (λ value. contains (to_lower value) rule.needle) (header_values rule.name r.headers)

    unfoldable pub match_paths : Request → List CompiledStringRule → Option RequestRuleMatch
    match_paths r [] = none
    match_paths r (rule ∷ rules) =
        if path_hit r rule
        then some (record { source = rule.source; kind = codes "path_prefix"; header_name = [] })
        else match_paths r rules

    unfoldable pub match_queries : Request → List CompiledStringRule → Option RequestRuleMatch
    match_queries r [] = none
    match_queries r (rule ∷ rules) =
        if query_hit r rule
        then some
            (record { source = rule.source; kind = codes "query_substring"; header_name = [] })
        else match_queries r rules

    unfoldable pub match_headers : Request → List CompiledHeaderRule → Option RequestRuleMatch
    match_headers r [] = none
    match_headers r (rule ∷ rules) =
        if header_hit r rule
        then some (record {
          source = rule.source;
          kind = codes "header_substring";
          header_name = rule.name;
        })
        else match_headers r rules

    abbrev pub or_else : Option RequestRuleMatch → Option RequestRuleMatch → Option RequestRuleMatch
    or_else none second = second
    or_else (some found) second = some found

    unfoldable pub match_request_rules : Protector → Request → Option RequestRuleMatch
    match_request_rules bb r = or_else (match_paths r bb.compiled_path_rules) (
        or_else (match_queries r bb.compiled_query_rules)
          (match_headers r bb.compiled_header_rules))
