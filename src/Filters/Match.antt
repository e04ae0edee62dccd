-- ===== src/Filters/Match.antt =====
-- Which requests the compiled rules deny, and what is reported of them.
use caddy_protector.Base.{
  ◌≡◌, refl, inl, inr, Bool, true, false, Option, none, some, List, [], ◌∷◌, is_some, any,
  if◌then◌else◌, Bool-cases, arith,
}
use caddy_protector.Text.{Bytes, codes}
use caddy_protector.Text.Unicode.{Unicode}
use caddy_protector.Http.{Request}
use caddy_protector.Protector.{CompiledStringRule, CompiledHeaderRule, Protector}
use caddy_protector.Filters.{
  Escapes, RequestRuleMatch, path_hit, query_hit, header_hit, match_paths, match_queries,
  match_headers, match_request_rules, or_else,
}

module _ ⦃u : Unicode⦄ ⦃escapes : Escapes⦄ where
  -- The kind of the first rule that hits, the paths first and the headers last.
  abbrev pub kind_hit : Protector → Request → Option Bytes
  kind_hit bb r =
      if any (path_hit r) bb.compiled_path_rules
      then some (codes "path_prefix")
      else if any (query_hit r) bb.compiled_query_rules
      then some (codes "query_substring")
      else if any (header_hit r) bb.compiled_header_rules
      then some (codes "header_substring")
      else none

  abbrev pub kind_of : Option RequestRuleMatch → Option Bytes
  kind_of none = none
  kind_of (some m) = some m.kind

  abbrev when : Bool → Bytes → Option Bytes
  when true kind = some kind
  when false kind = none

  match_paths-kind :
      (r : Request) (rules : List CompiledStringRule)
      → kind_of (match_paths r rules) ≡ when (any (path_hit r) rules) (codes "path_prefix")
  unfolding match_paths
  match_paths-kind r [] = refl
  match_paths-kind r (rule ∷ rules) = elim (Bool-cases (path_hit r rule)) [
    | inl hit ↦ rw hit
    | inr miss ↦ rw miss (match_paths-kind r rules)
  ]

  match_queries-kind :
      (r : Request) (rules : List CompiledStringRule)
      → kind_of (match_queries r rules) ≡ when (any (query_hit r) rules) (codes "query_substring")
  unfolding match_queries
  match_queries-kind r [] = refl
  match_queries-kind r (rule ∷ rules) = elim (Bool-cases (query_hit r rule)) [
    | inl hit ↦ rw hit
    | inr miss ↦ rw miss (match_queries-kind r rules)
  ]

  match_headers-kind :
      (r : Request) (rules : List CompiledHeaderRule)
      → kind_of (match_headers r rules) ≡ when (any (header_hit r) rules) (codes "header_substring")
  unfolding match_headers
  match_headers-kind r [] = refl
  match_headers-kind r (rule ∷ rules) = elim (Bool-cases (header_hit r rule)) [
    | inl hit ↦ rw hit
    | inr miss ↦ rw miss (match_headers-kind r rules)
  ]

  kind_of-or_else :
      (m n : Option RequestRuleMatch)
      → kind_of (or_else m n) ≡ (if is_some m then kind_of m else kind_of n)
  kind_of-or_else none n = refl
  kind_of-or_else (some a) n = refl

  -- A request is denied exactly if a compiled rule hits, and the report names the kind of rule,
  -- where a path rule goes before a query rule and that before a header rule.
  pub match_request_rules-kind :
      (bb : Protector) (r : Request) → kind_of (match_request_rules bb r) ≡ kind_hit bb r
  unfolding match_request_rules
  match_request_rules-kind bb r = ground (
    arith,
    match_paths-kind r bb.compiled_path_rules,
    match_queries-kind r bb.compiled_query_rules,
    match_headers-kind r bb.compiled_header_rules,
  )
