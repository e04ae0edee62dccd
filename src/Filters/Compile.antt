-- ===== src/Filters/Compile.antt =====
-- What the configuration's rules mean once they are compiled.
use caddy_protector.Base.{
  ◌≡◌, refl, sym, ap, ◌∙◌, inl, inr, Bool, false, not, ◌&&◌, ◌||◌, Option, none, some, List, [],
  ◌∷◌, is_nil, is_some, any, All, Bool-cases, arith,
}
use caddy_protector.Base.Result.{ok, >>=-eq-ok, ok-injective}
use caddy_protector.Text.{Bytes, codes, has_prefix, contains}
use caddy_protector.Text.Unicode.{Unicode, to_lower, to_lower-is_nil, trim_space}
use caddy_protector.Http.{Request, header_values}
use caddy_protector.Protector.{
  HeaderSubstringRule, CompiledStringRule, CompiledHeaderRule, Settings, Protector,
}
use caddy_protector.Filters.{
  config_rule_source, with_rules, RequestRuleMatch, Escapes, CompiledRules, path_hit, query_hit,
  header_hit, path_values, decoded_query, match_request_rules, normalize_rule_value,
  compile_strings, compile_header, compile_headers, compile_request_rules,
}
use caddy_protector.Filters.Match.{kind_of, kind_hit, match_request_rules-kind}

module _ ⦃u : Unicode⦄ where
  normalize-eq-ok :
      (kind raw : Bytes) (value : Bytes)
      → normalize_rule_value kind raw ≡ ok value
      → (value ≡ to_lower (trim_space raw)) × (is_nil value ≡ false)
  unfolding normalize_rule_value
  normalize-eq-ok kind raw value h = elim (Bool-cases (is_nil (trim_space raw))) [
    | inl empty ↦ cc (rw empty at h)
    | inr full ↦
        let e : to_lower (trim_space raw) ≡ value = ground arith in
        rw (← e) (refl, to_lower-is_nil (trim_space raw) full)
  ]

  abbrev IsFull : CompiledStringRule → Type 0
  IsFull rule = is_nil rule.value ≡ false

  compile_strings-any :
      (kind : Bytes) (raws : List Bytes) (rules : List CompiledStringRule) (hits : Bytes → Bool)
      → compile_strings kind raws ≡ ok rules
      → (any (λ (rule : CompiledStringRule). hits rule.value) rules
          ≡ any (λ raw. hits (to_lower (trim_space raw))) raws)
        × All IsFull rules
  unfolding compile_strings
  compile_strings-any kind [] rules hits h =
      let e : [] ≡ rules = ground arith in rw (← e) (refl, tt)
  compile_strings-any kind (raw ∷ raws) rules hits h =
      let (value, normal, h1) = >>=-eq-ok (normalize_rule_value kind raw) _ h in
      let (rest, compiled, h2) = >>=-eq-ok (compile_strings kind raws) _ h1 in
      let (equal, full) = normalize-eq-ok kind raw value normal in
      let (hit, all_full) = compile_strings-any kind raws rest hits compiled in
      let made : record { value = value; source = config_rule_source } ∷ rest ≡ rules =
        ground arith in
      rw (← made) ((rw (hit, equal)), (full, all_full))

module _ ⦃u : Unicode⦄ ⦃escapes : Escapes⦄ where
  abbrev HeaderIsFull : CompiledHeaderRule → Type 0
  HeaderIsFull rule = is_nil rule.needle ≡ false

  -- A header rule of the configuration hits.
  abbrev pub header_denies : Request → HeaderSubstringRule → Bool
  header_denies r rule =
      any (λ value. contains (to_lower value) (to_lower (trim_space rule.needle)))
        (header_values (escapes.canonical_header_key (trim_space rule.name)) r.headers)

  compile_header-hit :
      (r : Request) (rule : HeaderSubstringRule) (done : CompiledHeaderRule × HeaderSubstringRule)
      → compile_header rule ≡ ok done
      → (header_hit r done.0 ≡ header_denies r rule) × HeaderIsFull done.0
  unfolding compile_header
  compile_header-hit r rule done h =
      elim (Bool-cases (is_nil (escapes.canonical_header_key (trim_space rule.name)))) [
        | inl empty ↦ cc (rw empty at h)
        | inr named ↦
            let (needle, normal, h1) =
              >>=-eq-ok (normalize_rule_value (codes "deny_header_substring") rule.needle) _
                (rw named at h) in
            let (equal, full) =
              normalize-eq-ok (codes "deny_header_substring") rule.needle needle normal in
            let made = ok-injective h1 in rw (← made) (rw equal, full)
      ]

  compile_headers-any :
      (r : Request) (raws : List HeaderSubstringRule)
      (done : List CompiledHeaderRule × List HeaderSubstringRule)
      → compile_headers raws ≡ ok done
      → (any (header_hit r) done.0 ≡ any (header_denies r) raws) × All HeaderIsFull done.0
  unfolding compile_headers
  compile_headers-any r [] done h = let made = ok-injective h in rw (← made) (refl, tt)
  compile_headers-any r (raw ∷ raws) done h =
      let (first, one, h1) = >>=-eq-ok (compile_header raw) _ h in
      let (rest, more, h2) = >>=-eq-ok (compile_headers raws) _ h1 in
      let (hit, full) = compile_header-hit r raw first one in
      let (hits, all_full) = compile_headers-any r raws rest more in
      let made = ok-injective h2 in rw (← made) (rw (hit, hits), (full, all_full))

  -- A rule of the configuration denies the request: a prefix of its path, escaped or decoded, a part
  -- of its query, raw or decoded, or a part of a header's value, all in lower case.
  abbrev pub config_denies : Settings → Request → Bool
  config_denies s r =
      any (λ raw. any (λ value. has_prefix value (to_lower (trim_space raw))) (path_values r))
        s.deny_path_prefixes
      || any
          (λ raw.
            contains (to_lower r.raw_query) (to_lower (trim_space raw))
            || (not (is_nil (decoded_query r))
                && contains (decoded_query r) (to_lower (trim_space raw))))
          s.deny_query_substrings
      || any (header_denies r) s.deny_header_substrings

  -- No rule is empty: an empty one would be found in every request.
  abbrev pub NoneEmpty : CompiledRules → Type 0
  NoneEmpty rules =
      All IsFull rules.paths × All IsFull rules.queries × All HeaderIsFull rules.headers

  compile_parts :
      (s : Settings) (rules : CompiledRules) (r : Request)
      → compile_request_rules s ≡ ok rules
      → ((any (path_hit r) rules.paths
            || any (query_hit r) rules.queries
            || any (header_hit r) rules.headers)
          ≡ config_denies s r)
        × NoneEmpty rules
  unfolding compile_request_rules
  compile_parts s rules r h =
      let (paths, e1, h1) =
        >>=-eq-ok (compile_strings (codes "deny_path_prefix") s.deny_path_prefixes) _ h in
      let (queries, e2, h2) =
        >>=-eq-ok (compile_strings (codes "deny_query_substring") s.deny_query_substrings) _ h1 in
      let (headers, e3, h3) = >>=-eq-ok (compile_headers s.deny_header_substrings) _ h2 in
      let (p, full_p) =
        compile_strings-any (codes "deny_path_prefix") s.deny_path_prefixes paths
          (λ value. any (λ v. has_prefix v value) (path_values r)) e1 in
      let (q, full_q) =
        compile_strings-any (codes "deny_query_substring") s.deny_query_substrings queries
          (λ value.
            contains (to_lower r.raw_query) value
            || (not (is_nil (decoded_query r)) && contains (decoded_query r) value))
          e2 in
      let (k, full_k) = compile_headers-any r s.deny_header_substrings headers e3 in
      let made = ok-injective h3 in rw (← made) (rw (p, q, k), (full_p, full_q, full_k))

  is_some-kind_of : (m : Option RequestRuleMatch) → is_some (kind_of m) ≡ is_some m
  is_some-kind_of none = refl
  is_some-kind_of (some m) = refl

  is_some-kind_hit :
      (bb : Protector) (r : Request)
      → is_some (kind_hit bb r) ≡ (
          any (path_hit r) bb.compiled_path_rules
          || any (query_hit r) bb.compiled_query_rules
          || any (header_hit r) bb.compiled_header_rules)
  is_some-kind_hit bb r = ground arith

  -- If the rules compile, a request is denied exactly if a rule of the configuration denies it, and
  -- no compiled rule is empty.
  pub match-compile :
      (s : Settings) (rules : CompiledRules) (bb : Protector) (r : Request)
      → compile_request_rules s ≡ ok rules
      → (is_some (match_request_rules (with_rules bb rules) r) ≡ config_denies s r)
        × NoneEmpty rules
  match-compile s rules bb r h =
      let (denies, full) = compile_parts s rules r h in
      (
        sym (is_some-kind_of (match_request_rules (with_rules bb rules) r))
            ∙ ap is_some (match_request_rules-kind (with_rules bb rules) r)
            ∙ is_some-kind_hit (with_rules bb rules) r
            ∙ denies,
        full,
      )
