-- ===== src/IpList/Count.antt =====
-- The number of entries that a list reports.
use caddy_protector.Base.{
  ℕ, suc, ◌+◌, ◌≡◌, refl, ap, inl, inr, Option, none, some, List, [], ◌∷◌, ◌++◌, map, leb, is_nil,
  length, arith, Bool-cases, Option-cases,
}
use caddy_protector.Base.Assoc.{length-insert, grown}
use caddy_protector.Base.Result.{ok, >>=-eq-ok}
use caddy_protector.Text.{Bytes, codes, bytes_Eq}
use caddy_protector.Text.Unicode.{trim_space}
use caddy_protector.Netip.{addr_Eq, Prefix}
use caddy_protector.Protector.{IpAllowlist}
use caddy_protector.IpList.{
  AddressParser, ListError, AllowlistEntry, AllowlistParseResult, raw_lines, drop_cr, max_token,
  parse_allowlist_entry, add_entry, scan_lines, parse_allowlist_lines, no_entries, finish_list,
  add_source, join_lines, load_ip_list, unreadable_file, unreadable_url, count_new,
}

-- Each address and each prefix is counted once.
abbrev IsCounted : AllowlistParseResult → Type 0
IsCounted result = result.entries ≡ length result.exact_ips + length result.prefixes

count_new-grown {ℓ} : {V : Type ℓ} (o : Option V) (n : ℕ) → count_new o n ≡ grown o n
count_new-grown none n = omega arith
count_new-grown (some v) n = refl

length-map : (m : List (Bytes × Prefix)) → length (map (λ b. b.1) m) ≡ length m
length-map [] = refl
length-map (b ∷ m) = ap suc (length-map m)

grown-add {ℓ} : {V : Type ℓ} (o : Option V) (n k : ℕ) → grown o (n + k) ≡ grown o n + k
grown-add none n k = omega arith
grown-add (some v) n k = refl

module _ ⦃net : AddressParser⦄ where
  add_entry-IsCounted :
      (result : AllowlistParseResult) (e : Option AllowlistEntry)
      → IsCounted result
      → IsCounted (add_entry result e)
  unfolding add_entry
  add_entry-IsCounted result none h = h
  add_entry-IsCounted result (some e) h = elim (Option-cases e.prefix) [
    | inr (p, given) ↦
        rw given (ground (arith, length-insert (net.prefix_string p) p result.prefixes))
    | inl absent ↦ elim (Option-cases e.addr) [
      | inr (a, given) ↦ rw (absent, given) (ground (arith, length-insert a tt result.exact_ips))
      | inl nothing ↦ rw (absent, nothing) h
    ]
  ]

  scan_lines-IsCounted :
      (source : Bytes) (line_no : ℕ) (ls : List Bytes) (result done : AllowlistParseResult)
      → IsCounted result
      → scan_lines source line_no ls result ≡ ok done
      → IsCounted done
  unfolding scan_lines
  scan_lines-IsCounted source line_no [] result done counted h =
      let e : result ≡ done = ground arith in rw (← e) counted
  scan_lines-IsCounted source line_no (l ∷ ls) result done counted h =
      elim (Bool-cases (leb max_token (length l))) [
        | inl long ↦ cc (rw long at h)
        | inr short ↦
            let (e, _, rest) =
              >>=-eq-ok (parse_allowlist_entry source (line_no + 1) (drop_cr l))
                (λ entry. scan_lines source (line_no + 1) ls (add_entry result entry))
                (rw short at h) in
            scan_lines-IsCounted source (line_no + 1) ls (add_entry result e) done
              (add_entry-IsCounted result e counted) rest
      ]

  parse_allowlist_lines-IsCounted :
      (result : AllowlistParseResult) (source content : Bytes) (done : AllowlistParseResult)
      → IsCounted result
      → parse_allowlist_lines result source content ≡ ok done
      → IsCounted done
  unfolding parse_allowlist_lines
  parse_allowlist_lines-IsCounted result source content done counted h =
      let named : AllowlistParseResult = record result {
        sources = result.sources ++ source ∷ [];
      } in
      elim (Bool-cases (is_nil (trim_space content))) [
        | inl blank ↦ let e : named ≡ done = ground arith in rw (← e) counted
        | inr full ↦
            scan_lines-IsCounted source 0 (raw_lines content) named done counted (rw full at h)
      ]

  add_source-IsCounted :
      (location label : Bytes) (content : Option Bytes) (e : ListError)
      (result done : AllowlistParseResult)
      → IsCounted result
      → add_source location label content e result ≡ ok done
      → IsCounted done
  add_source-IsCounted [] label content e result done counted h =
      let same_result : result ≡ done = ground arith in rw (← same_result) counted
  add_source-IsCounted (c ∷ s) label none e result done counted h = cc
  add_source-IsCounted (c ∷ s) label (some text) e result done counted h =
      parse_allowlist_lines-IsCounted result (label ++ c ∷ s) text done counted h

  -- The number of entries that a loaded list reports is that of its addresses and its prefixes,
  -- each counted once.
  pub load_ip_list-entries :
      (read_file : Bytes → Option Bytes) (fetch_url : Bytes → Bytes → Option Bytes) (kind : Bytes)
      (inline : List Bytes) (file_path raw_url : Bytes) (ip_list : IpAllowlist)
      → load_ip_list read_file fetch_url kind inline file_path raw_url ≡ ok ip_list
      → ip_list.entries ≡ length ip_list.exact_ips + length ip_list.prefixes
  unfolding load_ip_list
  load_ip_list-entries read_file fetch_url kind inline file_path raw_url ip_list h =
      let (first, e1, rest1) =
        >>=-eq-ok (parse_allowlist_lines no_entries (kind ++ codes ":inline") (join_lines inline)) _
          h in
      let (second, e2, rest2) =
        >>=-eq-ok
          (add_source file_path (kind ++ codes ":file:") (read_file file_path) unreadable_file
            first)
          _ rest1 in
      let (third, e3, _) =
        >>=-eq-ok
          (add_source raw_url (kind ++ codes ":url:") (fetch_url kind raw_url) unreadable_url
            second)
          _ rest2 in
      let counted1 =
        parse_allowlist_lines-IsCounted no_entries (kind ++ codes ":inline") (join_lines inline)
          first (omega arith) e1 in
      let counted2 =
        add_source-IsCounted file_path (kind ++ codes ":file:") (read_file file_path)
          unreadable_file first second counted1 e2 in
      let counted3 =
        add_source-IsCounted raw_url (kind ++ codes ":url:") (fetch_url kind raw_url) unreadable_url
          second third counted2 e3 in
      let finished : finish_list third ≡ ip_list = ground arith in
      rw (← finished) (omega (arith, counted3, length-map third.prefixes))
