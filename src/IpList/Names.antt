-- ===== src/IpList/Names.antt =====
-- What a list holds, said of the texts from which it was loaded.
use caddy_protector.Base.{
  ℕ, ◌+◌, ◌≡◌, refl, sym, inl, inr, Bool, true, false, ◌||◌, Option, none, some, List, [], ◌∷◌,
  ◌++◌, leb, if◌then◌else◌, is_nil, length, any, arith, Bool-cases, Option-cases,
}
use caddy_protector.Base.Assoc.{lookup}
use caddy_protector.Base.Result.{ok, >>=-eq-ok}
use caddy_protector.Text.{Bytes, codes, has_prefix, contains, cut}
use caddy_protector.Text.Unicode.{trim_space}
use caddy_protector.Netip.{Addr, addr_eq, Prefix, prefix_contains}
use caddy_protector.Protector.{IpAllowlist}
use caddy_protector.IpList.{
  AddressParser, ListError, AllowlistEntry, AllowlistParseResult, raw_lines, drop_cr, max_token,
  parse_allowlist_entry, parse_entry_text, add_entry, scan_lines, parse_allowlist_lines, no_entries,
  finish_list, add_source, join_lines, load_ip_list, unreadable_file, unreadable_url,
  ip_list_contains,
}
use caddy_protector.IpList.Members.{
  covers, holds, Keyed, add_entry-Keyed, holds-add_entry, prefix_contains-masked,
}

-- A line without its comment and the white space around the rest.
abbrev pub entry_text : Bytes → Bytes
entry_text line =
    let text = trim_space line in
    if (cut text b'#').found then trim_space (cut text b'#').before else text

contains-found : (s : Bytes) → contains s (codes "#") ≡ (cut s b'#').found
unfolding contains cut
contains-found [] = refl
contains-found (c ∷ s) = ground (arith, contains-found s)

hash_first :
    (s : Bytes)
    → has_prefix s (codes "#") ≡ true
    → ((cut s b'#').found ≡ true) × ((cut s b'#').before ≡ [])
unfolding cut
hash_first [] h = cc
hash_first (c ∷ s) h = ground arith

trim_space-nil : trim_space [] ≡ []
unfolding trim_space
trim_space-nil = refl

module _ ⦃net : AddressParser⦄ where
  abbrev prefix_names : Option Prefix → Addr → Bool
  prefix_names none a = false
  prefix_names (some p) a = prefix_contains p a

  abbrev addr_names : Option Addr → Addr → Bool
  addr_names none a = false
  addr_names (some b) a = addr_eq b a

  abbrev text_names : Bytes → Addr → Bool
  text_names text a =
      if is_nil text
      then false
      else if contains text (codes "/")
      then prefix_names (net.parse_prefix text) a
      else addr_names (net.parse_addr text) a

  -- A line names an address as itself, or as a member of a prefix.
  abbrev pub names : Bytes → Addr → Bool
  names line a = text_names (entry_text line) a

  names_of_entry_text :
      (source : Bytes) (line_no : ℕ) (raw text : Bytes) (e : Option AllowlistEntry) (a : Addr)
      → parse_entry_text source line_no raw text ≡ ok e
      → covers e a ≡ text_names text a
  names_of_entry_text source line_no raw text e a h = elim (Bool-cases (is_nil text)) [
    | inl empty ↦ ground arith
    | inr full ↦ elim (Bool-cases (contains text (codes "/"))) [
      | inl range ↦ elim (Option-cases (net.parse_prefix text)) [
        | inl bad ↦ ground arith
        | inr (p, good) ↦ ground (arith, prefix_contains-masked p a)
      ]
      | inr one ↦ elim (Option-cases (net.parse_addr text)) [
        | inl bad ↦ ground arith
        | inr (b, good) ↦ ground arith
      ]
    ]
  ]

  no_text : (text : Bytes) (a : Addr) → is_nil text ≡ true → text_names text a ≡ false
  no_text text a h = rw h

  entry_text-skip :
      (t : Bytes)
      → (is_nil t || has_prefix t (codes "#")) ≡ true
      → is_nil (if (cut t b'#').found then trim_space (cut t b'#').before else t) ≡ true
  entry_text-skip [] h = unfold cut in refl
  entry_text-skip (c ∷ s) h =
      let (found, before) = hash_first (c ∷ s) h in rw (found, before) (rw trim_space-nil)

  names-parse :
      (source : Bytes) (line_no : ℕ) (line : Bytes) (e : Option AllowlistEntry) (a : Addr)
      → parse_allowlist_entry source line_no line ≡ ok e
      → covers e a ≡ names line a
  unfolding parse_allowlist_entry
  names-parse source line_no line e a h =
      elim (Bool-cases (is_nil (trim_space line) || has_prefix (trim_space line) (codes "#"))) [
        | inl skip ↦
            let nothing : none ≡ e = ground arith in
            rw (← nothing)
              (sym (no_text (entry_text line) a (entry_text-skip (trim_space line) skip)))
        | inr kept ↦
            names_of_entry_text source line_no line (entry_text line) e a
              (rw (← contains-found (trim_space line)) (rw kept at h))
      ]

  abbrev lines_name : List Bytes → Addr → Bool
  lines_name ls a = any (λ l. names (drop_cr l) a) ls

  scan_lines-names :
      (source : Bytes) (line_no : ℕ) (ls : List Bytes) (result : AllowlistParseResult)
      (done : AllowlistParseResult) (a : Addr)
      → Keyed result.prefixes
      → scan_lines source line_no ls result ≡ ok done
      → (holds done a ≡ (lines_name ls a || holds result a)) × Keyed done.prefixes
  unfolding scan_lines
  scan_lines-names source line_no [] result done a keyed h =
      let e : result ≡ done = ground arith in rw (← e) (refl, keyed)
  scan_lines-names source line_no (l ∷ ls) result done a keyed h =
      elim (Bool-cases (leb max_token (length l))) [
        | inl long ↦ cc (rw long at h)
        | inr short ↦
            let (e, parsed, rest) =
              >>=-eq-ok (parse_allowlist_entry source (line_no + 1) (drop_cr l))
                (λ entry. scan_lines source (line_no + 1) ls (add_entry result entry))
                (rw short at h) in
            let (held, keyed') =
              scan_lines-names source (line_no + 1) ls (add_entry result e) done a
                (add_entry-Keyed result e keyed) rest in
            (
              (rw
                  (
                    held,
                    holds-add_entry result e a keyed,
                    names-parse source (line_no + 1) (drop_cr l) e a parsed,
                  )
                  (ground arith)),
              keyed',
            )
      ]

  -- The lines of a text that are read: none, if it is blank.
  abbrev pub read_lines : Bytes → List Bytes
  read_lines content = if is_nil (trim_space content) then [] else raw_lines content

  abbrev pub text_lists : Bytes → Addr → Bool
  text_lists content a = lines_name (read_lines content) a

  parse_allowlist_lines-lists :
      (result : AllowlistParseResult) (source content : Bytes) (done : AllowlistParseResult)
      (a : Addr)
      → Keyed result.prefixes
      → parse_allowlist_lines result source content ≡ ok done
      → (holds done a ≡ (text_lists content a || holds result a)) × Keyed done.prefixes
  unfolding parse_allowlist_lines ip_list_contains
  parse_allowlist_lines-lists result source content done a keyed h =
      elim (Bool-cases (is_nil (trim_space content))) [
        | inl blank ↦
            let named : AllowlistParseResult = record result {
              sources = result.sources ++ source ∷ [];
            } in
            let e : named ≡ done = ground arith in rw (← e) (rw blank (refl, keyed))
        | inr full ↦ rw full (
            scan_lines-names source 0 (raw_lines content)
              (record result { sources = result.sources ++ source ∷ [] }) done a keyed
              (rw full at h))
      ]

  -- A source that is not configured lists nothing.
  abbrev pub source_lists : Bytes → Option Bytes → Addr → Bool
  source_lists [] content a = false
  source_lists (c ∷ s) none a = false
  source_lists (c ∷ s) (some text) a = text_lists text a

  add_source-lists :
      (location label : Bytes) (content : Option Bytes) (e : ListError)
      (result done : AllowlistParseResult) (a : Addr)
      → Keyed result.prefixes
      → add_source location label content e result ≡ ok done
      → (holds done a ≡ (source_lists location content a || holds result a)) × Keyed done.prefixes
  add_source-lists [] label content e result done a keyed h =
      let same_result : result ≡ done = ground arith in rw (← same_result) (refl, keyed)
  add_source-lists (c ∷ s) label none e result done a keyed h = cc
  add_source-lists (c ∷ s) label (some text) e result done a keyed h =
      parse_allowlist_lines-lists result (label ++ c ∷ s) text done a keyed h

  -- A loaded list contains an address exactly if a line of one of its three sources names it, by
  -- itself or by a prefix.
  pub load_ip_list-lists :
      (read_file : Bytes → Option Bytes) (fetch_url : Bytes → Bytes → Option Bytes) (kind : Bytes)
      (inline : List Bytes) (file_path raw_url : Bytes) (ip_list : IpAllowlist) (a : Addr)
      → load_ip_list read_file fetch_url kind inline file_path raw_url ≡ ok ip_list
      → ip_list_contains ip_list a ≡ (
          text_lists (join_lines inline) a
          || source_lists file_path (read_file file_path) a
          || source_lists raw_url (fetch_url kind raw_url) a)
  unfolding load_ip_list
  load_ip_list-lists read_file fetch_url kind inline file_path raw_url ip_list a h =
      let (first, e1, rest1) =
        >>=-eq-ok (parse_allowlist_lines no_entries (kind ++ codes ":inline") (join_lines inline)) _
          h in
      let (second, e2, rest2) =
        >>=-eq-ok
          (add_source file_path (kind ++ codes ":file:") (read_file file_path) unreadable_file
            first)
          _ rest1 in
      let (third, e3, e4) =
        >>=-eq-ok
          (add_source raw_url (kind ++ codes ":url:") (fetch_url kind raw_url) unreadable_url
            second)
          _ rest2 in
      let (held1, keyed1) =
        parse_allowlist_lines-lists no_entries (kind ++ codes ":inline") (join_lines inline) first a
          tt e1 in
      let (held2, keyed2) =
        add_source-lists file_path (kind ++ codes ":file:") (read_file file_path) unreadable_file
          first second a keyed1 e2 in
      let (held3, keyed3) =
        add_source-lists raw_url (kind ++ codes ":url:") (fetch_url kind raw_url) unreadable_url
          second third a keyed2 e3 in
      let finished : finish_list third ≡ ip_list = ground arith in
      rw (← finished) (rw (held3, held2, held1) (unfold ip_list_contains lookup in ground arith))
