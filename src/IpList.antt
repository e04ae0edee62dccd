-- ===== src/IpList.antt =====
-- refresh.go, the lists of addresses: one line is an address, a prefix, a comment or an error, and a
-- list is loaded from the configuration, a file and a URL.
pub mod Members
pub mod Names
pub mod Count
pub mod Mapped
use caddy_protector.Base.{
  ℕ, ◌+◌, ◌≡◌, Bool, true, ◌||◌, Option, none, some, List, [], ◌∷◌, ◌++◌, map, leb, ◌==◌,
  if◌then◌else◌, is_nil, is_some, length, any,
}
use caddy_protector.Base.Assoc.{lookup, insert}
use caddy_protector.Base.Result.{Result, ok, err, or_err, ◌>>=◌}
use caddy_protector.Text.{Bytes, codes, has_prefix, contains, cut, bytes_Eq}
use caddy_protector.Text.Unicode.{trim_space}
use caddy_protector.Netip.{Addr, addr_Eq, Prefix, prefix_contains, masked}
use caddy_protector.Protector.{IpAllowlist, KeySet}

-- The parsers of net/netip, and the text of a prefix.
pub record AddressParser : Type 0 where
  pub parse_addr : Bytes → Option Addr
  pub parse_prefix : Bytes → Option Prefix
  pub prefix_string : Prefix → Bytes
  pub prefix_string-injective : (p q : Prefix) → prefix_string p ≡ prefix_string q → p ≡ q

-- The source, the line and its text; a line that is too long; a file or a URL that cannot be read.
pub data ListError : Type 0 where
  bad_entry : Bytes → ℕ → Bytes → ListError
  line_too_long : Bytes → ListError
  unreadable_file unreadable_url : ListError

-- allowlistEntry, with `none` for a zero value
pub record AllowlistEntry : Type 0 where
  pub addr : Option Addr
  pub prefix : Option Prefix

-- allowlistParseResult
pub record AllowlistParseResult : Type 0 where
  pub exact_ips : KeySet Addr
  pub prefixes : List (Bytes × Prefix)
  pub sources : List Bytes
  pub entries : ℕ

abbrev push : ℕ → List Bytes → List Bytes
push c [] = (c ∷ []) ∷ []
push c (l ∷ ls) = (c ∷ l) ∷ ls

-- The lines that a bufio.Scanner sees. A break at the end begins no line.
unfoldable pub raw_lines : Bytes → List Bytes
raw_lines [] = []
raw_lines (c ∷ s) = let rest = raw_lines s in if c == b'\n' then [] ∷ rest else push c rest

unfoldable pub drop_cr : Bytes → Bytes
drop_cr [] = []
drop_cr (c ∷ []) = if c == b'\r' then [] else c ∷ []
drop_cr (c ∷ d ∷ s) = c ∷ drop_cr (d ∷ s)

-- The buffer of a scanner holds 64 KiB, the line break included.
abbrev pub max_token : ℕ
max_token = 65536

abbrev pub no_entries : AllowlistParseResult
no_entries = record { exact_ips = []; prefixes = []; sources = []; entries = 0 }

-- strings.Join(inline, "\n")
unfoldable pub join_lines : List Bytes → Bytes
join_lines [] = []
join_lines (l ∷ []) = l
join_lines (l ∷ m ∷ ls) = l ++ b'\n' ∷ join_lines (m ∷ ls)

abbrev pub finish_list : AllowlistParseResult → IpAllowlist
finish_list result = record {
  exact_ips = result.exact_ips;
  prefixes = map (λ b. b.1) result.prefixes;
  sources = result.sources;
  entries = result.entries;
}

abbrev pub count_new {ℓ} : {V : Type ℓ} → Option V → ℕ → ℕ
count_new none n = n + 1
count_new (some v) n = n

module _ ⦃net : AddressParser⦄ where
  abbrev pub parse_entry_text : Bytes → ℕ → Bytes → Bytes → Result ListError (Option AllowlistEntry)
  parse_entry_text source line_no raw line =
      if is_nil line
      then ok none
      else if contains line (codes "/")
      then (do
        p ← or_err (net.parse_prefix line) (bad_entry source line_no raw)
        ok (some (record { addr = none; prefix = some (masked p) })))
      else (do
        a ← or_err (net.parse_addr line) (bad_entry source line_no raw)
        ok (some (record { addr = some a; prefix = none })))

  unfoldable pub parse_allowlist_entry :
      Bytes → ℕ → Bytes → Result ListError (Option AllowlistEntry)
  parse_allowlist_entry source line_no raw =
      let line = trim_space raw in
      if is_nil line || has_prefix line (codes "#")
      then ok none
      else parse_entry_text source line_no raw
          (if contains line (codes "#") then trim_space (cut line b'#').before else line)

  unfoldable pub add_entry : AllowlistParseResult → Option AllowlistEntry → AllowlistParseResult
  add_entry result none = result
  add_entry result (some e) = elim e.prefix [
    | some p ↦ record result {
      entries = count_new (lookup (net.prefix_string p) result.prefixes) result.entries;
      prefixes = insert (net.prefix_string p) p result.prefixes;
    }
    | none ↦ elim e.addr [
      | some a ↦ record result {
        entries = count_new (lookup a result.exact_ips) result.entries;
        exact_ips = insert a tt result.exact_ips;
      }
      | none ↦ result
    ]
  ]

  unfoldable pub scan_lines :
      Bytes → ℕ → List Bytes → AllowlistParseResult → Result ListError AllowlistParseResult
  scan_lines source line_no [] result = ok result
  scan_lines source line_no (l ∷ ls) result =
      if leb max_token (length l) then err (line_too_long source) else (do
        entry ← parse_allowlist_entry source (line_no + 1) (drop_cr l)
        scan_lines source (line_no + 1) ls (add_entry result entry))

  unfoldable pub parse_allowlist_lines :
      AllowlistParseResult → Bytes → Bytes → Result ListError AllowlistParseResult
  parse_allowlist_lines result source content =
      let named = record result { sources = result.sources ++ source ∷ [] } in
      if is_nil (trim_space content)
      then ok named
      else scan_lines source 0 (raw_lines content) named

  -- A source of the list: its name, and its text if it could be read.
  abbrev pub add_source :
      Bytes
      → Bytes
      → Option Bytes
      → ListError
      → AllowlistParseResult
      → Result ListError AllowlistParseResult
  add_source [] label content e result = ok result
  add_source (c ∷ s) label content e result = do
    text ← or_err content e
    parse_allowlist_lines result (label ++ c ∷ s) text

  -- `read_file` is os.ReadFile and `fetch_url` fetchIPListURL.
  unfoldable pub load_ip_list :
      (Bytes → Option Bytes)
      → (Bytes → Bytes → Option Bytes)
      → Bytes
      → List Bytes
      → Bytes
      → Bytes
      → Result ListError IpAllowlist
  load_ip_list read_file fetch_url kind inline file_path raw_url = do
    first ← parse_allowlist_lines no_entries (kind ++ codes ":inline") (join_lines inline)
    second ←
        add_source file_path (kind ++ codes ":file:") (read_file file_path) unreadable_file first
    third ←
        add_source raw_url (kind ++ codes ":url:") (fetch_url kind raw_url) unreadable_url second
    ok (finish_list third)

-- currentIPList: nothing is loaded, or a list is.
unfoldable pub current_ip_list : Option IpAllowlist → IpAllowlist
current_ip_list none = record { exact_ips = []; prefixes = []; sources = []; entries = 0 }
current_ip_list (some ip_list) = ip_list

unfoldable pub ip_list_contains : IpAllowlist → Addr → Bool
ip_list_contains ip_list addr =
    if is_some (lookup addr ip_list.exact_ips)
    then true
    else any (λ p. prefix_contains p addr) ip_list.prefixes
