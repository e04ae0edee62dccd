-- ===== src/IpList/Members.antt =====
-- A loaded list holds an address exactly if a line of its sources names it.
use native.Mathlib.Nat.{mul-div_cancel, one-le-pow}
use caddy_protector.Base.{
  ℕ, ◌*◌, ◌/◌, ◌^◌, ◌-◌, ◌≡◌, refl, sym, ◌∙◌, inl, inr, Bool, false, ◌||◌, Option, none, some, List,
  [], ◌∷◌, map, any, All, arith, Bool-cases, Option-cases,
}
use caddy_protector.Base.Assoc.{insert, lookup-insert}
use caddy_protector.Text.{Bytes, same, bytes_Eq, same_iff}
use caddy_protector.Netip.{Addr, v4, v6, addr_Eq, addr_eq, Prefix, prefix_contains, masked}
use caddy_protector.IpList.{
  AddressParser, AllowlistEntry, AllowlistParseResult, add_entry, finish_list, ip_list_contains,
}

div-mul : (n k : ℕ) → n / (2 ^ k) * (2 ^ k) / (2 ^ k) ≡ n / (2 ^ k)
div-mul n k = mul-div_cancel (n / (2 ^ k)) (one-le-pow k 2 (omega arith))

-- Clearing the low bits of a prefix changes none of its members.
pub prefix_contains-masked :
    (p : Prefix) (a : Addr) → prefix_contains (masked p) a ≡ prefix_contains p a
unfolding prefix_contains masked
prefix_contains-masked p a = go p.addr a
  where
    go :
        (b c : Addr)
        → prefix_contains (masked (record { addr = b; bits = p.bits })) c
          ≡ prefix_contains (record { addr = b; bits = p.bits }) c
    go (v4 x) (v4 y) = rw (div-mul x (32 - p.bits))
    go (v6 x zone) (v6 y zone') = rw (div-mul x (128 - p.bits))
    go (v4 x) (v6 y zone') = refl
    go (v6 x zone) (v4 y) = refl

module _ ⦃net : AddressParser⦄ where
  -- The addresses of an entry.
  abbrev pub covers : Option AllowlistEntry → Addr → Bool
  covers none a = false
  covers (some e) a = elim e.prefix [
    | some p ↦ prefix_contains p a
    | none ↦ elim e.addr [ some b ↦ addr_eq b a | none ↦ false ]
  ]

  -- Every prefix stands under its own text.
  abbrev pub Keyed : List (Bytes × Prefix) → Type 0
  Keyed = All (λ b. b.0 ≡ net.prefix_string b.1)

  abbrev pub holds : AllowlistParseResult → Addr → Bool
  holds result a = ip_list_contains (finish_list result) a

  any-insert :
      (p : Prefix) (m : List (Bytes × Prefix)) (a : Addr)
      → Keyed m
      → any (λ q. prefix_contains q a) (map (λ b. b.1) (insert (net.prefix_string p) p m))
        ≡ (prefix_contains p a || any (λ q. prefix_contains q a) (map (λ b. b.1) m))
  unfolding insert
  any-insert p [] a h = refl
  any-insert p ((k, q) ∷ m) a (h, hs) = elim (Bool-cases (same k (net.prefix_string p))) [
    | inr other ↦ rw other (ground (arith, any-insert p m a hs))
    | inl e ↦
        let same_prefix : q ≡ p =
          net.prefix_string-injective q p (sym h ∙ (same_iff k (net.prefix_string p)).0 e) in
        rw (e, same_prefix) (ground arith)
  ]

  insert-Keyed :
      (p : Prefix) (m : List (Bytes × Prefix)) → Keyed m → Keyed (insert (net.prefix_string p) p m)
  unfolding insert
  insert-Keyed p [] h = (refl, tt)
  insert-Keyed p ((k, q) ∷ m) (h, hs) =
      ground (arith, insert-Keyed p m hs, same_iff k (net.prefix_string p))

  pub add_entry-Keyed :
      (result : AllowlistParseResult) (e : Option AllowlistEntry)
      → Keyed result.prefixes
      → Keyed (add_entry result e).prefixes
  unfolding add_entry
  add_entry-Keyed result none h = h
  add_entry-Keyed result (some e) h = elim (Option-cases e.prefix) [
    | inr (p, given) ↦ rw given (insert-Keyed p result.prefixes h)
    | inl absent ↦ elim (Option-cases e.addr) [
      | inr (b, given) ↦ rw (absent, given) h
      | inl nothing ↦ rw (absent, nothing) h
    ]
  ]

  pub holds-add_entry :
      (result : AllowlistParseResult) (e : Option AllowlistEntry) (a : Addr)
      → Keyed result.prefixes
      → holds (add_entry result e) a ≡ (covers e a || holds result a)
  unfolding add_entry ip_list_contains
  holds-add_entry result none a h = refl
  holds-add_entry result (some e) a h = elim (Option-cases e.prefix) [
    | inr (p, given) ↦ rw given (rw (any-insert p result.prefixes a h) (ground arith))
    | inl absent ↦ elim (Option-cases e.addr) [
      | inr (b, given) ↦ rw (absent, given) (rw lookup-insert (ground arith))
      | inl nothing ↦ rw (absent, nothing)
    ]
  ]
