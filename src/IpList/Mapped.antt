-- ===== src/IpList/Mapped.antt =====
-- Lists of IPv4 entries and the IPv6 forms of their addresses.
use caddy_protector.Base.{
  ℕ, ◌≡◌, refl, Bool, true, false, ◌&&◌, List, [], ◌∷◌, any, all, is_some, arith,
}
use caddy_protector.Base.Assoc.{lookup}
use caddy_protector.Text.{Bytes}
use caddy_protector.Netip.{Addr, v4, v6, addr_Eq, Prefix, prefix_contains}
use caddy_protector.Protector.{IpAllowlist, KeySet}
use caddy_protector.IpList.{ip_list_contains}

abbrev is_v4 : Addr → Bool
is_v4 (v4 a) = true
is_v4 (v6 a zone) = false

-- Every entry is one of IPv4.
abbrev pub only_v4 : IpAllowlist → Bool
only_v4 l = all (λ b. is_v4 b.0) l.exact_ips && all (λ p. is_v4 p.addr) l.prefixes

lookup_absent :
    (n : ℕ) (zone : Bytes) (m : KeySet Addr)
    → all (λ b. is_v4 b.0) m ≡ true
    → is_some (lookup (v6 n zone) m) ≡ false
unfolding lookup
lookup_absent n zone [] h = refl
lookup_absent n zone ((v4 a, t) ∷ m) h = lookup_absent n zone m h
lookup_absent n zone ((v6 a z, t) ∷ m) h = cc

no_member :
    (n : ℕ) (zone : Bytes) (bits : ℕ) (a : Addr)
    → is_v4 a ≡ true
    → prefix_contains (record { addr = a; bits = bits }) (v6 n zone) ≡ false
unfolding prefix_contains
no_member n zone bits (v4 a) h = refl
no_member n zone bits (v6 a z) h = cc

no_members :
    (n : ℕ) (zone : Bytes) (ps : List Prefix)
    → all (λ p. is_v4 p.addr) ps ≡ true
    → any (λ p. prefix_contains p (v6 n zone)) ps ≡ false
no_members n zone [] h = refl
no_members n zone (p ∷ ps) h = ground (arith, no_member n zone p.bits p.addr, no_members n zone ps)

-- A list of IPv4 entries alone contains no IPv6 address, not even the IPv6 form of an address that
-- it lists.
pub ip_list_contains-v6 :
    (l : IpAllowlist) (n : ℕ) (zone : Bytes)
    → only_v4 l ≡ true
    → ip_list_contains l (v6 n zone) ≡ false
unfolding ip_list_contains
ip_list_contains-v6 l n zone h =
    ground (arith, lookup_absent n zone l.exact_ips, no_members n zone l.prefixes)
