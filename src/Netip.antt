-- ===== src/Netip.antt =====
-- The part of Go's net/netip that the program uses: addresses, their classes and prefixes. An IPv4
-- address is a number below 2 ^ 32, an IPv6 address one below 2 ^ 128 with a zone, empty if it has
-- none. The parsers are a parameter.
pub mod Classes
use caddy_protector.Base.{
  ℕ, ◌*◌, ◌/◌, ◌-◌, ◌^◌, ◌≡◌, ◌↔◌, Bool, true, false, ◌&&◌, [], arith, ◌==◌, if◌then◌else◌, is_nil,
}
use caddy_protector.Base.Assoc.{Eq}
use caddy_protector.Text.{Bytes, same, same_iff}

pub data Addr : Type 0 where
  v4 : ℕ → Addr
  v6 : ℕ → Bytes → Addr

abbrev pub addr_eq : Addr → Addr → Bool
addr_eq (v4 a) (v4 b) = a == b
addr_eq (v6 a zone) (v6 b zone') = a == b && same zone zone'
addr_eq _ _ = false

pub addr_eq_iff : (a b : Addr) → (addr_eq a b ≡ true) ↔ (a ≡ b)
addr_eq_iff (v4 a) (v4 b) = ground arith
addr_eq_iff (v6 a zone) (v6 b zone') = ground (arith, same_iff zone zone')
addr_eq_iff (v4 a) (v6 b zone) = ground arith
addr_eq_iff (v6 a zone) (v4 b) = ground arith

instance abbrev pub addr_Eq : Eq Addr
addr_Eq = record { beq = addr_eq; beq_iff = addr_eq_iff }

-- An IPv4 address in IPv6 form, ::ffff:0:0/96.
abbrev pub is_4_in_6 : Addr → Bool
is_4_in_6 (v4 a) = false
is_4_in_6 (v6 a zone) = a / 2 ^ 32 == 0xffff

abbrev pub unmap : Addr → Addr
unmap (v4 a) = v4 a
unmap (v6 a zone) = if a / 2 ^ 32 == 0xffff then v4 (a - 0xffff * 2 ^ 32) else v6 a zone

-- A valid prefix.
pub record Prefix : Type 0 where
  pub addr : Addr
  pub bits : ℕ

-- Whether two addresses of one kind agree in their first bits. An address with a zone agrees with none.
abbrev pub same_top : ℕ → Addr → Addr → Bool
same_top bits (v4 a) (v4 b) = a / 2 ^ (32 - bits) == b / 2 ^ (32 - bits)
same_top bits (v6 a zone) (v6 b zone') =
    is_nil zone' && a / 2 ^ (128 - bits) == b / 2 ^ (128 - bits)
same_top bits _ _ = false

-- Prefix.Contains
unfoldable pub prefix_contains : Prefix → Addr → Bool
prefix_contains p ip = same_top p.bits p.addr ip

abbrev clear_low : ℕ → Addr → Addr
clear_low bits (v4 a) = v4 (a / 2 ^ (32 - bits) * 2 ^ (32 - bits))
clear_low bits (v6 a zone) = v6 (a / 2 ^ (128 - bits) * 2 ^ (128 - bits)) []

-- Prefix.Masked
unfoldable pub masked : Prefix → Prefix
masked p = record { addr = clear_low p.bits p.addr; bits = p.bits }
