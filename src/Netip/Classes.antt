-- ===== src/Netip/Classes.antt =====
-- The classes of addresses.
use caddy_protector.Base.{
  ◌+◌, ◌*◌, [], ◌/◌, ◌^◌, ◌≡◌, refl, Bool, true, not, ◌&&◌, ◌||◌, ◌==◌, is_nil,
}
use caddy_protector.Netip.{Addr, v4, v6, unmap}

abbrev is_loopback_of : Addr → Bool
is_loopback_of (v4 a) = a / 2 ^ 24 == 127
is_loopback_of (v6 a zone) = a == 1

abbrev is_private_of : Addr → Bool
is_private_of (v4 a) = a / 2 ^ 24 == 10 || a / 2 ^ 20 == 0xac1 || a / 2 ^ 16 == 0xc0a8
is_private_of (v6 a zone) = a / 2 ^ 121 == 0x7e

abbrev is_link_local_unicast_of : Addr → Bool
is_link_local_unicast_of (v4 a) = a / 2 ^ 16 == 0xa9fe
is_link_local_unicast_of (v6 a zone) = a / 2 ^ 118 == 0x3fa

abbrev is_multicast_of : Addr → Bool
is_multicast_of (v4 a) = a / 2 ^ 28 == 0xe
is_multicast_of (v6 a zone) = a / 2 ^ 120 == 0xff

-- 0.0.0.0 and 255.255.255.255, or "::" without a zone.
abbrev is_special_of : Addr → Bool
is_special_of (v4 a) = a == 0 || a == 0xffff_ffff
is_special_of (v6 a zone) = a == 0 && is_nil zone

-- The methods of netip.Addr look through an IPv4 address in IPv6 form.
unfoldable pub is_loopback : Addr → Bool
is_loopback a = is_loopback_of (unmap a)

unfoldable pub is_private : Addr → Bool
is_private a = is_private_of (unmap a)

unfoldable pub is_link_local_unicast : Addr → Bool
is_link_local_unicast a = is_link_local_unicast_of (unmap a)

unfoldable pub is_multicast : Addr → Bool
is_multicast a = is_multicast_of (unmap a)

unfoldable pub is_global_unicast : Addr → Bool
unfolding is_loopback is_multicast is_link_local_unicast
is_global_unicast a =
    not (is_special_of (unmap a))
    && not (is_loopback a)
    && not (is_multicast a)
    && not (is_link_local_unicast a)

mapped_private : is_private (v6 (0xffff * 2 ^ 32 + 0x0a000001) []) ≡ true
unfolding is_private
mapped_private = refl
