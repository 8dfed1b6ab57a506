-- ===== src/Lwip/Addresses.antt =====
-- Addresses of lwIP with both families (src/lwip/src/include/lwip/ip_addr.h, ip4_addr.h, ip6_addr.h,
-- src/lwip/src/core/ipv4/ip4_addr.c), without zones of IPv6.
use Prim.Native.Nat.{bit_and}
use libn2t.Common.{
  ℕ, ◌-◌, ◌/◌, Bool, true, false, not, ◌&&◌, ◌||◌, List, [], ◌∷◌, ◌==◌, if◌then◌else◌,
}

pub data IpType : Type 0 where
  v4 v6 any_type : IpType

abbrev pub same_type : IpType → IpType → Bool
same_type v4 v4 = true
same_type v6 v6 = true
same_type any_type any_type = true
same_type _ _ = false

-- The number is that of the bytes in network order: four of them, or sixteen for IPv6.
pub record IpAddr : Type 0 where
  pub type : IpType
  pub addr : ℕ

abbrev pub is_v6 : IpAddr → Bool
is_v6 a = same_type a.type v6

abbrev pub is_v4 : IpAddr → Bool
is_v4 a = same_type a.type v4

abbrev pub is_any_type : IpAddr → Bool
is_any_type a = same_type a.type any_type

-- IP_ANY_TYPE
abbrev pub ip_any_type : IpAddr
ip_any_type = record { type = any_type; addr = 0 }

abbrev pub ip_addr_isany : IpAddr → Bool
ip_addr_isany a = a.addr == 0

abbrev pub ip_addr_cmp : IpAddr → IpAddr → Bool
ip_addr_cmp a b = same_type a.type b.type && a.addr == b.addr

unfoldable pub ip_addr_ismulticast : IpAddr → Bool
ip_addr_ismulticast a =
    if is_v6 a
    then a.addr / 1329227995784915872903807060280344576 == 255
    else a.addr / 268435456 == 14

unfoldable pub ip_addr_set_any : Bool → IpAddr
ip_addr_set_any true = record { type = v6; addr = 0 }
ip_addr_set_any false = record { type = v4; addr = 0 }

unfoldable pub ip4_addr_netcmp : ℕ → ℕ → ℕ → Bool
ip4_addr_netcmp a b mask = bit_and a mask == bit_and b mask

-- An interface, with its address of IPv4 and its valid addresses of IPv6.
pub record Netif : Type 0 where
  pub index : ℕ
  pub ip4_addr : ℕ
  pub netmask : ℕ
  pub has_broadcast : Bool
  pub ip6_addrs : List ℕ

abbrev pub has_address : ℕ → List ℕ → Bool
has_address a [] = false
has_address a (b ∷ rest) = a == b || has_address a rest

unfoldable pub ip4_addr_isbroadcast_u32 : ℕ → Netif → Bool
unfolding ip4_addr_netcmp
ip4_addr_isbroadcast_u32 addr netif =
    if addr == 4294967295 || addr == 0
    then true
    else if not netif.has_broadcast
    then false
    else if addr == netif.ip4_addr
    then false
    else ip4_addr_netcmp addr netif.ip4_addr netif.netmask
      && bit_and addr (4294967295 - netif.netmask) == 4294967295 - netif.netmask

unfoldable pub ip_addr_isbroadcast : IpAddr → Netif → Bool
unfolding ip4_addr_isbroadcast_u32
ip_addr_isbroadcast a netif = if is_v6 a then false else ip4_addr_isbroadcast_u32 a.addr netif
