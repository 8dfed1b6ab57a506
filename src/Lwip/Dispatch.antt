-- ===== src/Lwip/Dispatch.antt =====
-- `ip_input` of src/lwip/src/core/ip.c.
pub mod Delivery
use libn2t.Common.{ℕ, ◌/◌, Bool, List, [], ◌∷◌, Option, some, ◌==◌, if◌then◌else◌}
use libn2t.Lwip.Addresses.{IpAddr, Netif}
use libn2t.Lwip.Pbuf.{Pbuf}
use libn2t.Lwip.Udp.{Udp}
use libn2t.Lwip.Udp.Input.{byte}
use libn2t.Lwip.Ip.{IpCall, address, ip4_input}
use libn2t.Lwip.Ip6.{address6}
use libn2t.Lwip.Ip6.Input.{ip6_input}

-- NULL is refused with ERR_VAL; the results of the two functions, which are ERR_OK, are left out.
unfoldable pub ip_input :
    (Pbuf → Bool)
    → (List Pbuf → Option (List Pbuf))
    → (ℕ → List Pbuf → Option (List Pbuf))
    → ℕ
    → Netif
    → List Pbuf
    → Udp
    → Option (List IpCall × Udp)
unfolding ip4_input ip6_input
ip_input odd ip4_reass ip6_reass rounds netif [] s = some ([], s)
ip_input odd ip4_reass ip6_reass rounds netif (head ∷ next) s =
    if byte (head ∷ next) 0 / 16 == 6
    then ip6_input odd ip6_reass rounds netif (head ∷ next) s
    else ip4_input odd ip4_reass netif (head ∷ next) s

-- `ip_current_dest_addr` of a packet.
abbrev pub current_dest : List Pbuf → IpAddr
current_dest p = if byte p 0 / 16 == 6 then address6 p 24 else address p 16
