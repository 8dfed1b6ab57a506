-- ===== src/Lwip/Ip.antt =====
-- The functions of src/lwip/src/core/ipv4/ip4.c that take a packet in and put one out. This repository changes `ip4_input`: whatever interface it finds for
-- the destination, it goes on with the one that the packet came from, so the search is left out.
pub mod Datagram
pub mod Input
pub mod Front
pub mod Output
pub mod WellFormed
pub mod Sending
use libn2t.Common.{
  ℕ, ◌+◌, ◌-◌, ◌*◌, ◌/◌, ◌%◌, Bool, true, false, not, ◌&&◌, ◌||◌, List, [], ◌∷◌, ◌++◌, Option, none,
  some, take, drop, ltb, ◌==◌, if◌then◌else◌, u16, u32,
}
use libn2t.Lwip.Addresses.{v4, IpAddr, ip_addr_ismulticast, ip_addr_isbroadcast, Netif}
use libn2t.Lwip.Pbuf.{Pbuf}
use libn2t.Lwip.Pbuf.Headers.{pbuf_add_header, pbuf_remove_header, pbuf_add_header_force}
use libn2t.Lwip.Pbuf.Chains.{pbuf_realloc}
use libn2t.Lwip.Checksum.{swap_bytes, halves_v4, inet_chksum}
use libn2t.Lwip.Udp.{Udp}
use libn2t.Lwip.Udp.Input.{IpData, UdpCall, byte, word, udp_input}
use libn2t.Lwip.Udp.Output.{be16}
use libn2t.Lwip.Udp.Output.Exchange.{udp_chksum}

-- The codes of `icmp6_param_problem`.
pub data Problem : Type 0 where
  field header option : Problem

-- What becomes of a packet, in order: a chain is freed, UDP makes its calls, TCP or ICMP gets the
-- chain, or ICMP reports that the protocol is unknown or that a header of IPv6 is wrong, where the
-- place in the packet is left out.
pub data IpCall : Type 0 where
  free : List Pbuf → IpCall
  udp : List UdpCall → IpCall
  tcp_input : IpData → List Pbuf → IpCall
  icmp_input : IpData → List Pbuf → IpCall
  icmp_dest_unreach : List Pbuf → IpCall
  icmp6_input : IpData → List Pbuf → IpCall
  icmp6_param_problem : Problem → List Pbuf → IpCall

-- IPH_HL_BYTES, and the addresses of the header.
abbrev pub header_len : List Pbuf → ℕ
header_len p = byte p 0 % 16 * 4

abbrev pub address : List Pbuf → ℕ → IpAddr
address p i = record { type = v4; addr = word p i * 65536 + word p (i + 2) }

-- The header is not in the first pbuf, or the packet is shorter than its header says.
abbrev pub bad_length : ℕ → ℕ → List Pbuf → Bool
bad_length hlen len [] = true
bad_length hlen len (q ∷ next) = ltb q.len hlen || (ltb q.tot_len len || ltb hlen 20)

abbrev pub trim : ℕ → List Pbuf → Option (List Pbuf)
trim len [] = none
trim len (q ∷ next) = if ltb len q.tot_len then pbuf_realloc (q ∷ next) len else some (q ∷ next)

abbrev pub bad_source : IpAddr → Netif → Bool
bad_source src netif = ip_addr_isbroadcast src netif || ip_addr_ismulticast src

-- Whether the memory of a pbuf starts at an odd address, and what `ip4_reass` returns for a
-- fragment, where `none` is NULL.
module _ (odd : Pbuf → Bool) (ip4_reass : List Pbuf → Option (List Pbuf)) where
  abbrev pub bad_chksum : ℕ → List Pbuf → Bool
  bad_chksum hlen [] = true
  bad_chksum hlen (q ∷ next) = not (inet_chksum (odd q) (take hlen q.payload) == 0)

  -- The header is off the chain.
  unfoldable pub to_protocol : ℕ → ℕ → IpData → List Pbuf → Udp → Option (List IpCall × Udp)
  unfolding ip_addr_ismulticast
  to_protocol proto hlen ip q s =
      if proto == 17
      then elim (udp_input (udp_chksum odd) ip q s) [
        | none ↦ none
        | some (calls, t) ↦ some (udp calls ∷ [], t)
      ]
      else if proto == 6
      then some (tcp_input ip q ∷ [], s)
      else if proto == 1
      then some (icmp_input ip q ∷ [], s)
      else if ip_addr_isbroadcast ip.dest ip.netif || ip_addr_ismulticast ip.dest
      then some (free q ∷ [], s)
      else elim (pbuf_add_header_force q hlen) [
        | none ↦ none
        | some (failed, r) ↦ some (icmp_dest_unreach r ∷ free r ∷ [], s)
      ]

  -- The addresses are those of the last fragment, and so is the length of the header that is removed.
  abbrev pub whole : ℕ → Netif → IpAddr → IpAddr → List Pbuf → Udp → Option (List IpCall × Udp)
  whole hlen netif src dest p s = elim (pbuf_remove_header p hlen) [
    | none ↦ none
    | some (failed, q) ↦
        to_protocol (byte p 9) hlen
          (record { netif = netif; src = src; dest = dest; header_tot_len = header_len p }) q s
  ]

  abbrev pub accepted : ℕ → Netif → List Pbuf → Udp → Option (List IpCall × Udp)
  accepted hlen netif p s =
      if bad_source (address p 12) netif
      then some (free p ∷ [], s)
      else if word p 6 % 16384 == 0
      then whole hlen netif (address p 12) (address p 16) p s
      else elim (ip4_reass p) [
        | none ↦ some ([], s)
        | some q ↦ whole hlen netif (address p 12) (address p 16) q s
      ]

  -- `none` is an assertion that fails.
  unfoldable pub ip4_input : Netif → List Pbuf → Udp → Option (List IpCall × Udp)
  unfolding to_protocol
  ip4_input netif p s =
      if not (byte p 0 / 16 == 4) then some (free p ∷ [], s) else elim (trim (word p 2) p) [
        | none ↦ none
        | some q ↦
            if bad_length (header_len p) (word p 2) q
            then some (free q ∷ [], s)
            else if bad_chksum (header_len p) q
            then some (free q ∷ [], s)
            else accepted (header_len p) netif q s
      ]

-- Of `ip4_output_if_src`: ERR_BUF, or the chain goes to the interface, in one piece or in fragments.
pub data Ip4Output : Type 0 where
  buf : Ip4Output
  output : List Pbuf → Ip4Output
  ip4_frag : List Pbuf → Ip4Output

-- The 20 bytes of a header without options.
abbrev pub ip4_header : ℕ → ℕ → ℕ → ℕ → ℕ → ℕ → ℕ → ℕ → ℕ → ℕ → List ℕ
ip4_header v_hl tos len id offset ttl proto chksum src dest =
    v_hl
    ∷ tos
    ∷ (be16 len
        ++ (be16 id
            ++ (be16 offset
                ++ (ttl
                    ∷ proto
                    ∷ chksum % 256
                    ∷ chksum / 256 % 256
                    ∷ (be16 (src / 65536) ++ (be16 src ++ (be16 (dest / 65536) ++ be16 dest)))))))

-- CHECKSUM_GEN_IP_INLINE: the sum is taken while the header is made.
unfoldable pub inline_chksum : ℕ → ℕ → ℕ → ℕ → ℕ → ℕ → ℕ → ℕ
inline_chksum ttl proto dest tos len id src =
    let chk_sum : ℕ = u32 (
      swap_bytes (proto + ttl * 256)
      + halves_v4 dest
      + swap_bytes (tos + 69 * 256)
      + swap_bytes len
      + swap_bytes id
      + halves_v4 src) in
    let folded : ℕ = chk_sum / 65536 + chk_sum % 65536 in 65535 - (folded / 65536 + folded) % 65536

-- With ip_id. The last but one argument is the MTU of the interface.
unfoldable pub ip4_output_if_src : List Pbuf → ℕ → ℕ → ℕ → ℕ → ℕ → ℕ → ℕ → Option (Ip4Output × ℕ)
unfolding inline_chksum
ip4_output_if_src [] src dest ttl tos proto mtu ip_id = none
ip4_output_if_src (head ∷ next) src dest ttl tos proto mtu ip_id =
    if not (head.ref == 1) then none else elim (pbuf_add_header (head ∷ next) 20) [
      | none ↦ none
      | some (true, p) ↦ some (buf, ip_id)
      | some (false, []) ↦ none
      | some (false, q ∷ more) ↦
          if ltb q.len 20
          then none
          else let chksum = inline_chksum ttl proto dest tos q.tot_len ip_id src in
            let header = ip4_header 69 tos q.tot_len ip_id 0 ttl proto chksum src dest in
            let p = record q { payload = header ++ drop 20 q.payload } ∷ more in
            if not (mtu == 0) && ltb mtu q.tot_len
            then some (ip4_frag p, u16 (ip_id + 1))
            else some (output p, u16 (ip_id + 1))
    ]
