-- ===== src/Lwip/Ip6/Input.antt =====
-- The end of `ip6_input` of src/lwip/src/core/ipv6/ip6.c, and the function as a whole.
use libn2t.Common.{
  ℕ, zero, suc, ◌+◌, ◌/◌, Bool, not, ◌&&◌, ◌||◌, List, [], ◌∷◌, Option, none, some, ltb, ◌==◌,
  if◌then◌else◌, u16,
}
use libn2t.Lwip.Addresses.{IpAddr, ip_addr_ismulticast, Netif}
use libn2t.Lwip.Pbuf.{Pbuf}
use libn2t.Lwip.Pbuf.Alloc.{first_len}
use libn2t.Lwip.Pbuf.Headers.{pbuf_add_header_force}
use libn2t.Lwip.Pbuf.Chains.{head_tot_len, pbuf_realloc}
use libn2t.Lwip.Udp.{Udp}
use libn2t.Lwip.Udp.Input.{IpData, byte, word, udp_input}
use libn2t.Lwip.Udp.Output.Exchange.{udp_chksum}
use libn2t.Lwip.Ip.{header, IpCall, free, udp, tcp_input, icmp6_input, icmp6_param_problem}
use libn2t.Lwip.Ip6.{
  address6, ip6_addr_isipv4mappedipv6, ip6_addr_issolicitednode, Walk, Outcome, options_done,
  dropped, fragment, refuse_hop_by_hop, headers, fixed_header,
}

abbrev pub refused_addresses : IpAddr → IpAddr → Bool
refused_addresses src dest =
    ip6_addr_isipv4mappedipv6 dest || (ip6_addr_isipv4mappedipv6 src || ip_addr_ismulticast src)

-- The source `::` is only for packets to a solicited-node address.
abbrev pub unspecified : IpAddr → IpAddr → Bool
unspecified src dest = src.addr == 0 && not (ip6_addr_issolicitednode dest)

-- Whether the memory of a pbuf starts at an odd address, and what `ip6_reass` returns for the length
-- of the headers and a fragment, where `none` is NULL.
module _ (odd : Pbuf → Bool) (ip6_reass : ℕ → List Pbuf → Option (List Pbuf)) where
  -- The loop, with the packets that `ip6_reass` puts together; the first argument bounds their number.
  unfoldable pub walk : ℕ → IpAddr → Walk → Option Outcome
  unfolding headers
  walk zero dest w = none
  walk (suc rounds) dest w = elim (headers (suc (first_len w.chain)) dest w) [
    | none ↦ none
    | some (options_done v) ↦ some (options_done v)
    | some (dropped calls) ↦ some (dropped calls)
    | some (fragment v) ↦ elim (ip6_reass v.hlen_tot v.chain) [
      | none ↦ some (dropped [])
      | some q ↦ elim (fixed_header q) [
        | none ↦ none
        | some u ↦ if u.nexth == 0 then refuse_hop_by_hop u else walk rounds dest u
      ]
    ]
  ]

  abbrev pub ip_data : Netif → IpAddr → IpAddr → Walk → IpData
  ip_data netif src dest w = record {
    netif = netif;
    src = src;
    dest = dest;
    header_tot_len = w.hlen_tot;
  }

  -- From `options_done` on.
  unfoldable pub upper_layer : Netif → IpAddr → IpAddr → Walk → Udp → Option (List IpCall × Udp)
  unfolding ip_addr_ismulticast
  upper_layer netif src dest w s =
      if w.nexth == 59
      then some (free w.chain ∷ [], s)
      else if w.nexth == 17
      then elim (udp_input (udp_chksum odd) (ip_data netif src dest w) w.chain s) [
        | none ↦ none
        | some (calls, t) ↦ some (udp calls ∷ [], t)
      ]
      else if w.nexth == 6
      then some (tcp_input (ip_data netif src dest w) w.chain ∷ [], s)
      else if w.nexth == 58
      then some (icmp6_input (ip_data netif src dest w) w.chain ∷ [], s)
      else elim (pbuf_add_header_force w.chain w.hlen_tot) [
        | none ↦ none
        | some (failed, q) ↦ some (
          if ip_addr_ismulticast dest || w.first == 58
              then free q ∷ []
              else icmp6_param_problem header q ∷ free q ∷ [],
          s,
        )
      ]

  -- The addresses are those of the packet that came, also if `ip6_reass` put the last one together.
  unfoldable pub from_header :
      ℕ → Netif → IpAddr → IpAddr → List Pbuf → Udp → Option (List IpCall × Udp)
  unfolding walk upper_layer
  from_header rounds netif src dest p s = elim (fixed_header p) [
    | none ↦ none
    | some w ↦ elim (walk rounds dest w) [
      | none ↦ none
      | some (options_done v) ↦ upper_layer netif src dest v s
      | some (dropped calls) ↦ some (calls, s)
      | some (fragment v) ↦ none
    ]
  ]

  -- `none` is an assertion that fails, or more packets to put together than the bound.
  unfoldable pub ip6_input : ℕ → Netif → List Pbuf → Udp → Option (List IpCall × Udp)
  unfolding from_header ip_addr_ismulticast
  ip6_input rounds netif p s =
      if not (byte p 0 / 16 == 6)
      then some (free p ∷ [], s)
      else if ltb (first_len p) 40 || ltb (head_tot_len p) (40 + word p 4)
      then some (free p ∷ [], s)
      else elim (pbuf_realloc p (u16 (40 + word p 4))) [
        | none ↦ none
        | some q ↦
            if refused_addresses (address6 p 8) (address6 p 24)
            then some (free q ∷ [], s)
            else if unspecified (address6 p 8) (address6 p 24)
            then some (free q ∷ [], s)
            else from_header rounds netif (address6 p 8) (address6 p 24) q s
      ]
