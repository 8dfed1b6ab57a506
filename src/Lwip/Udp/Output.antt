-- ===== src/Lwip/Udp/Output.antt =====
-- The functions of src/lwip/src/core/udp.c that send. The route is that of the caller.
pub mod Packets
pub mod Sending
pub mod Exchange
use libn2t.Common.{
  ℕ, ◌+◌, ◌*◌, ◌/◌, ◌%◌, Bool, true, false, not, ◌&&◌, ◌||◌, List, [], ◌∷◌, ◌++◌, Option, none,
  some, take, drop, ltb, ◌==◌, if◌then◌else◌, u16,
}
use libn2t.Lwip.Addresses.{
  v4, v6, IpAddr, is_any_type, is_v6, same_type, ip_addr_isany, ip_addr_ismulticast, Netif,
  has_address,
}
use libn2t.Lwip.Pbuf.{Pbuf, Memory, ram, pbuf_alloc, pbuf_free}
use libn2t.Lwip.Pbuf.Headers.{pbuf_add_header}
use libn2t.Lwip.Pbuf.Chains.{pbuf_chain}
use libn2t.Lwip.Udp.{UdpErr, ok, mem, rte, val, is_ok, UdpPcb, Udp, bind_first}

-- IP_ADDR_PCB_VERSION_MATCH
abbrev pub version_match : UdpPcb → IpAddr → Bool
version_match p a = is_any_type p.local_ip || same_type p.local_ip.type a.type

-- A packet that goes to `ip_output_if_src`: the chain, the source, the destination, the time to live,
-- the type of service, whether a copy comes back, and the interface.
pub record Output : Type 0 where
  pub chain : List Pbuf
  pub src : IpAddr
  pub dest : IpAddr
  pub ttl : ℕ
  pub tos : ℕ
  pub multicast_loop : Bool
  pub netif : Netif

-- `left` is the chain of the caller.
pub record Sent : Type 0 where
  pub err : UdpErr
  pub left : List Pbuf
  pub outputs : List Output
  pub udp : Udp
  pub memory : Memory

abbrev pub be16 : ℕ → List ℕ
be16 n = n / 256 % 256 ∷ n % 256 ∷ []

-- The checksum is written as the machine has it, with its low byte first.
abbrev pub header_bytes : ℕ → ℕ → ℕ → ℕ → List ℕ
header_bytes src dest len chksum =
    be16 src ++ (be16 dest ++ (be16 len ++ (chksum % 256 ∷ chksum / 256 % 256 ∷ [])))

-- `none` is the assertion that the first pbuf holds the header.
abbrev pub write_header : List ℕ → List Pbuf → Option (List Pbuf)
write_header bytes [] = none
write_header bytes (q ∷ next) =
    if ltb q.len 8 then none else some (record q { payload = bytes ++ drop 8 q.payload } ∷ next)

abbrev pub total_len : List Pbuf → ℕ
total_len [] = 0
total_len (q ∷ next) = q.tot_len

-- The packet with room for its header in front, and whether that is in a new pbuf; PBUF_IP asks for
-- 14 + 40 bytes of room. `some none` is ERR_MEM.
abbrev pub add_udp_header : List Pbuf → Memory → Option (Option (List Pbuf × Bool × Memory))
add_udp_header p m = elim (pbuf_add_header p 8) [
  | none ↦ none
  | some (false, q) ↦ some (some (q, false, m))
  | some (true, same) ↦ elim (pbuf_alloc 54 8 ram m) [
    | none ↦ some none
    | some (q, left) ↦
        if total_len p == 0 then some (some (q, true, left)) else elim (pbuf_chain q p) [
          | none ↦ none
          | some (chain, tail) ↦ some (some (chain, true, left))
        ]
  ]
]

-- A new pbuf for the header is freed, and with it its reference to the chain of the caller.
abbrev pub after_output : List Pbuf → Bool → List Pbuf → Option (List Pbuf)
after_output p false q = some q
after_output p true q = elim (pbuf_free q) [
  | none ↦ none
  | some (count, left) ↦ some (if total_len p == 0 then p else left)
]

-- In the checksum field, 0 means that there is none.
abbrev pub sent_chksum : ℕ → ℕ
sent_chksum c = if c == 0 then 65535 else c

-- `ip_chksum_pseudo` as for `udp_input`, and what `ip_output_if_src` returns.
module _ (ip_chksum_pseudo : List Pbuf → IpAddr → IpAddr → ℕ) (result : UdpErr) where
  -- The header with the checksum that is taken of the packet whose field holds 0.
  abbrev pub fill_header : UdpPcb → ℕ → IpAddr → IpAddr → List Pbuf → Option (List Pbuf)
  fill_header u dst_port src_ip dst_ip q =
      elim (write_header (header_bytes u.local_port dst_port (total_len q) 0) q) [
        | none ↦ none
        | some zeroed ↦
            if is_v6 dst_ip || not u.nochksum
            then write_header
                (header_bytes u.local_port dst_port (total_len q)
                  (sent_chksum (ip_chksum_pseudo zeroed src_ip dst_ip)))
                q
            else some zeroed
      ]

  abbrev pub to_output : UdpPcb → IpAddr → IpAddr → Netif → List Pbuf → Output
  to_output u src_ip dst_ip netif q = record {
    chain = q;
    src = src_ip;
    dest = dst_ip;
    ttl = if ip_addr_ismulticast dst_ip then u.mcast_ttl else u.ttl;
    tos = u.tos;
    multicast_loop = u.multicast_loop && ip_addr_ismulticast dst_ip;
    netif = netif;
  }

  abbrev pub fails : UdpErr → List Pbuf → Udp → Memory → Sent
  fails err p s m = record { err = err; left = p; outputs = []; udp = s; memory = m }

  -- The control block has a port.
  abbrev pub send_bound : ℕ → List Pbuf → IpAddr → ℕ → Netif → IpAddr → Udp → Memory → Option Sent
  send_bound i p dst_ip dst_port netif src_ip s m =
      if ltb (u16 (total_len p + 8)) (total_len p)
      then some (fails mem p s m)
      else elim (add_udp_header p m) [
        | none ↦ none
        | some none ↦ some (fails mem p s m)
        | some (some (room, new, m')) ↦ elim (fill_header (s.pcb i) dst_port src_ip dst_ip room) [
          | none ↦ none
          | some q ↦ elim (after_output p new q) [
            | none ↦ none
            | some left ↦ some (record {
              err = result;
              left = left;
              outputs = to_output (s.pcb i) src_ip dst_ip netif q ∷ [];
              udp = s;
              memory = m';
            })
          ]
        ]
      ]

  -- `none` is an assertion that fails, an empty chain among them.
  unfoldable pub udp_sendto_if_src :
      ℕ → List Pbuf → IpAddr → ℕ → Netif → IpAddr → Udp → Memory → Option Sent
  unfolding ip_addr_ismulticast
  udp_sendto_if_src i [] dst_ip dst_port netif src_ip s m = none
  udp_sendto_if_src i (head ∷ next) dst_ip dst_port netif src_ip s m =
      let p = head ∷ next in
      if not (version_match (s.pcb i) src_ip && version_match (s.pcb i) dst_ip)
      then some (fails val p s m)
      else elim (bind_first i s) [
        | none ↦ none
        | some (err, t) ↦
            if is_ok err
            then send_bound i p dst_ip dst_port netif src_ip t m
            else some (fails err p t m)
      ]

  -- The source for a block with its address, where a multicast address counts as none; `none` is
  -- ERR_RTE. `ip6_select_source_address` is an argument.
  unfoldable pub select_source :
      (Netif → IpAddr → Option IpAddr) → UdpPcb → IpAddr → Netif → Option IpAddr
  unfolding ip_addr_ismulticast
  select_source select u dst_ip netif =
      if is_v6 dst_ip
      then (if u.local_ip.addr == 0
            || ip_addr_ismulticast (record { type = v6; addr = u.local_ip.addr })
          then select netif dst_ip
          else if has_address u.local_ip.addr netif.ip6_addrs
          then some u.local_ip
          else none)
      else if u.local_ip.addr == 0
          || ip_addr_ismulticast (record { type = v4; addr = u.local_ip.addr })
      then some (record { type = v4; addr = netif.ip4_addr })
      else if u.local_ip.addr == netif.ip4_addr
      then some u.local_ip
      else none

  unfoldable pub udp_sendto_if :
      (Netif → IpAddr → Option IpAddr)
      → ℕ
      → List Pbuf
      → IpAddr
      → ℕ
      → Netif
      → Udp
      → Memory
      → Option Sent
  unfolding udp_sendto_if_src select_source
  udp_sendto_if select i p dst_ip dst_port netif s m =
      if not (version_match (s.pcb i) dst_ip)
      then some (fails val p s m)
      else elim (select_source select (s.pcb i) dst_ip netif) [
        | none ↦ some (fails rte p s m)
        | some src_ip ↦ udp_sendto_if_src i p dst_ip dst_port netif src_ip s m
      ]
