-- ===== src/Lwip/Ip6/Output/Sending.antt =====
-- What `udp_sendto_if_src` and then `ip6_output_if_src` put out is a well-formed datagram.
use libn2t.Common.{
  ℕ, ◌+◌, ◌≡◌, ◌<◌, ◌≤◌, refl, ◌∙◌, ◌⊎◌, Bool, true, ◌&&◌, List, [], ◌∷◌, Option, some, length,
  arith, if◌then◌else◌,
}
use libn2t.Lwip.Addresses.{v6, Netif, ip_addr_ismulticast}
use libn2t.Lwip.Pbuf.{Pbuf, Memory, content, total, IsPacket}
use libn2t.Lwip.Pbuf.Bytes.Slices.{length-content}
use libn2t.Lwip.Checksum.Sum.{AreBytes}
use libn2t.Lwip.Udp.{UdpErr, UdpPcb, Udp}
use libn2t.Lwip.Udp.Input.{IpData}
use libn2t.Lwip.Udp.Output.{Output, Sent, version_match, udp_sendto_if_src}
use libn2t.Lwip.Udp.Output.Sending.{send_bound_lem, sendto-bound, not_zero}
use libn2t.Lwip.Udp.Output.Exchange.{udp_chksum, udp_chksum-Verifies}
use libn2t.Lwip.Ip6.Datagram.{to_bytes6, IsValid6}
use libn2t.Lwip.Ip6.Output.{Ip6Output, output_ip6, ip6_output_if_src}
use libn2t.Lwip.Ip6.Output.WellFormed.{sent_datagram6, put_out6, sent-IsValid6}

-- What an `Output` of UDP becomes on an interface, where 17 is IP6_NEXTH_UDP.
abbrev pub ip6_output : Output → ℕ → ℕ → Option Ip6Output
ip6_output o mtu dest_mtu =
    ip6_output_if_src o.chain o.src.addr o.dest.addr o.ttl o.tos 17 mtu dest_mtu

abbrev pub sent_hops : UdpPcb → ℕ → ℕ
sent_hops u dest =
    if ip_addr_ismulticast (record { type = v6; addr = dest }) then u.mcast_ttl else u.ttl

sent_hops_le : (u : UdpPcb) (dest : ℕ) → u.ttl < 256 → u.mcast_ttl < 256 → sent_hops u dest < 256
sent_hops_le u dest h k = ground arith

-- If a control block has a port and matches the family of IPv6, a packet of bytes that has no room in
-- front of its first pbuf, and that with 48 bytes more is shorter than 65536 bytes and no longer than
-- the MTU of the way, goes out in one packet of IPv6: a well-formed datagram whose checksum is right,
-- with the addresses, the port of the block, the destination port and the bytes of the caller.
pub udp_sendto_if_src-ip6_output_if_src :
    (odd : Pbuf → Bool) (result : UdpErr) (i : ℕ) (head : Pbuf) (next : List Pbuf)
    (src dest dst_port : ℕ) (netif : Netif) (s : Udp) (m : Memory) (block : List ℕ)
    (mtu dest_mtu : ℕ)
    → IsPacket (head ∷ next)
    → total (head ∷ next) + 48 < 65536
    → length head.front < 8
    → m.heap 64 ≡ some block
    → length block ≡ 64
    → head.ref < 255
    → (version_match (s.pcb i) (record { type = v6; addr = src })
        && version_match (s.pcb i) (record { type = v6; addr = dest }))
      ≡ true
    → 0 < (s.pcb i).local_port
    → ((s.pcb i).local_port < 65536) × (dst_port < 65536)
    → ((s.pcb i).tos < 256) × ((s.pcb i).ttl < 256) × ((s.pcb i).mcast_ttl < 256)
    → (src < 340282366920938463463374607431768211456)
      × (dest < 340282366920938463463374607431768211456)
    → AreBytes (content (head ∷ next))
    → (mtu ≡ 0) ⊎ (total (head ∷ next) + 48 ≤ dest_mtu)
    → (sent : Sent) × (o : Output) × (p : List Pbuf) × (c : ℕ) × (udp_sendto_if_src
          (udp_chksum odd)
          result
          i
          (head ∷ next)
          (record { type = v6; addr = dest })
          dst_port
          netif
          (record { type = v6; addr = src })
          s
          m
        ≡ some sent)
      × (sent.outputs ≡ o ∷ [])
      × (ip6_output o mtu dest_mtu ≡ some (output_ip6 p))
      × (content p
          ≡ to_bytes6 (
              sent_datagram6
                (s.pcb i)
                (sent_hops (s.pcb i) dest)
                src
                dest
                dst_port
                c
                (content (head ∷ next))))
      × IsValid6 (
          sent_datagram6
            (s.pcb i)
            (sent_hops (s.pcb i) dest)
            src
            dest
            dst_port
            c
            (content (head ∷ next)))
udp_sendto_if_src-ip6_output_if_src odd result i head next src dest dst_port netif s m block mtu
      dest_mtu packet small few_left given len few match port ports hops addresses are_bytes fits =
    let u : UdpPcb = s.pcb i in
    let there : IpData = record {
      netif = netif;
      src = record { type = v6; addr = src };
      dest = record { type = v6; addr = dest };
      header_tot_len = 0;
    } in
    let (
      sent,
      q,
      more,
      sends,
      err,
      out,
      packet',
      long,
      bytes,
      right,
      w0,
      w2,
      tot_len,
      (c, header),
      fresh,
      summed,
    ) =
      send_bound_lem (udp_chksum odd) (udp_chksum-Verifies odd) result i head next there dst_port
        netif s m block packet (omega (arith, small)) given len few ports.0 ports.1 are_bytes in
    let (one, room, contiguous) = fresh few_left in
    let n_eq : length (content (head ∷ next)) ≡ total (head ∷ next) =
      length-content (head ∷ next) packet in
    let size : q.tot_len ≡ 8 + length (content (head ∷ next)) = omega (arith, n_eq, tot_len) in
    let small' : length (content (head ∷ next)) + 48 < 65536 = rw n_eq small in
    let low : sent_hops u dest < 256 = sent_hops_le u dest hops.1 hops.2 in
    let (p, goes, same) =
      put_out6 odd u (sent_hops u dest) src dest dst_port c (content (head ∷ next)) q more packet'
        header size small' are_bytes hops.0 low ports addresses mtu dest_mtu one room contiguous
        (rw n_eq fits) in
    (
      sent,
      _,
      p,
      c,
      sendto-bound (udp_chksum odd) (udp_chksum-Verifies odd) result i head next there.dest dst_port
            netif there.src s m match
            (not_zero (udp_chksum odd) (udp_chksum-Verifies odd) u.local_port port)
          ∙ sends,
      out,
      goes,
      same,
      sent-IsValid6 odd u (sent_hops u dest) src dest dst_port c (content (head ∷ next)) q more
          packet' header size small' are_bytes hops.0 low ports addresses (summed refl),
    )
