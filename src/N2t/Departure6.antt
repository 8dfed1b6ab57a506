-- ===== src/N2t/Departure6.antt =====
-- A datagram of IPv6 on its way from `udp_send` through UDP and IP to the queue of packets.
use libn2t.Common.{
  ℕ, ◌+◌, ◌*◌, ◌≡◌, ◌<◌, ◌≤◌, ◌⊎◌, refl, sym, ap, ◌∙◌, Bool, false, true, ◌&&◌, List, [], ◌∷◌, ◌++◌,
  none, some, length, arith,
}
use libn2t.Lwip.Addresses.{v6, Netif, ip_any_type}
use libn2t.Lwip.Pbuf.{Pbuf, Memory, content, total, IsPacket}
use libn2t.Lwip.Pbuf.Alloc.{AreElements, first_front, first_ref}
use libn2t.Lwip.Pbuf.Bytes.Slices.{length-content}
use libn2t.Lwip.Checksum.Sum.{AreBytes}
use libn2t.Lwip.Checksum.Pseudo.{bytes_v6}
use libn2t.Lwip.Udp.{UdpErr, Udp}
use libn2t.Lwip.Udp.Output.{Output, Sent, version_match, udp_sendto_if_src}
use libn2t.Lwip.Udp.Output.Exchange.{udp_chksum}
use libn2t.Lwip.Ip6.Datagram.{Datagram6, to_bytes6, IsValid6}
use libn2t.Lwip.Ip6.Output.{output_ip6}
use libn2t.Lwip.Ip6.Output.Sending.{ip6_output, udp_sendto_if_src-ip6_output_if_src}
use libn2t.Utils.Pbuf.Pool.{pool_api, str_to_pbuf-pool, str_to_pbuf-IsPacket}
use libn2t.UdpSession.State.{UdpPacket}
use libn2t.N2t.State.{N2t, IpApi, sendto, free_pbuf}
use libn2t.N2t.{output_cb, udp_send}
use libn2t.N2t.Departure.{udp_send-calls, output_cb-queues}

-- The theorem of Ip6/Output/Sending for a chain that holds some bytes and a block that has any address.
chain6-output :
    (odd : Pbuf → Bool) (result : UdpErr) (p : List Pbuf) (payload : List ℕ)
    (src dest src_port dst_port : ℕ) (netif : Netif) (s : Udp) (i : ℕ) (m : Memory) (block : List ℕ)
    (mtu dest_mtu : ℕ)
    → IsPacket p
    → content p ≡ payload
    → first_front p ≡ []
    → first_ref p ≡ 1
    → m.heap 64 ≡ some block
    → length block ≡ 64
    → AreBytes payload
    → length payload + 48 < 65536
    → (mtu ≡ 0) ⊎ (length payload + 48 ≤ dest_mtu)
    → (src < 340282366920938463463374607431768211456)
      × (dest < 340282366920938463463374607431768211456)
    → (s.pcb i).local_ip ≡ ip_any_type
    → (s.pcb i).local_port ≡ src_port
    → 0 < src_port
    → (src_port < 65536) × (dst_port < 65536)
    → ((s.pcb i).tos < 256) × ((s.pcb i).ttl < 256) × ((s.pcb i).mcast_ttl < 256)
    → (sent : Sent) × (o : Output) × (q : List Pbuf) × (d : Datagram6) × (udp_sendto_if_src
          (udp_chksum odd)
          result
          i
          p
          (record { type = v6; addr = dest })
          dst_port
          netif
          (record { type = v6; addr = src })
          s
          m
        ≡ some sent)
      × (sent.outputs ≡ o ∷ [])
      × (ip6_output o mtu dest_mtu ≡ some (output_ip6 q))
      × (content q ≡ to_bytes6 d)
      × IsValid6 d
      × (d.src ≡ src)
      × (d.dest ≡ dest)
      × (d.src_port ≡ src_port)
      × (d.dst_port ≡ dst_port)
      × (d.payload ≡ payload)
chain6-output odd result [] payload src dest src_port dst_port netif s i m block mtu dest_mtu packet
      same front ref given len bytes small fits addresses any_ip port_eq port ports hops =
    absurd (omega (arith, ref))
chain6-output odd result (head ∷ next) payload src dest src_port dst_port netif s i m block mtu
      dest_mtu packet same front ref given len bytes small fits addresses any_ip port_eq port ports
      hops =
    let n_eq : length payload ≡ total (head ∷ next) =
      ap length (sym same) ∙ length-content (head ∷ next) packet in
    let match : (version_match (s.pcb i) (record { type = v6; addr = src })
          && version_match (s.pcb i) (record { type = v6; addr = dest }))
        ≡ true =
      rw any_ip refl in
    let (sent, o, p, c, sends, out, goes, is, valid) =
      udp_sendto_if_src-ip6_output_if_src odd result i head next src dest dst_port netif s m block
        mtu dest_mtu packet (rw (sym n_eq) small) (rw front (omega arith)) given len
        (rw ref (omega arith)) match (rw port_eq port) (rw port_eq ports.0, ports.1) hops addresses
        (rw same bytes) (rw (sym n_eq) fits) in
    (sent, o, p, _, sends, out, goes, is, valid, refl, refl, port_eq, refl, same)

-- A datagram for an application, with two addresses of IPv6, goes from `udp_send` to the queue of
-- packets: if `udp_send` has its bytes in pbufs of the pool, there is memory for the header, the
-- control block is bound to any address and has the source port, which is not 0, the packet with its
-- headers is shorter than 65536 bytes and no longer than the MTU of the way, or the interface has none,
-- and no handler waits, then `udp_send` calls UDP once, UDP makes one packet of IPv6, and what is
-- appended to the queue are the bytes of a well-formed datagram whose checksum is right, with the
-- addresses, ports and bytes of the one that was sent.
pub udp_send6-output_cb :
    (odd : Pbuf → Bool) (ip : IpApi) (garbage_src garbage_dst : List ℕ) (packet : UdpPacket)
    (result : UdpErr) (m : Memory) (block : List ℕ) (netif : Netif) (s : Udp)
    (i src dest mtu dest_mtu : ℕ) (n : N2t)
    → AreElements m.pool
    → length packet.payload < 1516 * length m.pool
    → m.heap 64 ≡ some block
    → length block ≡ 64
    → AreBytes packet.payload
    → length packet.payload + 48 < 65536
    → (mtu ≡ 0) ⊎ (length packet.payload + 48 ≤ dest_mtu)
    → ip.aton packet.src_addr ≡ some (bytes_v6 src)
    → ip.aton packet.dst_addr ≡ some (bytes_v6 dest)
    → (src < 340282366920938463463374607431768211456)
      × (dest < 340282366920938463463374607431768211456)
    → (s.pcb i).local_ip ≡ ip_any_type
    → (s.pcb i).local_port ≡ packet.src_port
    → 0 < packet.src_port
    → (packet.src_port < 65536) × (packet.dst_port < 65536)
    → ((s.pcb i).tos < 256) × ((s.pcb i).ttl < 256) × ((s.pcb i).mcast_ttl < 256)
    → n.output ≡ none
    → (p : List Pbuf) × (sent : Sent) × (o : Output) × (q : List Pbuf) × (d : Datagram6) × (udp_send
          (pool_api m)
          ip
          garbage_src
          garbage_dst
          packet
          n
        ≡ record {
          state = record n { upcb_port = packet.src_port };
          effects =
              sendto p (bytes_v6 dest) packet.dst_port (bytes_v6 src) packet.src_port
              ∷ free_pbuf p
              ∷ [];
          thrown = false;
        })
      × (udp_sendto_if_src
            (udp_chksum odd)
            result
            i
            p
            (record { type = v6; addr = dest })
            packet.dst_port
            netif
            (record { type = v6; addr = src })
            s
            m
          ≡ some sent)
      × (sent.outputs ≡ o ∷ [])
      × (ip6_output o mtu dest_mtu ≡ some (output_ip6 q))
      × ((output_cb q n).state.output_que ≡ n.output_que ++ to_bytes6 d ∷ [])
      × IsValid6 d
      × (d.src ≡ src)
      × (d.dest ≡ dest)
      × (d.src_port ≡ packet.src_port)
      × (d.dst_port ≡ packet.dst_port)
      × (d.payload ≡ packet.payload)
udp_send6-output_cb odd ip garbage_src garbage_dst packet result m block netif s i src dest mtu
      dest_mtu n elements enough given len bytes small fits src_eq dst_eq addresses any_ip port_eq
      port ports hops idle =
    let (p, made, text) =
      str_to_pbuf-pool m elements packet.payload (omega (arith, small)) enough in
    let (packet', same, some_bytes, front, ref) =
      str_to_pbuf-IsPacket m elements packet.payload p 0 (omega (arith, small)) made (omega arith)
        (omega arith) in
    let (
      sent, o, q, d, sends, out, goes, is, valid, same_src, same_dest, same_src_port, same_dst_port,
      same_bytes,
    ) =
      chain6-output odd result p packet.payload src dest packet.src_port packet.dst_port netif s i m
        block mtu dest_mtu packet' same front ref given len bytes small fits addresses any_ip
        port_eq port ports hops in
    (
      p,
      sent,
      o,
      q,
      d,
      udp_send-calls (pool_api m) ip garbage_src garbage_dst packet n p (bytes_v6 src)
          (bytes_v6 dest) made src_eq dst_eq,
      sends,
      out,
      goes,
      output_cb-queues q n idle ∙ ap (λ l. n.output_que ++ l ∷ []) is,
      valid,
      same_src,
      same_dest,
      same_src_port,
      same_dst_port,
      same_bytes,
    )
