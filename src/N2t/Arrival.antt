-- ===== src/N2t/Arrival.antt =====
-- A packet of the TUN device on its way through `input`, IP, UDP and the callback.
use libn2t.Common.{
  ℕ, suc, ◌*◌, ◌≡◌, ◌<◌, refl, ap, ap₂, ◌∙◌, Bool, false, true, List, [], ◌∷◌, ◌++◌, Option, none,
  some, length, arith,
}
use libn2t.Lwip.Addresses.{Netif}
use libn2t.Lwip.Pbuf.{Pbuf, Memory}
use libn2t.Lwip.Pbuf.Alloc.{AreElements}
use libn2t.Lwip.Checksum.Pseudo.{address_bytes}
use libn2t.Lwip.Udp.{Udp}
use libn2t.Lwip.Udp.Input.{call_recv}
use libn2t.Lwip.Ip.{udp}
use libn2t.Lwip.Dispatch.{ip_input, current_dest}
use libn2t.Lwip.Dispatch.Delivery.{
  AnyDatagram, IsGood, bytes_of, headers_length, source_of, dest_of, source_port, dest_port,
  payload_of, sizes, ip_input_lem,
}
use libn2t.Utils.Pbuf.{PbufApi, str_to_pbuf}
use libn2t.Utils.Pbuf.Pool.{pool_api, str_to_pbuf-pool, str_to_pbuf-IsPacket}
use libn2t.Socket.State.{Err, is_ok}
use libn2t.N2t.State.{N2t, netif_input}
use libn2t.N2t.{input, udp_cb}
use libn2t.N2t.Datagrams.{packet_of, udp_cb-queues}

input-taken :
    (api : PbufApi) (packet : List ℕ) (e : Err) (n : N2t) (p : List Pbuf)
    → str_to_pbuf api packet ≡ some p
    → is_ok e ≡ true
    → input api packet e n ≡ record { state = n; effects = netif_input p ∷ []; thrown = false }
unfolding input
input-taken api packet e n p made fits = rw (made, input) (rw fits refl)

-- A packet of either version of IP goes from the TUN device to the queue of datagrams. If it is a
-- well-formed datagram whose checksums are right, of IPv4 with a source that is neither a broadcast nor
-- a multicast address, or of IPv6 with extension headers that are skipped, if any, and at most 1516
-- bytes of headers, with addresses that are not IPv4-mapped, a source that is no multicast address, and
-- `::` as its source only if the destination is a solicited-node address; and if the pool has room for
-- it, `netif.input` reports no error, the control block of the boundary is the first of lwIP's and no
-- handler waits: then `input` passes it to lwIP, which calls the callback once, and that appends one
-- entry to the queue, with the addresses, ports and bytes of the datagram.
pub input-udp_cb :
    (odd : Pbuf → Bool) (ip4_reass : List Pbuf → Option (List Pbuf))
    (ip6_reass : ℕ → List Pbuf → Option (List Pbuf)) (rounds : ℕ) (netif : Netif) (m : Memory)
    (ntoa : List ℕ → List ℕ) (d : AnyDatagram) (e : Err) (s : Udp) (i f : ℕ) (rest : List ℕ)
    (n : N2t)
    → AreElements m.pool
    → IsGood netif d
    → length (bytes_of d) < 1516 * length m.pool
    → is_ok e ≡ true
    → s.udp_pcbs ≡ i ∷ rest
    → (s.pcb i).recv ≡ some f
    → n.udp_recv ≡ none
    → (p : List Pbuf) × (q : List Pbuf) × (t : Udp) × (input (pool_api m) (bytes_of d) e n
        ≡ record { state = n; effects = netif_input p ∷ []; thrown = false })
      × (ip_input odd ip4_reass ip6_reass (suc rounds) netif p s
          ≡ some
              (udp (call_recv f (s.pcb i).recv_arg i q (source_of d) (source_port d) ∷ []) ∷ [], t))
      × (current_dest p ≡ dest_of d)
      × ((udp_cb ntoa
            (address_bytes (source_of d))
            (source_port d)
            (address_bytes (dest_of d))
            q
            (record n { upcb_port = (t.pcb i).local_port })).state.udp_que
          ≡ n.udp_que
            ++ (record {
              src_addr = ntoa (address_bytes (source_of d));
              src_port = source_port d;
              dst_addr = ntoa (address_bytes (dest_of d));
              dst_port = dest_port d;
              payload = payload_of d;
            })
              ∷ [])
unfolding packet_of
input-udp_cb odd ip4_reass ip6_reass rounds netif m ntoa d e s i f rest n elements good enough fits
      listed registered idle =
    let (size, long, short) = sizes netif d good in
    let (p, made, text) = str_to_pbuf-pool m elements (bytes_of d) size enough in
    let (packet, same, room, front, ref) =
      str_to_pbuf-IsPacket m elements (bytes_of d) p (headers_length d) size made long
        (omega (arith, short)) in
    let (q, t, calls, bytes, block, pcbs, dest) =
      ip_input_lem odd ip4_reass ip6_reass rounds netif d p s i f rest packet same good room listed
        registered in
    (
      p,
      q,
      t,
      input-taken (pool_api m) (bytes_of d) e n p made fits,
      calls,
      dest,
      udp_cb-queues ntoa (address_bytes (source_of d)) (source_port d) (address_bytes (dest_of d)) q
            (record n { upcb_port = (t.pcb i).local_port }) idle
          ∙ ap₂
              (λ port b.
                n.udp_que
                ++ packet_of ntoa (address_bytes (source_of d)) (source_port d)
                    (address_bytes (dest_of d)) port b
                  ∷ [])
              (ap (λ b. b.local_port) block) bytes,
    )
