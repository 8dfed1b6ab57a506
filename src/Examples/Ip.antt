-- ===== src/Examples/Ip.antt =====
-- Examples of the way of a datagram through IP.
use libn2t.Common.{ℕ, Bool, ◌≡◌, refl, inl, inr, false, List, [], ◌∷◌, Option, none, some, arith}
use libn2t.Lwip.Addresses.{
  v4, v6, ip_addr_ismulticast, ip_addr_isbroadcast, ip4_addr_isbroadcast_u32, ip4_addr_netcmp,
}
use libn2t.Lwip.Pbuf.{Pbuf, Memory}
use libn2t.Lwip.Checksum.Sum.{reduce, AreBytes}
use libn2t.Lwip.Udp.{mem, Udp}
use libn2t.Lwip.Udp.Input.{call_recv}
use libn2t.Lwip.Udp.Output.{Output, Sent, udp_sendto_if_src}
use libn2t.Lwip.Udp.Output.Exchange.{udp_chksum}
use libn2t.Lwip.Ip.{udp, bad_source}
use libn2t.Lwip.Dispatch.{ip_input, current_dest}
use libn2t.Lwip.Dispatch.Delivery.{four, six, IsGood}
use libn2t.Lwip.Ip6.Extension.{pad1, tlv, hop_by_hop, destination, AreSkipped}
use libn2t.Lwip.Ip6.Datagram.{Datagram6, to_bytes6, IsValid6}
use libn2t.Lwip.Checksum.Pseudo.{bytes_v6}
use libn2t.Examples.Bytes.{are_bytes-AreBytes}
use libn2t.Lwip.Ip.Datagram.{Datagram, to_bytes, IsValid}
use libn2t.Utils.Pbuf.Pool.{pool_api}
use libn2t.UdpSession.State.{UdpPacket}
use libn2t.Socket.State.{ok}
use libn2t.N2t.State.{N2t, IpApi, new, netif_input, sendto, free_pbuf}
use libn2t.N2t.{input, udp_cb, output_cb, udp_send}
use libn2t.N2t.Arrival.{input-udp_cb}
use libn2t.N2t.Reception.{set_up, take_all, queued, IsTaken, set_up-take_all}
use libn2t.N2t.Departure6.{udp_send6-output_cb}
use libn2t.Lwip.Ip6.Output.{output_ip6}
use libn2t.Lwip.Ip6.Output.Sending.{ip6_output}
use libn2t.Examples.Packets.{zeros, length-zeros, memory, memory-AreElements}
use libn2t.Examples.Datagrams.{granted, blocks, tun}

-- From port 4660 of 10.0.0.2 to port 53 of 8.8.8.8, with two bytes.
abbrev query : Datagram
query = record {
  tos = 0;
  id = 7;
  offset = 0;
  ttl = 64;
  ip_chksum = 46944;
  src = 167772162;
  dest = 134744072;
  options = [];
  src_port = 4660;
  dst_port = 53;
  udp_chksum = 63082;
  payload = 104 ∷ 105 ∷ [];
}

query-AreBytes : AreBytes (to_bytes query)
query-AreBytes = are_bytes-AreBytes (to_bytes query) refl

query-IsValid : IsValid query
unfolding reduce
query-IsValid = record {
  bytes = query-AreBytes;
  lengths = omega arith;
  options_fit = omega arith;
  options_aligned = refl;
  addresses = (omega arith, omega arith);
  ports = (omega arith, omega arith, omega arith);
  no_fragment = refl;
  ip_sum = refl;
  udp_sum = inr refl;
}

query-source : bad_source (record { type = v4; addr = 167772162 }) tun ≡ false
unfolding ip_addr_ismulticast ip_addr_isbroadcast ip4_addr_isbroadcast_u32 ip4_addr_netcmp
query-source = refl

abbrev even : Pbuf → Bool
even p = false

abbrev no_reass : List Pbuf → Option (List Pbuf)
no_reass p = none

abbrev no_reass6 : ℕ → List Pbuf → Option (List Pbuf)
no_reass6 len p = none

-- From port 4660 of fd00::2 to port 53 of 2001:4860:4860::8888, behind a header for every router, with
-- a router alert and padding, and one for the destination, with padding.
abbrev query6 : Datagram6
query6 = record {
  traffic = 0;
  hop_limit = 64;
  src = 336294682933583715844663186250927177730;
  dest = 42541956123769884636017138956568135816;
  extensions =
      hop_by_hop (tlv 5 (0 ∷ 0 ∷ []) ∷ pad1 ∷ pad1 ∷ [])
      ∷ destination (tlv 1 (0 ∷ 0 ∷ 0 ∷ 0 ∷ []) ∷ [])
      ∷ [];
  src_port = 4660;
  dst_port = 53;
  udp_chksum = 47950;
  payload = 104 ∷ 105 ∷ [];
}

query6-AreBytes : AreBytes (to_bytes6 query6)
query6-AreBytes = are_bytes-AreBytes (to_bytes6 query6) refl

query6-AreSkipped : AreSkipped query6.extensions
query6-AreSkipped = (
  ((omega arith, inl (omega arith)), (tt, (tt, tt))),
  refl,
  omega arith,
  omega arith,
  (((omega arith, inl (omega arith)), tt), refl, omega arith, omega arith, tt),
)

query6-IsValid : IsValid6 query6
unfolding reduce
query6-IsValid = record {
  bytes = query6-AreBytes;
  lengths = omega arith;
  headers = query6-AreSkipped;
  traffic_fits = omega arith;
  addresses = (omega arith, omega arith);
  ports = (omega arith, omega arith, omega arith);
  udp_sum = refl;
}

query6-IsGood : IsGood tun (six query6)
unfolding ip_addr_ismulticast
query6-IsGood = (query6-IsValid, refl, refl, omega arith)

abbrev same_text : List ℕ → List ℕ
same_text a = a

input-udp_cb_example :
    (p : List Pbuf) × (q : List Pbuf) × (t : Udp) × (input
        (pool_api memory)
        (to_bytes6 query6)
        ok
        new
      ≡ record { state = new; effects = netif_input p ∷ []; thrown = false })
    × (ip_input even no_reass no_reass6 1 tun p blocks
        ≡ some
            (udp (call_recv 7 2 1 q (record { type = v6; addr = query6.src }) 4660 ∷ []) ∷ [], t))
    × (current_dest p ≡ record { type = v6; addr = query6.dest })
    × ((udp_cb same_text
          (bytes_v6 query6.src)
          4660
          (bytes_v6 query6.dest)
          q
          (record new { upcb_port = (t.pcb 1).local_port })).state.udp_que
        ≡ (record {
          src_addr = bytes_v6 query6.src;
          src_port = 4660;
          dst_addr = bytes_v6 query6.dest;
          dst_port = 53;
          payload = 104 ∷ 105 ∷ [];
        })
          ∷ [])
unfolding new
input-udp_cb_example =
    input-udp_cb even no_reass no_reass6 0 tun memory same_text (six query6) ok blocks 1 7 [] new
      memory-AreElements query6-IsGood (omega arith) refl refl refl refl

-- A pool, and blocks of the heap of any size.
abbrev with_heap : Memory
with_heap = record memory { heap = λ n. some (zeros n) }

-- The text of an address is its bytes.
abbrev texts : IpApi
texts = record { ntoa = same_text; aton = λ t. some t }

abbrev answer : UdpPacket
answer = record {
  src_addr = 8 ∷ 8 ∷ 8 ∷ 8 ∷ [];
  src_port = 14514;
  dst_addr = 10 ∷ 0 ∷ 0 ∷ 2 ∷ [];
  dst_port = 4660;
  payload = 104 ∷ 105 ∷ [];
}

abbrev answer6 : UdpPacket
answer6 = record {
  src_addr = bytes_v6 query6.dest;
  src_port = 14514;
  dst_addr = bytes_v6 query6.src;
  dst_port = 4660;
  payload = 104 ∷ 105 ∷ [];
}

udp_send6-output_cb_example :
    (p : List Pbuf) × (sent : Sent) × (o : Output) × (q : List Pbuf) × (d : Datagram6) × (udp_send
        (pool_api with_heap)
        texts
        []
        []
        answer6
        new
      ≡ record {
        state = record new { upcb_port = 14514 };
        effects =
            sendto p (bytes_v6 query6.src) 4660 (bytes_v6 query6.dest) 14514 ∷ free_pbuf p ∷ [];
        thrown = false;
      })
    × (udp_sendto_if_src
          (udp_chksum even)
          mem
          1
          p
          (record { type = v6; addr = query6.src })
          4660
          tun
          (record { type = v6; addr = query6.dest })
          blocks
          with_heap
        ≡ some sent)
    × (sent.outputs ≡ o ∷ [])
    × (ip6_output o 1500 1500 ≡ some (output_ip6 q))
    × ((output_cb q new).state.output_que ≡ to_bytes6 d ∷ [])
    × IsValid6 d
    × (d.src ≡ query6.dest)
    × (d.dest ≡ query6.src)
    × (d.src_port ≡ 14514)
    × (d.dst_port ≡ 4660)
    × (d.payload ≡ 104 ∷ 105 ∷ [])
unfolding new
udp_send6-output_cb_example =
    udp_send6-output_cb even texts [] [] answer6 mem with_heap (zeros 64) tun blocks 1 query6.dest
      query6.src 1500 1500 new memory-AreElements (omega arith) refl (length-zeros 64)
      (omega arith, (omega arith, tt)) (omega arith) (inr (omega arith)) refl refl
      (omega arith, omega arith) refl refl (omega arith) (omega arith, omega arith)
      (omega arith, omega arith, omega arith) refl

-- A datagram of IPv4 and one of IPv6, on a stack that has no control block yet.
abbrev no_blocks : Udp
no_blocks = record blocks { udp_pcbs = [] }

query-IsTaken : IsTaken tun memory (four query)
query-IsTaken = ((query-IsValid, query-source), omega arith)

query6-IsTaken : IsTaken tun memory (six query6)
query6-IsTaken = (query6-IsGood, omega arith)

set_up-take_all_example :
    (t u : Udp) × (n' : N2t) × (set_up (some 1) tun 7 2 no_blocks ≡ some (1, granted, t))
    × (take_all even no_reass no_reass6 0 tun same_text
          (to_bytes query ∷ to_bytes6 query6 ∷ [])
          (t, new, memory)
        ≡ some (u, n', memory))
    × (n'.udp_que ≡ queued same_text (four query) ∷ queued same_text (six query6) ∷ [])
unfolding new
set_up-take_all_example =
    set_up-take_all even no_reass no_reass6 0 tun same_text memory 1 7 2 no_blocks new
      (four query ∷ six query6 ∷ []) memory-AreElements refl refl
      (query-IsTaken, (query6-IsTaken, tt))
