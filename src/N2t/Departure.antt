-- ===== src/N2t/Departure.antt =====
-- A datagram on its way from `udp_send` through UDP and IP to the queue of packets.
use libn2t.Common.{ℕ, ◌≡◌, refl, false, List, [], ◌∷◌, ◌++◌, none, some}
use libn2t.Lwip.Pbuf.{Pbuf, content}
use libn2t.Lwip.Udp.{Udp}
use libn2t.Lwip.Udp.Output.{Output}
use libn2t.Lwip.Ip.{output}
use libn2t.Lwip.Ip.Datagram.{Datagram}
use libn2t.Utils.Pbuf.{PbufApi, str_to_pbuf}
use libn2t.Utils.Pbuf.Pool.{pbuf_to_str-content}
use libn2t.UdpSession.State.{UdpPacket}
use libn2t.N2t.State.{N2t, IpApi, sendto, free_pbuf}
use libn2t.N2t.{output_cb, aton_or, udp_send}

pub udp_send-calls :
    (api : PbufApi) (ip : IpApi) (garbage_src garbage_dst : List ℕ) (packet : UdpPacket) (n : N2t)
    (p : List Pbuf) (src dest : List ℕ)
    → str_to_pbuf api packet.payload ≡ some p
    → ip.aton packet.src_addr ≡ some src
    → ip.aton packet.dst_addr ≡ some dest
    → udp_send api ip garbage_src garbage_dst packet n ≡ record {
      state = record n { upcb_port = packet.src_port };
      effects = sendto p dest packet.dst_port src packet.src_port ∷ free_pbuf p ∷ [];
      thrown = false;
    }
unfolding udp_send
udp_send-calls api ip garbage_src garbage_dst packet n p src dest made src_eq dst_eq =
    rw (made, udp_send) (rw (src_eq, aton_or) (rw (dst_eq, aton_or) refl))

pub output_cb-queues :
    (p : List Pbuf) (n : N2t)
    → n.output ≡ none
    → (output_cb p n).state.output_que ≡ n.output_que ++ content p ∷ []
unfolding output_cb
output_cb-queues p n idle = rw idle (rw (pbuf_to_str-content p) refl)
