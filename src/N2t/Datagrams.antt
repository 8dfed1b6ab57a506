-- ===== src/N2t/Datagrams.antt =====
-- A datagram on its way from lwIP to the queue of the boundary.
use libn2t.Common.{ℕ, ◌≡◌, ◌≤◌, refl, ap, ◌∙◌, false, List, [], ◌∷◌, ◌++◌, none, some, drop}
use libn2t.Lwip.Addresses.{IpAddr}
use libn2t.Lwip.Pbuf.{Pbuf, content, IsPacket}
use libn2t.Lwip.Udp.{Udp}
use libn2t.Lwip.Udp.Input.{IpData, call_recv, word, checksum_fails, udp_input}
use libn2t.Lwip.Udp.Input.Delivery.{udp_input_lem}
use libn2t.Utils.Pbuf.Pool.{pbuf_to_str-content}
use libn2t.UdpSession.State.{UdpPacket}
use libn2t.N2t.State.{N2t}
use libn2t.N2t.{to_packet, udp_cb}

-- What is queued.
unfoldable pub packet_of : (List ℕ → List ℕ) → List ℕ → ℕ → List ℕ → ℕ → List ℕ → UdpPacket
packet_of ntoa src src_port dst dst_port bytes = record {
  src_addr = ntoa src;
  src_port = src_port;
  dst_addr = ntoa dst;
  dst_port = dst_port;
  payload = bytes;
}

pub udp_cb-queues :
    (ntoa : List ℕ → List ℕ) (src : List ℕ) (src_port : ℕ) (dst : List ℕ) (q : List Pbuf) (n : N2t)
    → n.udp_recv ≡ none
    → (udp_cb ntoa src src_port dst q n).state.udp_que
      ≡ n.udp_que ++ packet_of ntoa src src_port dst n.upcb_port (content q) ∷ []
unfolding udp_cb to_packet packet_of
udp_cb-queues ntoa src src_port dst q n idle = rw idle (rw (pbuf_to_str-content q) refl)

-- The handlers that wait stay the same.
pub udp_cb-idle :
    (ntoa : List ℕ → List ℕ) (src : List ℕ) (src_port : ℕ) (dst : List ℕ) (q : List Pbuf) (n : N2t)
    → n.udp_recv ≡ none
    → (udp_cb ntoa src src_port dst q n).state.udp_recv ≡ none
unfolding udp_cb
udp_cb-idle ntoa src src_port dst q n idle = rw idle refl

-- If `udp_input` brings a datagram, with its UDP header in the first pbuf and a checksum that is
-- right or absent, to a boundary whose control block is the first of lwIP's and on which no handler
-- waits, the callback queues one packet with the source port, the destination port and the bytes of
-- the datagram, whatever its destination.
pub udp_input-udp_cb :
    (ip_chksum_pseudo : List Pbuf → IpAddr → IpAddr → ℕ) (ntoa : List ℕ → List ℕ) (ip : IpData)
    (head : Pbuf) (next : List Pbuf) (s : Udp) (i f : ℕ) (rest src dst : List ℕ) (n : N2t)
    → IsPacket (head ∷ next)
    → 8 ≤ head.len
    → checksum_fails ip_chksum_pseudo ip (head ∷ next) ≡ false
    → s.udp_pcbs ≡ i ∷ rest
    → (s.pcb i).recv ≡ some f
    → n.udp_recv ≡ none
    → (q : List Pbuf) × (t : Udp) × (udp_input ip_chksum_pseudo ip (head ∷ next) s
        ≡ some (call_recv f (s.pcb i).recv_arg i q ip.src (word (head ∷ next) 0) ∷ [], t))
      × ((udp_cb ntoa src
            (word (head ∷ next) 0)
            dst
            q
            (record n { upcb_port = (t.pcb i).local_port })).state.udp_que
          ≡ n.udp_que
            ++ (record {
              src_addr = ntoa src;
              src_port = word (head ∷ next) 0;
              dst_addr = ntoa dst;
              dst_port = word (head ∷ next) 2;
              payload = drop 8 (content (head ∷ next));
            })
              ∷ [])
unfolding packet_of
udp_input-udp_cb ip_chksum_pseudo ntoa ip head next s i f rest src dst n packet long right listed
      registered idle =
    let (q, t, calls, packet', bytes, block, pcbs) =
      udp_input_lem ip_chksum_pseudo ip head next s i f rest packet long right listed registered in
    (
      q,
      t,
      calls,
      udp_cb-queues ntoa src (word (head ∷ next) 0) dst q
            (record n { upcb_port = (t.pcb i).local_port }) idle
          ∙ ap (λ d. n.udp_que ++ packet_of ntoa src (word (head ∷ next) 0) dst d (content q) ∷ [])
              (ap (λ p. p.local_port) block)
          ∙ ap
              (λ b.
                n.udp_que
                ++ packet_of ntoa src (word (head ∷ next) 0) dst (word (head ∷ next) 2) b ∷ [])
              bytes,
    )
