-- ===== src/N2t/Delivery.antt =====
-- What lwIP brings reaches the handlers: in order, once, and without a wait that is not needed.
use libn2t.Common.{ℕ, ◌≡◌, ◌≢◌, ◌⊎◌, false, List, [], ◌∷◌, ◌++◌, none, if◌then◌else◌}
use libn2t.Utils.Pbuf.{PbufApi, pbuf_to_str}
use libn2t.Socket.State.{is_ok, TcpPcb}
use libn2t.UdpSession.State.{UdpPacket}
use libn2t.N2t.State.{N2t, Outcome, IpApi, outputs, connections, datagrams}
use libn2t.N2t.{Op, puts_out, accepts, receives, to_packet}

-- No handler waits while there is something in its queue, and a waiting accept handler has a socket.
pub record IsServed (s : N2t) : Type 0 where
  pub output_served : (s.output ≡ none) ⊎ (s.output_que ≡ [])
  pub accept_served : (s.new_connection ≡ none) ⊎ (s.connection_que ≡ [])
  pub udp_served : (s.udp_recv ≡ none) ⊎ (s.udp_que ≡ [])
  pub socket_given : (s.new_connection ≡ none) ⊎ (s.pending_socket ≢ none)

abbrev pub put_out : Op → List (List ℕ)
put_out (puts_out p) = pbuf_to_str p ∷ []
put_out _ = []

abbrev pub accepted : Op → List TcpPcb
accepted (accepts pcb e) = if is_ok e then pcb ∷ [] else []
accepted _ = []

module _ (ip : IpApi) where
  abbrev pub received : Op → List UdpPacket
  received (receives port src src_port dst p) = to_packet ip.ntoa src src_port dst port p ∷ []
  received _ = []

module _ (pbufs : PbufApi) (ip : IpApi) (garbage_src garbage_dst : List ℕ) where
  -- What is handed over in a step, with what then waits, is what waited and what came.
  abbrev pub Delivers : Op → N2t → Outcome → Type 0
  Delivers o s t =
      IsServed t.state
      × (t.thrown ≡ false)
      × (outputs t.effects ++ t.state.output_que ≡ s.output_que ++ put_out o)
      × (connections t.effects ++ t.state.connection_que ≡ s.connection_que ++ accepted o)
      × (datagrams t.effects ++ t.state.udp_que ≡ s.udp_que ++ received ip o)

  abbrev pub put_out_all : List Op → List (List ℕ)
  put_out_all [] = []
  put_out_all (o ∷ os) = put_out o ++ put_out_all os

  abbrev pub accepted_all : List Op → List TcpPcb
  accepted_all [] = []
  accepted_all (o ∷ os) = accepted o ++ accepted_all os

  abbrev pub received_all : List Op → List UdpPacket
  received_all [] = []
  received_all (o ∷ os) = received ip o ++ received_all os
