-- ===== src/N2t.antt =====
-- src/n2t/n2t.cpp: the boundary between the packets of a TUN device and connections and datagrams.
-- Packets that lwIP puts out, connections that it accepts and datagrams that it receives each go to
-- a handler that is called once, or wait in a queue for the next handler.
pub mod State
pub mod Delivery
pub mod Datagrams
pub mod Arrival
pub mod Departure
pub mod Departure6
pub mod Reception
use libn2t.Common.{
  ℕ, ◌+◌, ◌*◌, ◌<◌, Bool, true, false, not, List, [], ◌∷◌, ◌++◌, Option, none, some, length, ltb,
  if◌then◌else◌, Step, pass, emit, throw, continue, ◌>>◌,
}
use libn2t.Utils.Pbuf.{Pbuf, PbufApi, str_to_pbuf, pbuf_to_str}
use libn2t.Socket.State.{Err, is_ok, TcpPcb}
use libn2t.UdpSession.State.{UdpPacket}
use State.{
  N2t, Call, call_output, set_pcb, call_accept, call_udp_recv, netif_input, free_pbuf, sendto,
  udp_remove, tcp_close, tcp_abort, netif_remove, Outcome, Act, IpApi,
}

-- `N2TInternal::output_cb`: lwIP sends a packet.
unfoldable pub output_cb : List Pbuf → Act
output_cb p s =
    let packet = pbuf_to_str p in
    elim s.output [
      | none ↦ pass (record s { output_que = s.output_que ++ packet ∷ [] })
      | some h ↦ record {
        state = record s { output = none };
        effects = call_output h packet ∷ [];
        thrown = false;
      }
    ]

-- The callback of `tcp_accept`. `pending_socket` is read through; `none` is NULL.
unfoldable pub accept_cb : TcpPcb → Err → Act
accept_cb newpcb e s =
    if is_ok e
    then elim s.new_connection [
      | none ↦ pass (record s { connection_que = s.connection_que ++ newpcb ∷ [] })
      | some h ↦ elim s.pending_socket [
        | none ↦ throw s
        | some sock ↦ record {
          state = record s { new_connection = none };
          effects = set_pcb sock newpcb ∷ call_accept h ∷ [];
          thrown = false;
        }
      ]
    ]
    else pass s

-- The packet that the callback of `udp_recv` makes of a datagram.
pub to_packet : (List ℕ → List ℕ) → List ℕ → ℕ → List ℕ → ℕ → List Pbuf → UdpPacket
to_packet ntoa src src_port dst dst_port p = record {
  src_addr = ntoa src;
  src_port = src_port;
  dst_addr = ntoa dst;
  dst_port = dst_port;
  payload = pbuf_to_str p;
}

-- The callback of `udp_recv`; the destination is that of the packet that lwIP is working on, the
-- destination port that of the control block.
unfoldable pub udp_cb : (List ℕ → List ℕ) → List ℕ → ℕ → List ℕ → List Pbuf → Act
unfolding to_packet
udp_cb ntoa src src_port dst p s =
    let packet = to_packet ntoa src src_port dst s.upcb_port p in
    elim s.udp_recv [
      | none ↦ record {
        state = record s { udp_que = s.udp_que ++ packet ∷ [] };
        effects = free_pbuf p ∷ [];
        thrown = false;
      }
      | some h ↦ record {
        state = record s { udp_recv = none };
        effects = free_pbuf p ∷ call_udp_recv h packet ∷ [];
        thrown = false;
      }
    ]

-- `result` is what `netif::input` returns.
unfoldable pub input : PbufApi → List ℕ → Err → Act
input pbufs packet result s = elim (str_to_pbuf pbufs packet) [
  | none ↦ pass s
  | some p ↦ record {
    state = s;
    effects = if is_ok result then netif_input p ∷ [] else netif_input p ∷ free_pbuf p ∷ [];
    thrown = false;
  }
]

unfoldable pub async_output : ℕ → Act
async_output h s = elim s.output_que [
  | [] ↦ pass (record s { output = some h })
  | packet ∷ rest ↦ record {
    state = record s { output_que = rest };
    effects = call_output h packet ∷ [];
    thrown = false;
  }
]

unfoldable pub async_accept : ℕ → ℕ → Act
async_accept sock h s = elim s.connection_que [
  | [] ↦ pass (record s { new_connection = some h; pending_socket = some sock })
  | pcb ∷ rest ↦ record {
    state = record s { connection_que = rest };
    effects = set_pcb sock pcb ∷ call_accept h ∷ [];
    thrown = false;
  }
]

unfoldable pub async_udp_recv : ℕ → Act
async_udp_recv h s = elim s.udp_que [
  | [] ↦ pass (record s { udp_recv = some h })
  | packet ∷ rest ↦ record {
    state = record s { udp_que = rest };
    effects = call_udp_recv h packet ∷ [];
    thrown = false;
  }
]

-- An address that does not parse leaves the variable as it was, which is not initialised.
abbrev pub aton_or : IpApi → List ℕ → List ℕ → List ℕ
aton_or ip text garbage = elim (ip.aton text) [ none ↦ garbage | some a ↦ a ]

unfoldable pub udp_send : PbufApi → IpApi → List ℕ → List ℕ → UdpPacket → Act
udp_send pbufs ip garbage_src garbage_dst packet s = elim (str_to_pbuf pbufs packet.payload) [
  | none ↦ pass s
  | some p ↦ record {
    state = record s { upcb_port = packet.src_port };
    effects =
        sendto p (aton_or ip packet.dst_addr garbage_dst) packet.dst_port
          (aton_or ip packet.src_addr garbage_src) packet.src_port
        ∷ free_pbuf p
        ∷ [];
    thrown = false;
  }
]

unfoldable pub cancel : Act
cancel s = pass (record s { output = none; new_connection = none; udp_recv = none })

-- The destructor; `closed` is the result of `tcp_close`.
unfoldable pub delete : Err → Act
delete closed s = record {
  state = record s { has_upcb = false; has_listen_pcb = false };
  effects =
      (if s.has_upcb then udp_remove ∷ [] else [])
      ++ ((if s.has_listen_pcb
            then (if is_ok closed then tcp_close ∷ [] else tcp_close ∷ tcp_abort ∷ [])
            else [])
          ++ netif_remove ∷ []);
  thrown = false;
}

-- What happens to the boundary: a callback of lwIP, or a method called by its owner.
pub data Op : Type 0 where
  puts_out : List Pbuf → Op
  accepts : TcpPcb → Err → Op
  -- the port of the control block, as lwIP has set it, and the datagram
  receives : ℕ → List ℕ → ℕ → List ℕ → List Pbuf → Op
  takes_in : List ℕ → Err → Op
  wants_output : ℕ → Op
  wants_connection : ℕ → ℕ → Op
  wants_datagram : ℕ → Op
  sends : UdpPacket → Op
  cancels : Op

module _ (pbufs : PbufApi) (ip : IpApi) (garbage_src garbage_dst : List ℕ) where
  unfoldable pub perform : Op → Act
  unfolding output_cb accept_cb udp_cb input async_output async_accept async_udp_recv udp_send
      cancel
  perform (puts_out p) s = output_cb p s
  perform (accepts pcb e) s = accept_cb pcb e s
  perform (receives port src src_port dst p) s =
      udp_cb ip.ntoa src src_port dst p (record s { upcb_port = port })
  perform (takes_in packet result) s = input pbufs packet result s
  perform (wants_output h) s = async_output h s
  perform (wants_connection sock h) s = async_accept sock h s
  perform (wants_datagram h) s = async_udp_recv h s
  perform (sends packet) s = udp_send pbufs ip garbage_src garbage_dst packet s
  perform cancels s = cancel s

  unfoldable pub run : List Op → Act
  run [] s = pass s
  run (o ∷ os) s = let rest = run os in continue (perform o s) rest
