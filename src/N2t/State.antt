-- ===== src/N2t/State.antt =====
-- The data of the boundary (src/n2t/n2t.h, src/n2t/n2t.cpp) and the calls that its methods make.
use libn2t.Common.{ℕ, ◌≡◌, refl, ap, Bool, true, List, [], ◌∷◌, ◌++◌, Option, none, Step, Action}
use libn2t.Utils.Pbuf.{Pbuf}
use libn2t.Socket.State.{TcpPcb}
use libn2t.UdpSession.State.{UdpPacket}

-- lwIP's texts of addresses: `ipaddr_ntoa`, and `ipaddr_aton`, which may fail.
pub record IpApi : Type 0 where
  pub ntoa : List ℕ → List ℕ
  pub aton : List ℕ → Option (List ℕ)

-- Handlers and sockets are named by numbers. `upcb_port` is `upcb->local_port`.
pub record N2t : Type 0 where
  pub output : Option ℕ
  pub new_connection : Option ℕ
  pub udp_recv : Option ℕ
  pub output_que : List (List ℕ)
  pub connection_que : List TcpPcb
  pub udp_que : List UdpPacket
  pub pending_socket : Option ℕ
  pub upcb_port : ℕ
  pub has_upcb : Bool
  pub has_listen_pcb : Bool

pub data Call : Type 0 where
  call_output : ℕ → List ℕ → Call
  set_pcb : ℕ → TcpPcb → Call
  call_accept : ℕ → Call
  call_udp_recv : ℕ → UdpPacket → Call
  netif_input : List Pbuf → Call
  free_pbuf : List Pbuf → Call
  -- the chain, the destination and the source
  sendto : List Pbuf → List ℕ → ℕ → List ℕ → ℕ → Call
  udp_remove tcp_close tcp_abort netif_remove : Call

abbrev pub Outcome : Type 0
Outcome = Step N2t Call

abbrev pub Act : Type 0
Act = Action N2t Call

-- The state that the constructor leaves: both control blocks exist and are bound to port 14514.
unfoldable pub new : N2t
new = record {
  output = none;
  new_connection = none;
  udp_recv = none;
  output_que = [];
  connection_que = [];
  udp_que = [];
  pending_socket = none;
  upcb_port = 14514;
  has_upcb = true;
  has_listen_pcb = true;
}

-- What a row of calls hands over.
abbrev pub outputs : List Call → List (List ℕ)
outputs [] = []
outputs (call_output h p ∷ cs) = p ∷ outputs cs
outputs (_ ∷ cs) = outputs cs

abbrev pub connections : List Call → List TcpPcb
connections [] = []
connections (set_pcb sock p ∷ cs) = p ∷ connections cs
connections (_ ∷ cs) = connections cs

abbrev pub datagrams : List Call → List UdpPacket
datagrams [] = []
datagrams (call_udp_recv h p ∷ cs) = p ∷ datagrams cs
datagrams (_ ∷ cs) = datagrams cs

pub outputs-append : (xs ys : List Call) → outputs (xs ++ ys) ≡ outputs xs ++ outputs ys
outputs-append [] ys = refl
outputs-append (call_output h p ∷ xs) ys = ap (◌∷◌ p) (outputs-append xs ys)
outputs-append (_ ∷ xs) ys = outputs-append xs ys

pub connections-append :
    (xs ys : List Call) → connections (xs ++ ys) ≡ connections xs ++ connections ys
connections-append [] ys = refl
connections-append (set_pcb sock p ∷ xs) ys = ap (◌∷◌ p) (connections-append xs ys)
connections-append (_ ∷ xs) ys = connections-append xs ys

pub datagrams-append : (xs ys : List Call) → datagrams (xs ++ ys) ≡ datagrams xs ++ datagrams ys
datagrams-append [] ys = refl
datagrams-append (call_udp_recv h p ∷ xs) ys = ap (◌∷◌ p) (datagrams-append xs ys)
datagrams-append (_ ∷ xs) ys = datagrams-append xs ys
