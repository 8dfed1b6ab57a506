-- ===== src/Examples/Data.antt =====
-- Packets, sessions and a network that the examples share.
use libn2t.Common.{ℕ, true, false, List, [], ◌∷◌, none, some, length}
use libn2t.Lwip.Pbuf.{Pbuf, pool}
use libn2t.UdpSession.State.{UdpPacket, UdpSession, Net, handshake}
use libn2t.Socket.State.{Socket, TcpPcb}
use libn2t.TcpSession.State.{TcpSession}
use libn2t.TcpSession.State

-- The text "1.2.3.4".
abbrev pub four_text : List ℕ
four_text = b'1' ∷ b'.' ∷ b'2' ∷ b'.' ∷ b'3' ∷ b'.' ∷ b'4' ∷ []

abbrev pub home_text : List ℕ
home_text = b'7' ∷ b'.' ∷ b'7' ∷ b'.' ∷ b'7' ∷ b'.' ∷ b'7' ∷ []

abbrev pub first_packet : UdpPacket
first_packet = record {
  src_addr = home_text;
  src_port = 1000;
  dst_addr = four_text;
  dst_port = 53;
  payload = 1 ∷ 2 ∷ [];
}

abbrev pub second_packet : UdpPacket
second_packet = record first_packet { payload = 3 ∷ [] }

abbrev pub foreign_packet : UdpPacket
foreign_packet = record first_packet { src_port = 2000 }

abbrev pub good_net : Net
good_net = record { connected = true; open_after = true; sendable = λ d. true }

abbrev pub udp_session : UdpSession
udp_session = record {
  status = handshake;
  socks5_addr = four_text;
  socks5_port = 1080;
  tcp_open = true;
  out_open = false;
  initial_packet = first_packet;
  send_que = [];
}

abbrev pub pcb : TcpPcb
pcb = record {
  handle = 1;
  local_ip = four_text;
  local_port = 443;
  remote_ip = home_text;
  remote_port = 5000;
}

abbrev pub open_socket : Socket
open_socket = record {
  pcb = some pcb;
  recv = none;
  sent = none;
  err = none;
  pending_len = 0;
  recv_buf = [];
  err_que = [];
  pcb_freed = false;
  registered = true;
}

abbrev pub tcp_session : TcpSession
tcp_session = record {
  status = State.handshake;
  socks5_addr = four_text;
  socks5_port = 1080;
  in_sock = open_socket;
  out_open = false;
}

-- A pbuf that holds some bytes, alone.
abbrev pub block : List ℕ → Pbuf
block d = record {
  front = [];
  payload = d;
  len = length d;
  tot_len = length d;
  type_internal = pool;
  is_custom = false;
  tcp_fin = false;
  ref = 1;
}
