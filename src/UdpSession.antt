-- ===== src/UdpSession.antt =====
-- src/n2t/udpsession.cpp: one UDP flow through a SOCKS5 proxy. A TCP connection carries the SOCKS5
-- handshake and the UDP ASSOCIATE request; datagrams then go through the UDP socket `out_sock`.
--
-- A handler of the source is an action on the session: it returns the new session, the calls that
-- it makes of Boost.Asio and of the owner, in their order, and whether an exception leaves it.
pub mod State
pub mod Teardown
pub mod Outbound
pub mod Replies
use libn2t.Common.{
  ℕ, ◌+◌, Bool, true, false, not, ◌&&◌, ◌||◌, List, [], ◌∷◌, ◌++◌, Option, none, some, length, take,
  drop, ltb, leb, ◌==◌, if◌then◌else◌, bytes_eq, pass, emit, throw, continue, ◌>>◌,
}
use libn2t.Utils.Socks5.{AddressApi, addrport_to_socks5, socks5_to_addrport}
use State.{
  Status, handshake, request, forward, destroyed, UdpPacket, UdpSession, Effect, timer_cancel,
  timer_wait, tcp_connect, tcp_read, tcp_write, tcp_cancel, tcp_shutdown, tcp_close, out_connect,
  out_read, out_send, out_cancel, out_close, in_write, Net, Outcome, Act, set_status, is_destroyed,
  is_forward, new, Event, connected, tcp_was_read, tcp_written, out_was_read, timer_fired, arrives,
}

pub close_tcp : Act
close_tcp s =
    if s.tcp_open
    then record {
      state = record s { tcp_open = false };
      effects = tcp_cancel ∷ tcp_shutdown ∷ tcp_close ∷ [];
      thrown = false;
    }
    else pass s

pub close_out : Act
close_out s =
    if s.out_open
    then record {
      state = record s { out_open = false };
      effects = out_cancel ∷ out_close ∷ [];
      thrown = false;
    }
    else pass s

unfoldable pub destroy : Act
unfolding close_tcp close_out
destroy s =
    if is_destroyed s.status
    then pass s
    else (do set_status destroyed; close_tcp; close_out; emit timer_cancel) s

abbrev pub rearm_timer : Act
rearm_timer = do emit timer_cancel; emit timer_wait

module _ (api : AddressApi) where
  -- `async_connect` opens the socket. An address that does not parse throws.
  pub connect_tcp : Act
  connect_tcp s = elim (api.from_string s.socks5_addr) [
    | none ↦ throw s
    | some a ↦ record {
      state = record s { tcp_open = true };
      effects = tcp_connect s.socks5_addr s.socks5_port ∷ [];
      thrown = false;
    }
  ]

  unfoldable pub start : Act
  unfolding connect_tcp
  start = do emit timer_wait; connect_tcp

  -- `out_sock.send` throws when it fails.
  pub send_out : Net → List ℕ → Act
  send_out net d s = record { state = s; effects = out_send d ∷ []; thrown = not (net.sendable d) }

  pub enqueue : UdpPacket → Act
  enqueue p s = pass (record s { send_que = s.send_que ++ p ∷ [] })

  -- The datagram for the proxy: two reserved bytes, a fragment number, the address, the data.
  unfoldable pub encode : UdpPacket → Option (List ℕ)
  encode p = elim (addrport_to_socks5 api p.dst_addr p.dst_port) [
    | none ↦ none
    | some a ↦ some (0 ∷ 0 ∷ 0 ∷ (a ++ p.payload))
  ]

  pub relay : Net → UdpPacket → Act
  unfolding send_out
  relay net p s = elim (encode p) [ none ↦ throw s | some d ↦ send_out net d s ]

  unfoldable pub in_recv : Net → UdpPacket → Act
  unfolding relay enqueue
  in_recv net p = do rearm_timer; λ s. if is_forward s.status then relay net p s else enqueue p s

  -- The loop over `send_que`; in status `forward` it does not change under `in_recv`.
  pub flush : Net → List UdpPacket → Act
  flush net [] s = pass s
  flush net (p ∷ ps) s = let rest = flush net ps in continue (in_recv net p s) rest

  -- What `tcp_recv` does once `out_sock` is connected.
  pub begin_forward : Net → Act
  unfolding flush
  begin_forward net = do
    set_status forward
    emit tcp_read
    emit out_read
    λ s. in_recv net s.initial_packet s
    λ s. flush net s.send_que s

  -- `out_sock.connect(endpoint, error)`, which opens the socket.
  abbrev pub connect_out : Net → List ℕ → ℕ → Act
  connect_out net addr port s = record {
    state = record s { out_open = net.open_after };
    effects = out_connect addr port ∷ [];
    thrown = false;
  }

  pub associate : Net → List ℕ → ℕ → Act
  unfolding begin_forward destroy
  associate net addr port s = elim (api.from_string addr) [
    | none ↦ throw s
    | some a ↦
        (do
          connect_out net addr port
          λ t. if net.connected then begin_forward net t else destroy t)
          s
  ]

  -- The test leaves more than three bytes, so `substr(3)` does not throw here.
  pub on_reply : Net → List ℕ → Act
  unfolding associate destroy
  on_reply net d s =
      if leb (length d) 3 || not (bytes_eq (take 3 d) (5 ∷ 0 ∷ 0 ∷ []))
      then destroy s
      else elim (socks5_to_addrport (drop 3 d)) [
        | none ↦ destroy s
        | some (n, addr, port) ↦ associate net addr port s
      ]

  -- The greeting is answered by "no authentication"; the request asks for UDP ASSOCIATE.
  unfoldable pub tcp_recv : Net → List ℕ → Act
  unfolding on_reply destroy
  tcp_recv net d s = elim s.status [
    | handshake ↦
        if bytes_eq d (5 ∷ 0 ∷ [])
        then (do set_status request; emit (tcp_write (5 ∷ 3 ∷ 0 ∷ 1 ∷ 0 ∷ 0 ∷ 0 ∷ 0 ∷ 0 ∷ 0 ∷ [])))
            s
        else destroy s
    | request ↦ on_reply net d s
    | forward ↦ destroy s
    | destroyed ↦ pass s
  ]

-- `string::substr` from a position on; `none` is the exception `out_of_range`.
pub substr : ℕ → List ℕ → Option (List ℕ)
substr n d = if ltb (length d) n then none else some (drop n d)

-- The packet that a reply of the proxy becomes.
pub reply_packet : UdpSession → List ℕ → ℕ → List ℕ → UdpPacket
reply_packet s addr port bytes = record {
  src_addr = addr;
  src_port = port;
  dst_addr = s.initial_packet.src_addr;
  dst_port = s.initial_packet.src_port;
  payload = bytes;
}

pub on_datagram : List ℕ → Act
unfolding destroy reply_packet substr
on_datagram d s =
    if leb (length d) 3 && not (bytes_eq (take 3 d) (0 ∷ 0 ∷ 0 ∷ []))
    then destroy s
    else elim (substr 3 d) [
      | none ↦ throw s
      | some behind ↦ elim (socks5_to_addrport behind) [
        | none ↦ destroy s
        | some (n, addr, port) ↦ elim (substr (n + 3) d) [
          | none ↦ throw s
          | some bytes ↦ (do emit (in_write (reply_packet s addr port bytes)); emit out_read) s
        ]
      ]
    ]

unfoldable pub out_recv : List ℕ → Act
unfolding on_datagram
out_recv d = do rearm_timer; λ s. if is_forward s.status then on_datagram d s else pass s

unfoldable pub tcp_sent : Act
tcp_sent s = elim s.status [
  | handshake ↦ emit tcp_read s
  | request ↦ emit tcp_read s
  | forward ↦ pass s
  | destroyed ↦ pass s
]

unfoldable pub same_source : UdpPacket → UdpPacket → Bool
same_source p q = bytes_eq p.src_addr q.src_addr && p.src_port == q.src_port

module _ (api : AddressApi) where
  -- Whether the session takes the packet, and what it does with it.
  unfoldable pub process : Net → UdpPacket → UdpSession → Outcome × Bool
  unfolding same_source in_recv
  process net p s =
      if not (same_source p s.initial_packet) then (pass s, false) else (in_recv api net p s, true)

  unfoldable pub handle : Net → Event → Act
  unfolding destroy tcp_recv tcp_sent out_recv process
  handle net (connected error) s = if error then destroy s else emit (tcp_write (5 ∷ 1 ∷ 0 ∷ [])) s
  handle net (tcp_was_read error d) s = if error then destroy s else tcp_recv api net d s
  handle net (tcp_written error) s = if error then destroy s else tcp_sent s
  handle net (out_was_read error d) s = if error then destroy s else out_recv d s
  handle net (timer_fired error) s = if error then pass s else destroy s
  handle net (arrives p) s = (process net p s).0

  -- The handlers that the event loop runs one after another; an exception ends the row.
  unfoldable pub run : List (Net × Event) → Act
  run [] s = pass s
  run ((net, e) ∷ es) s = let rest = run es in continue (handle net e s) rest
