-- ===== src/TcpSession.antt =====
-- src/n2t/tcpsession.cpp: a TCP connection of the application is carried over a SOCKS5 proxy. The
-- session greets the proxy, asks it to connect to the address that the application wanted, and then
-- passes bytes on in both directions.
--
-- A handler is an action on the session, as in `UdpSession`. The socket of the application is the
-- model of src/n2t/socket.cpp: the session calls its methods, and what it calls in turn is
-- dispatched to the session's handlers.
pub mod State
pub mod Flow
pub mod Relay
pub mod Negotiation
use libn2t.Common.{
  ℕ, ◌+◌, Bool, true, false, not, ◌&&◌, ◌||◌, List, [], ◌∷◌, ◌++◌, map, Option, none, some, length,
  take, leb, if◌then◌else◌, bytes_eq, Step, pass, emit, throw, continue, ◌>>◌,
}
use libn2t.Utils.Socks5.{AddressApi, addrport_to_socks5}
use libn2t.Utils.Pbuf.{Pbuf}
use libn2t.Socket
use libn2t.Socket.State.{Socket, Err, Call, call_recv, call_sent, call_err}
use State.{
  Status, handshake, request, forward, destroyed, TcpSession, Effect, sock, out_connect, out_read,
  out_write, out_cancel, out_shutdown, out_close, Outcome, Act, set_status, is_destroyed,
  is_forward,
}

pub close_out : Act
close_out s =
    if s.out_open
    then record {
      state = record s { out_open = false };
      effects = out_cancel ∷ out_shutdown ∷ out_close ∷ [];
      thrown = false;
    }
    else pass s

-- `in_sock.cancel()`, which calls no handler.
pub cancel_in : Act
unfolding Socket.cancel
cancel_in s =
    let t = Socket.cancel s.in_sock in
    record {
      state = record s { in_sock = t.state };
      effects = map sock t.effects;
      thrown = t.thrown;
    }

unfoldable pub destroy : Act
unfolding close_out cancel_in
destroy s =
    if is_destroyed s.status then pass s else (do set_status destroyed; cancel_in; close_out) s

pub in_recv : List ℕ → Act
in_recv d s = if is_forward s.status then emit (out_write d) s else pass s

pub in_sent : Act
in_sent s = if is_forward s.status then emit out_read s else pass s

-- The handler that a call of the socket reaches.
pub on_call : Call → Act
unfolding destroy in_recv in_sent
on_call (call_recv h freed d) s = if freed then destroy s else in_recv d s
on_call (call_sent h freed) s = if freed then destroy s else in_sent s
on_call (call_err h e) s = destroy s
on_call c s = pass s

pub dispatch : List Call → Act
unfolding on_call
dispatch [] s = pass s
dispatch (c ∷ cs) s = let rest = dispatch cs in continue (on_call c s) rest

-- A method or a callback of `in_sock`, and the handlers that it calls.
pub with_sock : (Socket → Step Socket Call) → Act
unfolding dispatch
with_sock m s =
    let t = m s.in_sock in
    continue
      (record {
        state = record s { in_sock = t.state };
        effects = map sock t.effects;
        thrown = t.thrown;
      })
      (dispatch t.effects)

-- The numbers of the three handlers that the session gives to `in_sock`.
abbrev pub reader : ℕ
reader = 0

abbrev pub writer : ℕ
writer = 1

abbrev pub watcher : ℕ
watcher = 2

pub in_async_read : Act
unfolding with_sock Socket.async_recv
in_async_read = with_sock (Socket.async_recv reader)

pub in_async_write : List ℕ → Act
unfolding with_sock Socket.async_send
in_async_write d = with_sock (Socket.async_send d writer)

pub out_sent : Act
unfolding in_async_read
out_sent s = elim s.status [
  | handshake ↦ emit out_read s
  | request ↦ emit out_read s
  | forward ↦ in_async_read s
  | destroyed ↦ pass s
]

pub data Event : Type 0 where
  connected : Bool → Event
  out_was_read : Bool → List ℕ → Event
  out_written : Bool → Event
  in_recv_callback : Err → List Pbuf → Err → Event
  in_sent_callback : ℕ → Event
  in_err_callback : Err → Event

module _ (api : AddressApi) where
  -- `async_connect` opens the socket. An address that does not parse throws.
  pub connect_out : Act
  connect_out s = elim (api.from_string s.socks5_addr) [
    | none ↦ throw s
    | some a ↦ record {
      state = record s { out_open = true };
      effects = out_connect s.socks5_addr s.socks5_port ∷ [];
      thrown = false;
    }
  ]

  unfoldable pub start : Act
  unfolding with_sock Socket.async_err connect_out
  start = do with_sock (Socket.async_err watcher); connect_out

module _ (api : AddressApi) (ntoa : List ℕ → List ℕ) where
  -- The request to connect; `none` is an exception or a read through NULL.
  pub request_bytes : Socket → Option (List ℕ)
  request_bytes s = elim (Socket.dst_addr ntoa s) [
    | none ↦ none
    | some addr ↦ elim (Socket.dst_port s) [
      | none ↦ none
      | some port ↦ elim (addrport_to_socks5 api addr port) [
        | none ↦ none
        | some a ↦ some (5 ∷ 1 ∷ 0 ∷ a)
      ]
    ]
  ]

  pub send_request : Act
  unfolding request_bytes
  send_request s = elim (request_bytes s.in_sock) [ none ↦ throw s | some r ↦ emit (out_write r) s ]

  pub begin_forward : Act
  unfolding in_async_read
  begin_forward = do set_status forward; in_async_read; emit out_read

  unfoldable pub out_recv : List ℕ → Act
  unfolding destroy send_request begin_forward in_async_write
  out_recv d s = elim s.status [
    | handshake ↦
        if bytes_eq d (5 ∷ 0 ∷ []) then (do set_status request; send_request) s else destroy s
    | request ↦
        if leb (length d) 3 || not (bytes_eq (take 3 d) (5 ∷ 0 ∷ 0 ∷ []))
        then destroy s
        else begin_forward s
    | forward ↦ in_async_write d s
    | destroyed ↦ pass s
  ]

  unfoldable pub handle : Event → Act
  unfolding destroy out_recv out_sent with_sock
  handle (connected error) s = if error then destroy s else emit (out_write (5 ∷ 1 ∷ 0 ∷ [])) s
  handle (out_was_read error d) s = if error then destroy s else out_recv d s
  handle (out_written error) s = if error then destroy s else out_sent s
  handle (in_recv_callback e p closed) s = with_sock (Socket.on_recv e p closed) s
  handle (in_sent_callback len) s = with_sock (Socket.on_sent len) s
  handle (in_err_callback e) s = with_sock (Socket.on_err e) s

  unfoldable pub run : List Event → Act
  run [] s = pass s
  run (e ∷ es) s = let rest = run es in continue (handle e s) rest
