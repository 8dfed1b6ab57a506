-- ===== src/UdpSession/State.antt =====
-- The data of a UDP session (src/n2t/udpsession.cpp, src/n2t/udppacket.h), the calls that it makes,
-- and the actions from which its handlers are put together.
use libn2t.Common.{ℕ, ◌≡◌, refl, ap, Bool, true, false, List, [], ◌∷◌, ◌++◌, Step, Action, pass}

pub data Status : Type 0 where
  handshake request forward destroyed : Status

-- src/n2t/udppacket.h; `data` is `payload`.
pub record UdpPacket : Type 0 where
  pub src_addr : List ℕ
  pub src_port : ℕ
  pub dst_addr : List ℕ
  pub dst_port : ℕ
  pub payload : List ℕ

-- `tcp_open` and `out_open` are `is_open()` of the two sockets.
pub record UdpSession : Type 0 where
  pub status : Status
  pub socks5_addr : List ℕ
  pub socks5_port : ℕ
  pub tcp_open : Bool
  pub out_open : Bool
  pub initial_packet : UdpPacket
  pub send_que : List UdpPacket

-- The calls that a handler makes. `timer_wait` is `expires_after(minutes(1))` and `async_wait`.
pub data Effect : Type 0 where
  timer_cancel timer_wait : Effect
  tcp_connect : List ℕ → ℕ → Effect
  tcp_read : Effect
  tcp_write : List ℕ → Effect
  tcp_cancel tcp_shutdown tcp_close : Effect
  out_connect : List ℕ → ℕ → Effect
  out_read : Effect
  out_send : List ℕ → Effect
  out_cancel out_close : Effect
  in_write : UdpPacket → Effect

-- What the network answers to the calls that return at once: whether `connect` succeeds, whether
-- the socket is open after it, and whether `send` succeeds.
pub record Net : Type 0 where
  pub connected : Bool
  pub open_after : Bool
  pub sendable : List ℕ → Bool

-- What an action of the session does.
abbrev pub Outcome : Type 0
Outcome = Step UdpSession Effect

abbrev pub Act : Type 0
Act = Action UdpSession Effect

abbrev pub set_status : Status → Act
set_status st s = pass (record s { status = st })

abbrev pub is_destroyed : Status → Bool
is_destroyed destroyed = true
is_destroyed _ = false

abbrev pub is_forward : Status → Bool
is_forward forward = true
is_forward _ = false

unfoldable pub new : List ℕ → ℕ → UdpPacket → UdpSession
new addr port p = record {
  status = handshake;
  socks5_addr = addr;
  socks5_port = port;
  tcp_open = false;
  out_open = false;
  initial_packet = p;
  send_que = [];
}

-- The completion handlers that the session registers. `true` is an error code.
pub data Event : Type 0 where
  connected : Bool → Event
  tcp_was_read : Bool → List ℕ → Event
  tcp_written : Bool → Event
  out_was_read : Bool → List ℕ → Event
  timer_fired : Bool → Event
  arrives : UdpPacket → Event

-- The datagrams that a row of calls sends to the proxy, and the packets that it hands to the owner.
abbrev pub emissions : List Effect → List (List ℕ)
emissions [] = []
emissions (out_send d ∷ es) = d ∷ emissions es
emissions (_ ∷ es) = emissions es

abbrev pub deliveries : List Effect → List UdpPacket
deliveries [] = []
deliveries (in_write p ∷ es) = p ∷ deliveries es
deliveries (_ ∷ es) = deliveries es

-- The writes to the TCP connection with the proxy.
abbrev pub tcp_writes : List Effect → List (List ℕ)
tcp_writes [] = []
tcp_writes (tcp_write d ∷ es) = d ∷ tcp_writes es
tcp_writes (_ ∷ es) = tcp_writes es

pub tcp_writes-append :
    (xs ys : List Effect) → tcp_writes (xs ++ ys) ≡ tcp_writes xs ++ tcp_writes ys
tcp_writes-append [] ys = refl
tcp_writes-append (tcp_write d ∷ xs) ys = ap (◌∷◌ d) (tcp_writes-append xs ys)
tcp_writes-append (_ ∷ xs) ys = tcp_writes-append xs ys

pub emissions-append : (xs ys : List Effect) → emissions (xs ++ ys) ≡ emissions xs ++ emissions ys
emissions-append [] ys = refl
emissions-append (out_send d ∷ xs) ys = ap (◌∷◌ d) (emissions-append xs ys)
emissions-append (_ ∷ xs) ys = emissions-append xs ys

pub deliveries-append :
    (xs ys : List Effect) → deliveries (xs ++ ys) ≡ deliveries xs ++ deliveries ys
deliveries-append [] ys = refl
deliveries-append (in_write p ∷ xs) ys = ap (◌∷◌ p) (deliveries-append xs ys)
deliveries-append (_ ∷ xs) ys = deliveries-append xs ys
