-- ===== src/TcpSession/State.antt =====
-- The data of a TCP session (src/n2t/tcpsession.cpp) and the calls that it makes.
use libn2t.Common.{
  ℕ, ◌≡◌, refl, sym, ap, ◌∙◌, Bool, true, false, List, [], ◌∷◌, ◌++◌, append_assoc, Step, Action,
  pass,
}
use libn2t.Socket.State.{Socket, Call, tcp_write}
use libn2t.Socket.State

pub data Status : Type 0 where
  handshake request forward destroyed : Status

-- `in_sock` is the side of the application, `out_sock` that of the proxy; `out_open` is
-- `out_sock.is_open()`.
pub record TcpSession : Type 0 where
  pub status : Status
  pub socks5_addr : List ℕ
  pub socks5_port : ℕ
  pub in_sock : Socket
  pub out_open : Bool

-- `sock` is a call that `in_sock` makes of lwIP or of a handler.
pub data Effect : Type 0 where
  sock : Call → Effect
  out_connect : List ℕ → ℕ → Effect
  out_read : Effect
  out_write : List ℕ → Effect
  out_cancel out_shutdown out_close : Effect

abbrev pub Outcome : Type 0
Outcome = Step TcpSession Effect

abbrev pub Act : Type 0
Act = Action TcpSession Effect

abbrev pub set_status : Status → Act
set_status st s = pass (record s { status = st })

abbrev pub is_destroyed : Status → Bool
is_destroyed destroyed = true
is_destroyed _ = false

abbrev pub is_forward : Status → Bool
is_forward forward = true
is_forward _ = false

unfoldable pub new : List ℕ → ℕ → TcpSession
unfolding State.new
new addr port = record {
  status = handshake;
  socks5_addr = addr;
  socks5_port = port;
  in_sock = State.new;
  out_open = false;
}

-- The bytes that a row of calls writes to the proxy, and those that it writes to the application.
abbrev pub uplink : List Effect → List ℕ
uplink [] = []
uplink (out_write d ∷ es) = d ++ uplink es
uplink (_ ∷ es) = uplink es

abbrev pub downlink : List Effect → List ℕ
downlink [] = []
downlink (sock (tcp_write d n) ∷ es) = d ++ downlink es
downlink (_ ∷ es) = downlink es

pub uplink-append : (xs ys : List Effect) → uplink (xs ++ ys) ≡ uplink xs ++ uplink ys
uplink-append [] ys = refl
uplink-append (out_write d ∷ xs) ys =
    ap (◌++◌ d) (uplink-append xs ys) ∙ sym (append_assoc d (uplink xs) (uplink ys))
uplink-append (_ ∷ xs) ys = uplink-append xs ys

pub downlink-append : (xs ys : List Effect) → downlink (xs ++ ys) ≡ downlink xs ++ downlink ys
downlink-append [] ys = refl
downlink-append (sock (tcp_write d n) ∷ xs) ys =
    ap (◌++◌ d) (downlink-append xs ys) ∙ sym (append_assoc d (downlink xs) (downlink ys))
downlink-append (_ ∷ xs) ys = downlink-append xs ys
