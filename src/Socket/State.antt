-- ===== src/Socket/State.antt =====
-- The data of a socket (src/n2t/socket.h, src/n2t/socket.cpp) and the calls that its methods make.
use libn2t.Common.{
  ℕ, ◌+◌, ◌≡◌, refl, sym, ap, ◌∙◌, append_assoc, arith, Bool, true, false, List, [], ◌∷◌, ◌++◌,
  Option, none, Step, Action,
}

-- lwIP's err_t: ERR_OK, or the negative of a number.
pub data Err : Type 0 where
  ok : Err
  fault : ℕ → Err

abbrev pub is_ok : Err → Bool
is_ok ok = true
is_ok (fault n) = false

-- ERR_ABRT
abbrev pub abrt : Err
abrt = fault 13

-- The connection that lwIP keeps: a number for the pointer, and the four fields that are read.
pub record TcpPcb : Type 0 where
  pub handle : ℕ
  pub local_ip : List ℕ
  pub local_port : ℕ
  pub remote_ip : List ℕ
  pub remote_port : ℕ

-- A handler, a `std::function`, is named by a number; `none` is the empty one. `registered` says
-- whether lwIP holds the three callbacks of the socket.
pub record Socket : Type 0 where
  pub pcb : Option TcpPcb
  pub recv : Option ℕ
  pub sent : Option ℕ
  pub err : Option ℕ
  pub pending_len : ℕ  -- unsigned
  pub recv_buf : List ℕ
  pub err_que : List Err
  pub pcb_freed : Bool
  pub registered : Bool

pub data Call : Type 0 where
  nagle_disable tcp_arg register unregister : Call
  tcp_close tcp_abort : Call
  tcp_recved : ℕ → Call
  free_pbuf : Call
  tcp_write : List ℕ → ℕ → Call
  tcp_output : Call
  call_recv : ℕ → Bool → List ℕ → Call
  call_sent : ℕ → Bool → Call
  call_err : ℕ → Err → Call

abbrev pub Outcome : Type 0
Outcome = Step Socket Call

abbrev pub Act : Type 0
Act = Action Socket Call

unfoldable pub new : Socket
new = record {
  pcb = none;
  recv = none;
  sent = none;
  err = none;
  pending_len = 0;
  recv_buf = [];
  err_que = [];
  pcb_freed = false;
  registered = false;
}

-- What a row of calls hands to the receive handlers, and how often it closes or aborts.
abbrev pub received : List Call → List ℕ
received [] = []
received (call_recv h freed d ∷ cs) = d ++ received cs
received (_ ∷ cs) = received cs

abbrev pub errors : List Call → List Err
errors [] = []
errors (call_err h e ∷ cs) = e ∷ errors cs
errors (_ ∷ cs) = errors cs

abbrev pub closes : List Call → ℕ
closes [] = 0
closes (tcp_close ∷ cs) = closes cs + 1
closes (_ ∷ cs) = closes cs

pub received-append : (xs ys : List Call) → received (xs ++ ys) ≡ received xs ++ received ys
received-append [] ys = refl
received-append (call_recv h f d ∷ xs) ys =
    ap (◌++◌ d) (received-append xs ys) ∙ sym (append_assoc d (received xs) (received ys))
received-append (_ ∷ xs) ys = received-append xs ys

pub errors-append : (xs ys : List Call) → errors (xs ++ ys) ≡ errors xs ++ errors ys
errors-append [] ys = refl
errors-append (call_err h e ∷ xs) ys = ap (◌∷◌ e) (errors-append xs ys)
errors-append (_ ∷ xs) ys = errors-append xs ys

pub closes-append : (xs ys : List Call) → closes (xs ++ ys) ≡ closes xs + closes ys
closes-append [] ys = omega arith
closes-append (tcp_close ∷ xs) ys = omega (arith, closes-append xs ys)
closes-append (_ ∷ xs) ys = closes-append xs ys
