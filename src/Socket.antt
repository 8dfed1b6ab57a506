-- ===== src/Socket.antt =====
-- src/n2t/socket.cpp: one TCP connection of lwIP behind handlers that are each called once. The three
-- callbacks that `set_pcb` registers with lwIP are `on_recv`, `on_sent` and `on_err`.
--
-- A method returns the new socket, the calls that it makes of lwIP and of the handlers, in their
-- order, and whether an exception leaves it. A handler is called last, so what it does to the
-- socket in turn is a further step.
pub mod State
pub mod Stream
pub mod Errors
pub mod Sending
pub mod Closing
use libn2t.Common.{
  ℕ, ◌+◌, ◌-◌, Bool, true, false, not, ◌&&◌, ◌||◌, List, [], ◌∷◌, ◌++◌, Option, none, some, length,
  ◌==◌, if◌then◌else◌, u16, u32, pass, emit, throw, continue, ◌>>◌,
}
use libn2t.Utils.Pbuf.{Pbuf, pbuf_to_str}
use State.{
  Err, ok, is_ok, abrt, TcpPcb, Socket, Call, nagle_disable, tcp_arg, register, unregister,
  tcp_close, tcp_abort, tcp_recved, free_pbuf, tcp_write, tcp_output, call_recv, call_sent,
  call_err, Outcome, Act,
}

unfoldable pub set_pcb : TcpPcb → Act
set_pcb pcb s = record {
  state = record s { pcb = some pcb; registered = true };
  effects = nagle_disable ∷ tcp_arg ∷ register ∷ [];
  thrown = false;
}

-- A NULL chain tells that the remote host has closed the connection.
abbrev pub is_null : List Pbuf → Bool
is_null [] = true
is_null (p ∷ next) = false

abbrev pub closing : Err → List Pbuf → Bool
closing e p = not (is_ok e) || is_null p

-- `closed` is the result of `tcp_close`.
pub close_received : Err → Act
close_received closed s = record {
  state = record s { pcb_freed = true };
  effects = if is_ok closed then tcp_close ∷ [] else tcp_close ∷ tcp_abort ∷ [];
  thrown = false;
}

pub take_packet : List ℕ → Act
take_packet packet s = elim s.recv [
  | none ↦ record {
    state = record s { recv_buf = s.recv_buf ++ packet };
    effects = free_pbuf ∷ tcp_recved (u16 (length packet)) ∷ [];
    thrown = false;
  }
  | some h ↦ record {
    state = record s { recv = none };
    effects = free_pbuf ∷ tcp_recved (u16 (length packet)) ∷ call_recv h s.pcb_freed packet ∷ [];
    thrown = false;
  }
]

unfoldable pub on_recv : Err → List Pbuf → Err → Act
unfolding close_received take_packet
on_recv e p closed = do
  λ s. if closing e p then close_received closed s else pass s
  λ s. if is_null p then pass s else take_packet (pbuf_to_str p) s

-- What the callback returns to lwIP.
unfoldable pub on_recv_result : Err → List Pbuf → Err → Err
on_recv_result e p closed = if closing e p && not (is_ok closed) then abrt else ok

-- Calling an empty `std::function` throws.
unfoldable pub on_sent : ℕ → Act
on_sent len s =
    let left : ℕ = u32 (s.pending_len + 4294967296 - len) in
    let t : Socket = record s { pending_len = left } in
    if left == 0
    then elim s.sent [
      | none ↦ throw t
      | some h ↦ record {
        state = record t { sent = none };
        effects = call_sent h s.pcb_freed ∷ [];
        thrown = false;
      }
    ]
    else pass t

unfoldable pub on_err : Err → Act
on_err e s = elim s.err [
  | none ↦ pass (record s { pcb_freed = true; err_que = s.err_que ++ e ∷ [] })
  | some h ↦ record {
    state = record s { pcb_freed = true; err = none };
    effects = call_err h e ∷ [];
    thrown = false;
  }
]

unfoldable pub async_recv : ℕ → Act
async_recv h s =
    if s.pcb_freed
    then emit (call_recv h s.pcb_freed []) s
    else if length s.recv_buf == 0
    then pass (record s { recv = some h })
    else record {
      state = record s { recv_buf = [] };
      effects = call_recv h s.pcb_freed s.recv_buf ∷ [];
      thrown = false;
    }

-- The results of `tcp_write` and `tcp_output` are not looked at.
unfoldable pub async_send : List ℕ → ℕ → Act
async_send packet h s = if s.pcb_freed then emit (call_sent h s.pcb_freed) s else record {
  state = record s { pending_len = u32 (s.pending_len + length packet); sent = some h };
  effects = tcp_write packet (u16 (length packet)) ∷ tcp_output ∷ [];
  thrown = false;
}

unfoldable pub async_err : ℕ → Act
async_err h s = elim s.err_que [
  | [] ↦ pass (record s { err = some h })
  | e ∷ es ↦ record {
    state = record s { err_que = es };
    effects = call_err h e ∷ [];
    thrown = false;
  }
]

unfoldable pub cancel : Act
cancel s =
    let t : Socket = record s { recv = none; sent = none; err = none } in
    elim s.pcb [
      | none ↦ pass t
      | some pcb ↦ record {
        state = record t { registered = false };
        effects = unregister ∷ [];
        thrown = false;
      }
    ]

-- The destructor.
unfoldable pub delete : Err → Act
delete closed s = elim s.pcb [
  | none ↦ pass s
  | some pcb ↦ if s.pcb_freed then pass s else record {
    state = record s { pcb = none; registered = false };
    effects = unregister ∷ (if is_ok closed then tcp_close ∷ [] else tcp_close ∷ tcp_abort ∷ []);
    thrown = false;
  }
]

-- The accessors read through the connection; `none` is a read through NULL. `ntoa` is lwIP's
-- `ipaddr_ntoa`, which writes an address as text.
unfoldable pub src_addr : (List ℕ → List ℕ) → Socket → Option (List ℕ)
src_addr ntoa s = elim s.pcb [ none ↦ none | some p ↦ some (ntoa p.remote_ip) ]

unfoldable pub src_port : Socket → Option ℕ
src_port s = elim s.pcb [ none ↦ none | some p ↦ some p.remote_port ]

unfoldable pub dst_addr : (List ℕ → List ℕ) → Socket → Option (List ℕ)
dst_addr ntoa s = elim s.pcb [ none ↦ none | some p ↦ some (ntoa p.local_ip) ]

unfoldable pub dst_port : Socket → Option ℕ
dst_port s = elim s.pcb [ none ↦ none | some p ↦ some p.local_port ]

-- What happens to a socket: a callback of lwIP, or a method called by its owner.
pub data Op : Type 0 where
  recv_callback : Err → List Pbuf → Err → Op
  sent_callback : ℕ → Op
  err_callback : Err → Op
  recv_method : ℕ → Op
  send_method : List ℕ → ℕ → Op
  err_method : ℕ → Op
  cancel_method : Op

unfoldable pub perform : Op → Act
unfolding on_recv on_sent on_err async_recv async_send async_err cancel
perform (recv_callback e p closed) = on_recv e p closed
perform (sent_callback len) = on_sent len
perform (err_callback e) = on_err e
perform (recv_method h) = async_recv h
perform (send_method packet h) = async_send packet h
perform (err_method h) = async_err h
perform cancel_method = cancel

unfoldable pub run : List Op → Act
run [] s = pass s
run (o ∷ os) s = let rest = run os in continue (perform o s) rest
