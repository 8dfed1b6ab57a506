-- ===== src/Examples/Sockets.antt =====
-- Examples of src/n2t/socket.cpp.
use libn2t.Common.{ℕ, ◌+◌, ◌≡◌, refl, inl, inr, true, false, List, [], ◌∷◌, ◌++◌, some, arith}
use libn2t.Utils.Pbuf.{Pbuf, pbuf_to_str}
use libn2t.Socket.State.{Socket, ok, abrt, received, errors, closes}
use libn2t.Socket.{
  Op, recv_callback, sent_callback, err_callback, recv_method, send_method, err_method,
  cancel_method, delete, perform, run,
}
use libn2t.Socket.Stream.{IsServed, arrived_all, run-received, run-lost}
use libn2t.Socket.Errors.{IsWaiting, raised, run-errors}
use libn2t.Socket.Sending.{IsAwaited, acked, written, run-IsAwaited}
use libn2t.Socket.Closing.{failures, recv_calls, delete-closes, run-quiet}
use libn2t.Examples.Data.{block, pcb, open_socket}

abbrev data_of : List ℕ → List Pbuf
data_of d = block d ∷ []

-- Two packets before the first receiver, one after the second.
abbrev reading : List Op
reading =
    recv_callback ok (data_of (1 ∷ 2 ∷ [])) ok
    ∷ recv_callback ok (data_of (3 ∷ 4 ∷ [])) ok
    ∷ recv_method 5
    ∷ recv_method 6
    ∷ recv_callback ok (data_of (7 ∷ 8 ∷ [])) ok
    ∷ []

run-received_example :
    IsServed (run reading open_socket).state
    × (received (run reading open_socket).effects ++ (run reading open_socket).state.recv_buf
        ≡ arrived_all reading)
unfolding run perform pbuf_to_str
run-received_example = run-received reading open_socket (inl refl) refl refl

abbrev failed_socket : Socket
failed_socket = record open_socket { pcb_freed = true; recv_buf = 1 ∷ 2 ∷ [] }

run-lost_example : received (run (recv_method 5 ∷ recv_method 6 ∷ []) failed_socket).effects ≡ []
run-lost_example = run-lost (recv_method 5 ∷ recv_method 6 ∷ []) failed_socket refl refl

abbrev failing : List Op
failing = err_callback abrt ∷ err_callback abrt ∷ err_method 3 ∷ []

run-errors_example :
    IsWaiting (run failing open_socket).state
    × (errors (run failing open_socket).effects ++ (run failing open_socket).state.err_que
        ≡ raised failing)
unfolding run perform
run-errors_example = run-errors failing open_socket (inl refl) refl

-- Two bytes are sent and acknowledged one by one.
abbrev writing : List Op
writing = send_method (1 ∷ 2 ∷ []) 4 ∷ sent_callback 1 ∷ sent_callback 1 ∷ []

open_socket-IsAwaited : IsAwaited open_socket
open_socket-IsAwaited = record {
  in_range = omega arith;
  connected = λ e. ground arith;
  awaited = λ e. inl refl;
}

run-IsAwaited_example :
    IsAwaited (run writing open_socket).state
    × ((run writing open_socket).thrown ≡ false)
    × ((run writing open_socket).state.pending_len + acked writing
        ≡ written (run writing open_socket).effects)
unfolding perform run
run-IsAwaited_example = run-IsAwaited writing open_socket open_socket-IsAwaited (
  (omega arith, omega arith),
  ((refl, omega arith, omega arith), ((refl, omega arith, omega arith), tt)),
)

abbrev sending : Socket
sending = record open_socket { sent = some 4; pending_len = 2 }

sending-IsAwaited : IsAwaited sending
sending-IsAwaited = record {
  in_range = omega arith;
  connected = λ e. ground arith;
  awaited = λ e. inr (λ f. ground arith);
}

-- The peer closes, then the owner lets the socket go.
abbrev closed_by_peer : List Op
closed_by_peer = recv_method 1 ∷ recv_callback ok [] ok ∷ cancel_method ∷ []

delete-closes_example :
    closes (
        (run closed_by_peer open_socket).effects
        ++ (delete ok (run closed_by_peer open_socket).state).effects)
      + failures closed_by_peer open_socket
    ≡ 1
unfolding run perform
delete-closes_example =
    delete-closes closed_by_peer open_socket pcb ok refl refl (tt, ((λ e. refl), (refl, tt))) refl

run-quiet_example :
    recv_calls (run (recv_callback ok [] ok ∷ cancel_method ∷ []) open_socket).effects ≡ 0
run-quiet_example = run-quiet (recv_callback ok [] ok ∷ cancel_method ∷ []) open_socket tt
