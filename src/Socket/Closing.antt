-- ===== src/Socket/Closing.antt =====
-- Who closes the connection: each connection is closed once, by the callback that hears of its end
-- or by the destructor.
use libn2t.Common.{ℕ, ◌+◌, ◌≡◌, refl, true, false, List, [], ◌∷◌, ◌++◌, some, arith, if◌then◌else◌}
use libn2t.Socket.State.{Socket, Err, TcpPcb, Call, Outcome, closes, closes-append, call_recv}
use libn2t.Socket.{
  Op, recv_callback, err_callback, recv_method, cancel_method, closing, delete, perform, run,
}

-- 1 while the socket has still to close its connection.
abbrev pub to_close : Socket → ℕ
to_close s = if s.pcb_freed then 0 else 1

-- lwIP reports the end of a connection only while it is open, and the owner cancels only after the
-- end of the connection: once the callbacks are unregistered, lwIP closes the connection, or frees
-- it, without a word to the socket.
abbrev pub EndsOnce : Op → Socket → Type 0
EndsOnce (recv_callback e p closed) s = closing e p ≡ true → s.pcb_freed ≡ false
EndsOnce cancel_method s = s.pcb_freed ≡ true
EndsOnce _ s = Unit {0}

abbrev pub AllEndsOnce : List Op → Socket → Type 0
AllEndsOnce [] s = Unit {0}
AllEndsOnce (o ∷ os) s = EndsOnce o s × AllEndsOnce os (perform o s).state

-- The failures of a history that come while the connection is open: lwIP has freed it by itself.
abbrev pub failures : List Op → Socket → ℕ
failures [] s = 0
failures (err_callback e ∷ os) s = to_close s + failures os (perform (err_callback e) s).state
failures (o ∷ os) s = failures os (perform o s).state

perform-closes :
    (o : Op) (s : Socket)
    → EndsOnce o s
    → (closes (perform o s).effects + to_close (perform o s).state + failures (o ∷ []) s
        ≡ to_close s)
      × ((perform o s).state.pcb ≡ s.pcb)
perform-closes (recv_callback e [] closed) s h = unfold perform in ground arith
perform-closes (recv_callback e (x ∷ p) closed) s h = unfold perform in ground arith
perform-closes (err_callback e) s h = unfold perform in ground arith
perform-closes o s h = unfold perform in ground arith

failures-cons :
    (o : Op) (os : List Op) (s : Socket)
    → failures (o ∷ os) s ≡ failures (o ∷ []) s + failures os (perform o s).state
failures-cons (err_callback e) os s = omega arith
failures-cons o os s = omega arith

run-closes :
    (os : List Op) (s : Socket)
    → AllEndsOnce os s
    → (run os s).thrown ≡ false
    → (closes (run os s).effects + to_close (run os s).state + failures os s ≡ to_close s)
      × ((run os s).state.pcb ≡ s.pcb)
unfolding run
run-closes [] s h k = (omega arith, refl)
run-closes (o ∷ os) s h k =
    let t : Outcome = perform o s in
    ground (
      arith,
      perform-closes o s h.0,
      run-closes os t.state,
      failures-cons o os s,
      closes-append t.effects (run os t.state).effects,
    )

-- For a socket with an open connection, over every history in which lwIP reports the end of the
-- connection only while it is open, the owner cancels only after that end and no exception leaves a
-- method, up to and with the destructor: the socket closes the connection exactly once, or not at
-- all if it failed while it was open, when lwIP had freed it.
pub delete-closes :
    (os : List Op) (s : Socket) (p : TcpPcb) (closed : Err)
    → s.pcb ≡ some p
    → s.pcb_freed ≡ false
    → AllEndsOnce os s
    → (run os s).thrown ≡ false
    → closes ((run os s).effects ++ (delete closed (run os s).state).effects) + failures os s ≡ 1
unfolding delete
delete-closes os s p closed h f l k = ground (
  arith,
  run-closes os s l k,
  closes-append (run os s).effects (delete closed (run os s).state).effects,
)

-- How often a receive handler is called.
abbrev pub recv_calls : List Call → ℕ
recv_calls [] = 0
recv_calls (call_recv h f d ∷ cs) = recv_calls cs + 1
recv_calls (_ ∷ cs) = recv_calls cs

recv_calls-append : (xs ys : List Call) → recv_calls (xs ++ ys) ≡ recv_calls xs + recv_calls ys
recv_calls-append [] ys = omega arith
recv_calls-append (call_recv h f d ∷ xs) ys = omega (arith, recv_calls-append xs ys)
recv_calls-append (_ ∷ xs) ys = recv_calls-append xs ys

-- All that may happen while the owner waits for its receiver: no data, no new receiver.
abbrev pub IsQuiet : List Op → Type 0
IsQuiet [] = Unit {0}
IsQuiet (recv_callback e [] closed ∷ os) = IsQuiet os
IsQuiet (recv_callback e (p ∷ next) closed ∷ os) = ⊥
IsQuiet (recv_method h ∷ os) = ⊥
IsQuiet (_ ∷ os) = IsQuiet os

IsQuiet-cons : (o : Op) (os : List Op) → IsQuiet (o ∷ os) → IsQuiet (o ∷ []) × IsQuiet os
IsQuiet-cons (recv_callback e [] closed) os h = (tt, h)
IsQuiet-cons (recv_callback e (p ∷ next) closed) os h = absurd h
IsQuiet-cons (recv_method x) os h = absurd h
IsQuiet-cons o os h = (tt, h)

perform-quiet : (o : Op) (s : Socket) → IsQuiet (o ∷ []) → recv_calls (perform o s).effects ≡ 0
perform-quiet (recv_callback e [] closed) s h = unfold perform in ground arith
perform-quiet (recv_callback e (p ∷ next) closed) s h = absurd h
perform-quiet (recv_method x) s h = absurd h
perform-quiet o s h = unfold perform in ground arith

-- A receiver that waits when the peer closes the connection is not told: as long as no data comes
-- and no new receiver is registered, no receive handler is called, whether or not the history holds
-- the NULL chain by which lwIP reports the close, an error or a cancellation.
pub run-quiet : (os : List Op) (s : Socket) → IsQuiet os → recv_calls (run os s).effects ≡ 0
unfolding run
run-quiet [] s h = refl
run-quiet (o ∷ os) s h =
    let t : Outcome = perform o s in
    ground (
      arith,
      IsQuiet-cons o os h,
      perform-quiet o s,
      run-quiet os t.state,
      recv_calls-append t.effects (run os t.state).effects,
    )
