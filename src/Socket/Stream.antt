-- ===== src/Socket/Stream.antt =====
-- The byte stream that a socket hands to its receive handlers.
use libn2t.Common.{
  ℕ, ◌≡◌, refl, sym, ◌⊎◌, true, false, List, [], ◌∷◌, ◌++◌, none, arith, append-nil, chain,
}
use libn2t.Utils.Pbuf.{pbuf_to_str}
use libn2t.Socket.State.{Socket, Outcome, received, received-append}
use libn2t.Socket.{Op, recv_callback, perform, run}

-- No receiver waits while there are bytes for it.
abbrev pub IsServed : Socket → Type 0
IsServed s = (s.recv ≡ none) ⊎ (s.recv_buf ≡ [])

-- The bytes that an operation brings.
abbrev pub arrived : Op → List ℕ
arrived (recv_callback e p closed) = pbuf_to_str p
arrived _ = []

abbrev pub arrived_all : List Op → List ℕ
arrived_all [] = []
arrived_all (o ∷ os) = arrived o ++ arrived_all os

perform-freed : (o : Op) (s : Socket) → s.pcb_freed ≡ true → (perform o s).state.pcb_freed ≡ true
unfolding perform
perform-freed o s h = ground arith

perform-IsServed :
    (o : Op) (s : Socket)
    → IsServed s
    → (perform o s).state.pcb_freed ≡ false
    → IsServed (perform o s).state
      × (received (perform o s).effects ++ (perform o s).state.recv_buf ≡ s.recv_buf ++ arrived o)
perform-IsServed (recv_callback e [] closed) s h f =
    unfold perform pbuf_to_str in ground (arith, append-nil s.recv_buf)
perform-IsServed (recv_callback e (x ∷ p) closed) s h f =
    unfold perform in ground (arith, append-nil (pbuf_to_str (x ∷ p)))
perform-IsServed o s h f = unfold perform in ground (arith, append-nil s.recv_buf)

run-freed : (os : List Op) (s : Socket) → s.pcb_freed ≡ true → (run os s).state.pcb_freed ≡ true
unfolding run
run-freed [] s h = h
run-freed (o ∷ os) s h = ground (arith, perform-freed o s h, run-freed os (perform o s).state)

-- If no receiver waits beside held bytes at first, the connection is neither closed nor failed by
-- the end and no exception leaves a method: the bytes handed to the receive handlers, followed by
-- those still held, are the bytes held at first and those of all packets that lwIP brought, in
-- their order, whatever else is called on the socket in between; and no receiver waits while there
-- are bytes.
pub run-received :
    (os : List Op) (s : Socket)
    → IsServed s
    → (run os s).state.pcb_freed ≡ false
    → (run os s).thrown ≡ false
    → IsServed (run os s).state
      × (received (run os s).effects ++ (run os s).state.recv_buf ≡ s.recv_buf ++ arrived_all os)
unfolding run
run-received [] s h f k = (h, sym (append-nil s.recv_buf))
run-received (o ∷ os) s h f k =
    let t : Outcome = perform o s in
    let u : Outcome = run os t.state in
    ground (
      arith,
      run-freed os t.state,
      perform-IsServed o s h,
      run-received os t.state,
      received-append t.effects u.effects,
      chain (received t.effects) (received u.effects) u.state.recv_buf s.recv_buf t.state.recv_buf
          (arrived o) (arrived_all os),
    )

perform-lost :
    (o : Op) (s : Socket)
    → s.pcb_freed ≡ true
    → s.recv ≡ none
    → (received (perform o s).effects ≡ [])
      × ((perform o s).state.recv ≡ none)
      × ((perform o s).state.pcb_freed ≡ true)
unfolding perform
perform-lost o s h r = ground arith

-- Once the connection is closed or has failed and no receiver waits, no receive handler is given a
-- byte any more: what is still held then, and what arrives then, is lost.
pub run-lost :
    (os : List Op) (s : Socket)
    → s.pcb_freed ≡ true
    → s.recv ≡ none
    → received (run os s).effects ≡ []
unfolding run
run-lost [] s h r = refl
run-lost (o ∷ os) s h r =
    let t : Outcome = perform o s in
    ground (
      arith,
      perform-lost o s h r,
      run-lost os t.state,
      received-append t.effects (run os t.state).effects,
    )
