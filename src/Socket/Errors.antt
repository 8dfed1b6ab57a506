-- ===== src/Socket/Errors.antt =====
-- The errors that lwIP reports, on their way to the error handlers.
use libn2t.Common.{◌≡◌, refl, sym, ◌⊎◌, false, List, [], ◌∷◌, ◌++◌, none, arith, append-nil, chain}
use libn2t.Socket.State.{Socket, Err, Outcome, errors, errors-append}
use libn2t.Socket.{Op, err_callback, perform, run}

-- No error handler waits while there are errors for it.
abbrev pub IsWaiting : Socket → Type 0
IsWaiting s = (s.err ≡ none) ⊎ (s.err_que ≡ [])

abbrev pub raised : List Op → List Err
raised [] = []
raised (err_callback e ∷ os) = e ∷ raised os
raised (_ ∷ os) = raised os

perform-IsWaiting : (o : Op) (s : Socket) → IsWaiting s → IsWaiting (perform o s).state
unfolding perform
perform-IsWaiting o s h = ground arith

perform-errors :
    (o : Op) (s : Socket)
    → IsWaiting s
    → errors (perform o s).effects ++ (perform o s).state.err_que ≡ s.err_que ++ raised (o ∷ [])
perform-errors (err_callback e) s h = unfold perform in ground (arith, append-nil (e ∷ []))
perform-errors o s h = unfold perform in ground (arith, append-nil s.err_que)

raised-cons : (o : Op) (os : List Op) → raised (o ∷ os) ≡ raised (o ∷ []) ++ raised os
raised-cons (err_callback e) os = refl
raised-cons o os = refl

-- If no error handler waits beside queued errors at first and no exception leaves a method: every
-- error that lwIP reports is given to one error handler, in order, or is still queued, and no
-- handler waits while errors are queued.
pub run-errors :
    (os : List Op) (s : Socket)
    → IsWaiting s
    → (run os s).thrown ≡ false
    → IsWaiting (run os s).state
      × (errors (run os s).effects ++ (run os s).state.err_que ≡ s.err_que ++ raised os)
unfolding run
run-errors [] s h k = (h, sym (append-nil s.err_que))
run-errors (o ∷ os) s h k =
    let t : Outcome = perform o s in
    let u : Outcome = run os t.state in
    ground (
      arith,
      perform-IsWaiting o s h,
      perform-errors o s h,
      run-errors os t.state,
      errors-append t.effects u.effects,
      raised-cons o os,
      chain (errors t.effects) (errors u.effects) u.state.err_que s.err_que t.state.err_que
          (raised (o ∷ [])) (raised os),
    )
