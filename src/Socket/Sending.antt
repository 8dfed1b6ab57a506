-- ===== src/Socket/Sending.antt =====
-- The count of unacknowledged bytes, and the handler that is called when it reaches 0.
use libn2t.Common.{
  ℕ, suc, ◌+◌, ◌≤◌, ◌<◌, ◌≡◌, ◌≢◌, refl, ◌⊎◌, true, false, List, [], ◌∷◌, ◌++◌, none, arith, length,
  Option-cases, take, take-all, u16,
}
use libn2t.Socket.State.{Socket, Call, tcp_write, call_sent, Outcome}
use libn2t.Socket.{Op, sent_callback, send_method, perform, run}

-- What lwIP and the owner keep to: lwIP reports the acknowledgement of at least one byte, of no
-- more than are unacknowledged, and only while it holds the callbacks; the owner never has 2 ^ 32
-- bytes under way, and gives no packet whose length does not fit into the 16 bits of `tcp_write`.
abbrev pub Legal : Op → Socket → Type 0
Legal (sent_callback len) s = (s.registered ≡ true) × (0 < len) × (len ≤ s.pending_len)
Legal (send_method packet h) s =
    (length packet < 65536) × (s.pending_len + length packet < 4294967296)
Legal _ s = Unit {0}

abbrev pub AllLegal : List Op → Socket → Type 0
AllLegal [] s = Unit {0}
AllLegal (o ∷ os) s = Legal o s × AllLegal os (perform o s).state

-- While bytes are under way there is a handler for their acknowledgement.
pub record IsAwaited (s : Socket) : Type 0 where
  pub in_range : s.pending_len < 4294967296
  pub connected : s.registered ≡ true → s.pcb ≢ none
  pub awaited : s.registered ≡ true → (s.pending_len ≡ 0) ⊎ (s.sent ≢ none)

-- The bytes that the length given to `tcp_write` takes of its data, and the bytes acknowledged.
abbrev pub written : List Call → ℕ
written [] = 0
written (tcp_write d len ∷ cs) = length (take len d) + written cs
written (_ ∷ cs) = written cs

abbrev pub acked : List Op → ℕ
acked [] = 0
acked (sent_callback len ∷ os) = len + acked os
acked (_ ∷ os) = acked os

written-append : (xs ys : List Call) → written (xs ++ ys) ≡ written xs + written ys
written-append [] ys = omega arith
written-append (tcp_write d n ∷ xs) ys = omega (arith, written-append xs ys)
written-append (_ ∷ xs) ys = written-append xs ys

acked-cons : (o : Op) (os : List Op) → acked (o ∷ os) ≡ acked (o ∷ []) + acked os
acked-cons (sent_callback len) os = omega arith
acked-cons o os = omega arith

perform-IsAwaited :
    (o : Op) (s : Socket)
    → IsAwaited s
    → Legal o s
    → IsAwaited (perform o s).state
      × ((perform o s).thrown ≡ false)
      × ((perform o s).state.pending_len + acked (o ∷ [])
          ≡ s.pending_len + written (perform o s).effects)
perform-IsAwaited (sent_callback len) s h l = unfold perform in ground (arith, Option-cases s.sent)
perform-IsAwaited (send_method packet k) s h l =
    unfold perform in ground (arith, take-all (u16 (length packet)) packet)
perform-IsAwaited o s h l = unfold perform in ground arith

-- From a socket whose bytes under way are awaited, along every legal history, in which no packet has
-- 2 ^ 16 bytes or more: no empty handler is called, a handler stands ready whenever bytes are under
-- way on a registered socket, and the count is exactly the bytes that lwIP has been given less the
-- bytes acknowledged.
pub run-IsAwaited :
    (os : List Op) (s : Socket)
    → IsAwaited s
    → AllLegal os s
    → IsAwaited (run os s).state
      × ((run os s).thrown ≡ false)
      × ((run os s).state.pending_len + acked os ≡ s.pending_len + written (run os s).effects)
unfolding run
run-IsAwaited [] s h l = (h, refl, omega arith)
run-IsAwaited (o ∷ os) s h l =
    let t : Outcome = perform o s in
    ground (
      arith,
      perform-IsAwaited o s h l.0,
      run-IsAwaited os t.state,
      acked-cons o os,
      written-append t.effects (run os t.state).effects,
    )

-- The completions reported to the handlers.
abbrev pub completions : List Call → ℕ
completions [] = 0
completions (call_sent h f ∷ cs) = suc (completions cs)
completions (_ ∷ cs) = completions cs

-- On a socket whose bytes under way are awaited, a legal acknowledgement calls the waiting handler
-- exactly when it covers all bytes under way, and the handler is then gone; otherwise it calls
-- nothing and the handler stays.
pub on_sent_lem :
    (len : ℕ) (s : Socket)
    → IsAwaited s
    → Legal (sent_callback len) s
    → ((len ≡ s.pending_len)
        × (completions (perform (sent_callback len) s).effects ≡ 1)
        × ((perform (sent_callback len) s).state.sent ≡ none))
      ⊎ ((len < s.pending_len)
          × ((perform (sent_callback len) s).effects ≡ [])
          × ((perform (sent_callback len) s).state.sent ≡ s.sent))
on_sent_lem len s h l = unfold perform in ground (arith, Option-cases s.sent)
