-- ===== src/TcpSession/Flow.antt =====
-- At any time a session has at most one read and one write under way on each of its two sockets, as
-- Boost.Asio requires of `async_write` and the socket of its one-shot handlers.
use libn2t.Common.{
  ℕ, suc, ◌+◌, ◌-◌, ◌≤◌, ◌<◌, ◌≡◌, refl, ◌⊎◌, inl, inr, Bool, true, false, List, [], ◌∷◌, Option,
  none, some, arith,
}
use libn2t.Utils.Socks5.{AddressApi}
use libn2t.Utils.Pbuf.{Pbuf}
use libn2t.Socket
use libn2t.Socket.State.{Err}
use libn2t.TcpSession.State.{
  Status, handshake, request, forward, destroyed, TcpSession, Effect, out_connect, out_read,
  out_write, Outcome,
}
use libn2t.TcpSession.{
  Event, connected, out_was_read, out_written, in_recv_callback, in_sent_callback, in_err_callback,
  start, handle, destroy, out_recv,
}

Status-cases : (s : Status) → (s ≡ handshake) ⊎ ((s ≡ request) ⊎ ((s ≡ forward) ⊎ (s ≡ destroyed)))
Status-cases handshake = inl refl
Status-cases request = inr (inl refl)
Status-cases forward = inr (inr (inl refl))
Status-cases destroyed = inr (inr (inr refl))

abbrev pub count_connects : List Effect → ℕ
count_connects [] = 0
count_connects (out_connect a p ∷ es) = suc (count_connects es)
count_connects (_ ∷ es) = count_connects es

abbrev pub count_reads : List Effect → ℕ
count_reads [] = 0
count_reads (out_read ∷ es) = suc (count_reads es)
count_reads (_ ∷ es) = count_reads es

abbrev pub count_writes : List Effect → ℕ
count_writes [] = 0
count_writes (out_write d ∷ es) = suc (count_writes es)
count_writes (_ ∷ es) = count_writes es

-- A session with the operations that are under way on `out_sock`.
pub record World : Type 0 where
  pub session : TcpSession
  pub connects : ℕ
  pub reads : ℕ
  pub writes : ℕ

-- An operation is under way before its completion handler runs.
abbrev pub Possible : Event → World → Type 0
Possible (connected error) w = 0 < w.connects
Possible (out_was_read error d) w = 0 < w.reads
Possible (out_written error) w = 0 < w.writes
Possible _ w = Unit {0}

abbrev pub issue : Outcome → World → World
issue t w = record {
  session = t.state;
  connects = w.connects + count_connects t.effects;
  reads = w.reads + count_reads t.effects;
  writes = w.writes + count_writes t.effects;
}

abbrev pub complete : Event → World → World
complete (connected error) w = record w { connects = w.connects - 1 }
complete (out_was_read error d) w = record w { reads = w.reads - 1 }
complete (out_written error) w = record w { writes = w.writes - 1 }
complete _ w = w

module _ (api : AddressApi) (ntoa : List ℕ → List ℕ) where
  abbrev pub advance : World → Event → World
  advance w e = issue (handle api ntoa e w.session) (complete e w)

abbrev pub waits : Option ℕ → ℕ
waits none = 0
waits (some h) = 1

abbrev pub Balanced : Status → World → Type 0
Balanced handshake w =
    (w.connects + w.reads + w.writes ≡ 1)
    × (w.session.in_sock.recv ≡ none)
    × (w.session.in_sock.sent ≡ none)
Balanced request w =
    (w.connects + w.reads + w.writes ≡ 1)
    × (w.session.in_sock.recv ≡ none)
    × (w.session.in_sock.sent ≡ none)
Balanced forward w =
    (w.connects ≡ 0)
    × (w.reads + waits w.session.in_sock.sent ≡ 1)
    × (w.writes + waits w.session.in_sock.recv ≡ 1)
Balanced destroyed w =
    (w.connects + w.writes ≤ 1)
    × (w.reads ≤ 1)
    × (w.session.in_sock.recv ≡ none)
    × (w.session.in_sock.sent ≡ none)
    × (w.session.in_sock.err ≡ none)

abbrev pub IsBalanced : World → Type 0
IsBalanced w = Balanced w.session.status w

module _ (api : AddressApi) (ntoa : List ℕ → List ℕ) where
  advance-connected :
      (error : Bool) (w : World)
      → IsBalanced w
      → Possible (connected error) w
      → IsBalanced (advance api ntoa w (connected error))
  advance-connected error w h p = unfold handle in ground arith

  advance-out_written :
      (error : Bool) (w : World)
      → IsBalanced w
      → Possible (out_written error) w
      → IsBalanced (advance api ntoa w (out_written error))
  advance-out_written error w h p = unfold handle in ground arith

  destroy-Balanced :
      (w : World)
      → (w.session.status ≡ destroyed
          → (w.session.in_sock.recv ≡ none)
            × (w.session.in_sock.sent ≡ none)
            × (w.session.in_sock.err ≡ none))
      → ((destroy w.session).state.status ≡ destroyed)
        × (count_connects (destroy w.session).effects ≡ 0)
        × (count_reads (destroy w.session).effects ≡ 0)
        × (count_writes (destroy w.session).effects ≡ 0)
        × ((destroy w.session).state.in_sock.recv ≡ none)
        × ((destroy w.session).state.in_sock.sent ≡ none)
        × ((destroy w.session).state.in_sock.err ≡ none)
  destroy-Balanced w h = unfold destroy in ground arith

  out_recv-Balanced :
      (d : List ℕ) (w : World)
      → IsBalanced w
      → 0 < w.reads
      → (out_recv api ntoa d w.session).thrown ≡ false
      → IsBalanced (issue (out_recv api ntoa d w.session) (complete (out_was_read false d) w))
  out_recv-Balanced d w h p k = elim (Status-cases w.session.status) [
    | inl e ↦ unfold out_recv in ground (arith, destroy-Balanced w)
    | inr (inl e) ↦ unfold out_recv in ground (arith, destroy-Balanced w)
    | inr (inr (inl e)) ↦ unfold out_recv in ground arith
    | inr (inr (inr e)) ↦ unfold out_recv in ground arith
  ]

  advance-out_was_read :
      (error : Bool) (d : List ℕ) (w : World)
      → IsBalanced w
      → Possible (out_was_read error d) w
      → (handle api ntoa (out_was_read error d) w.session).thrown ≡ false
      → IsBalanced (advance api ntoa w (out_was_read error d))
  advance-out_was_read true d w h p k = unfold handle in ground (arith, destroy-Balanced w)
  advance-out_was_read false d w h p k = unfold handle in out_recv-Balanced d w h p k

  advance-in_recv_callback :
      (e : Err) (p : List Pbuf) (closed : Err) (w : World)
      → IsBalanced w
      → IsBalanced (advance api ntoa w (in_recv_callback e p closed))
  advance-in_recv_callback e [] closed w h = unfold handle Socket.on_recv in ground arith
  advance-in_recv_callback e (x ∷ p) closed w h = unfold handle Socket.on_recv in ground arith

  advance-in_sent_callback :
      (len : ℕ) (w : World) → IsBalanced w → IsBalanced (advance api ntoa w (in_sent_callback len))
  advance-in_sent_callback len w h = unfold handle Socket.on_sent in ground arith

  advance-in_err_callback :
      (e : Err) (w : World) → IsBalanced w → IsBalanced (advance api ntoa w (in_err_callback e))
  advance-in_err_callback e w h = unfold handle Socket.on_err in ground arith

  advance-IsBalanced :
      (e : Event) (w : World)
      → IsBalanced w
      → Possible e w
      → (handle api ntoa e w.session).thrown ≡ false
      → IsBalanced (advance api ntoa w e)
  advance-IsBalanced (connected error) w h p k = advance-connected error w h p
  advance-IsBalanced (out_was_read error d) w h p k = advance-out_was_read error d w h p k
  advance-IsBalanced (out_written error) w h p k = advance-out_written error w h p
  advance-IsBalanced (in_recv_callback e d closed) w h p k = advance-in_recv_callback e d closed w h
  advance-IsBalanced (in_sent_callback len) w h p k = advance-in_sent_callback len w h
  advance-IsBalanced (in_err_callback e) w h p k = advance-in_err_callback e w h

  abbrev pub idle : TcpSession → World
  idle s = record { session = s; connects = 0; reads = 0; writes = 0 }

  -- Each event of a row is possible when it comes, and where the row leads.
  abbrev pub AllPossible : List Event → World → Type 0
  AllPossible [] w = Unit {0}
  AllPossible (e ∷ es) w = Possible e w × AllPossible es (advance api ntoa w e)

  abbrev pub advance_all : List Event → World → World
  advance_all [] w = w
  advance_all (e ∷ es) w = advance_all es (advance api ntoa w e)

  -- The worlds that a session comes through: it is started while nothing waits at its socket, and
  -- then completions and callbacks come in any order in which they are possible.
  pub data Reach : World → Type 0 where
    begins :
        (s : TcpSession)
        → s.status ≡ handshake
        → s.in_sock.recv ≡ none
        → s.in_sock.sent ≡ none
        → (start api s).thrown ≡ false
        → Reach (issue (start api s) (idle s))
    next :
        {w : World} (e : Event)
        → Reach w
        → Possible e w
        → (handle api ntoa e w.session).thrown ≡ false
        → Reach (advance api ntoa w e)

  begins-IsBalanced :
      (s : TcpSession)
      → s.status ≡ handshake
      → s.in_sock.recv ≡ none
      → s.in_sock.sent ≡ none
      → (start api s).thrown ≡ false
      → IsBalanced (issue (start api s) (idle s))
  begins-IsBalanced s h r t k = unfold start in ground arith

  -- In every world that a started session reaches without an exception: during the negotiation
  -- exactly one of connecting, reading and writing is under way at the proxy, and no receiver and no
  -- sender waits at the application's socket; while forwarding, each direction is either reading from
  -- its source or writing to its sink, never both and never neither; once destroyed, none of the three
  -- handlers waits at the application's socket, that of errors included.
  pub Reach-IsBalanced : {w : World} → Reach w → IsBalanced w
  Reach-IsBalanced (begins s h r t k) = begins-IsBalanced s h r t k
  Reach-IsBalanced (next {w = v} e r p k) = advance-IsBalanced e v (Reach-IsBalanced r) p k

  -- In every world that a started session reaches without an exception, two connects, two reads or
  -- two writes never overlap on the socket to the proxy.
  pub Reach-single : {w : World} → Reach w → (w.connects ≤ 1) × (w.reads ≤ 1) × (w.writes ≤ 1)
  Reach-single {w} r = elim (Status-cases w.session.status) [
    | inl e ↦ ground (arith, Reach-IsBalanced r)
    | inr (inl e) ↦ ground (arith, Reach-IsBalanced r)
    | inr (inr (inl e)) ↦ ground (arith, Reach-IsBalanced r)
    | inr (inr (inr e)) ↦ ground (arith, Reach-IsBalanced r)
  ]
