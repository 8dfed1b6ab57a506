-- ===== src/UdpSession/Teardown.antt =====
-- The life of a session: the order of its states, and what `destroy` leaves behind.
use libn2t.Common.{
  pass, ℕ, ◌+◌, ◌≤◌, ◌≡◌, ◌≢◌, refl, sym, ap, ap₂, ◌∙◌, append_assoc, append-nil, ◌⊎◌, true, false,
  List, [], ◌∷◌, ◌++◌, arith, if◌then◌else◌,
}
use libn2t.Utils.Socks5.{AddressApi}
use libn2t.UdpSession.State.{
  UdpSession, UdpPacket, Status, handshake, request, forward, destroyed, Net, Event, connected,
  tcp_was_read, arrives, timer_cancel, tcp_cancel, tcp_shutdown, tcp_close, out_cancel, out_close,
  Outcome, emissions, deliveries, tcp_writes, emissions-append, deliveries-append,
  tcp_writes-append,
}
use libn2t.UdpSession.{
  in_recv, flush, begin_forward, on_reply, tcp_recv, destroy, same_source, handle, run,
}

-- A session that is destroyed has closed both of its sockets.
pub record IsClosed (s : UdpSession) : Type 0 where
  pub tcp_closed : s.status ≡ destroyed → s.tcp_open ≡ false
  pub out_closed : s.status ≡ destroyed → s.out_open ≡ false

-- How far a session has come.
abbrev pub rank : Status → ℕ
rank handshake = 0
rank request = 1
rank forward = 2
rank destroyed = 3

-- What an event may do to a session: it ends closed if it ends destroyed, it never goes back,
-- and it goes on by one state at most or to the end.
abbrev pub Advances : UdpSession → UdpSession → Type 0
Advances s t =
    IsClosed t
    × (rank s.status ≤ rank t.status)
    × ((rank t.status ≤ rank s.status + 1) ⊎ (t.status ≡ destroyed))

-- The packets of one source that come, and the greetings that the completed connects ask for.
abbrev pub kept : UdpPacket → List (Net × Event) → List UdpPacket
kept q [] = []
kept q ((net, arrives p) ∷ es) = if same_source p q then p ∷ kept q es else kept q es
kept q (_ ∷ es) = kept q es

abbrev pub greetings : List (Net × Event) → List (List ℕ)
greetings [] = []
greetings ((net, connected false) ∷ es) = (5 ∷ 1 ∷ 0 ∷ []) ∷ greetings es
greetings (_ ∷ es) = greetings es

module _ (api : AddressApi) (net : Net) where
  pub in_recv-forward :
      (p : UdpPacket) (s : UdpSession) → s.status ≡ forward → (in_recv api net p s).state ≡ s
  unfolding in_recv
  in_recv-forward p s h = ground arith

  pub flush-forward :
      (ps : List UdpPacket) (s : UdpSession) → s.status ≡ forward → (flush api net ps s).state ≡ s
  unfolding flush
  flush-forward [] s h = refl
  flush-forward (p ∷ ps) s h = ground (
    arith,
    in_recv-forward p s h,
    flush-forward ps s h,
    flush-forward ps (in_recv api net p s).state,
  )

  pub begin_forward-session :
      (s : UdpSession) → (begin_forward api net s).state ≡ record s { status = forward }
  unfolding begin_forward
  begin_forward-session s =
      let t : UdpSession = record s { status = forward } in
      ground (
        arith,
        in_recv-forward s.initial_packet t refl,
        flush-forward s.send_que t refl,
        flush-forward (in_recv api net s.initial_packet t).state.send_que
            (in_recv api net s.initial_packet t).state,
      )

  on_reply-Advances :
      (d : List ℕ) (s : UdpSession)
      → s.status ≡ request
      → IsClosed s
      → Advances s (on_reply api net d s).state
  unfolding on_reply
  on_reply-Advances d s q h =
      ground (arith, begin_forward-session (record s { out_open = net.open_after }))

  -- If a session is closed when it is destroyed, every event, in every state, keeps that, never
  -- takes the session back to an earlier status, and takes it on by one status at most or to the
  -- end.
  pub handle-Advances :
      (e : Event) (s : UdpSession) → IsClosed s → Advances s (handle api net e s).state
  handle-Advances (tcp_was_read error d) s h =
      unfold tcp_recv handle in ground (arith, on_reply-Advances d s)
  handle-Advances e s h = unfold handle in ground arith

  -- On a session that is not destroyed, `destroy` closes what is open, stops the timer, and does
  -- nothing the second time.
  pub destroy_lem :
      (s : UdpSession)
      → s.status ≢ destroyed
      → ((destroy s).state ≡ record s { status = destroyed; tcp_open = false; out_open = false })
        × ((destroy s).effects
            ≡ (if s.tcp_open then tcp_cancel ∷ tcp_shutdown ∷ tcp_close ∷ [] else [])
              ++ ((if s.out_open then out_cancel ∷ out_close ∷ [] else []) ++ timer_cancel ∷ []))
        × (destroy (destroy s).state ≡ pass (destroy s).state)
  unfolding destroy
  destroy_lem s h = ground arith

  pub handle-destroyed :
      (e : Event) (s : UdpSession)
      → s.status ≡ destroyed
      → ((handle api net e s).state
          ≡ record s { send_que = s.send_que ++ kept s.initial_packet ((net, e) ∷ []) })
        × (emissions (handle api net e s).effects ≡ [])
        × (deliveries (handle api net e s).effects ≡ [])
        × (tcp_writes (handle api net e s).effects ≡ greetings ((net, e) ∷ []))
        × ((handle api net e s).thrown ≡ false)
  unfolding handle
  handle-destroyed e s h = ground (arith, append-nil s.send_que)

kept-cons :
    (q : UdpPacket) (net : Net) (e : Event) (es : List (Net × Event))
    → kept q ((net, e) ∷ es) ≡ kept q ((net, e) ∷ []) ++ kept q es
kept-cons q net (arrives p) es = ground arith
kept-cons q net e es = refl

greetings-cons :
    (net : Net) (e : Event) (es : List (Net × Event))
    → greetings ((net, e) ∷ es) ≡ greetings ((net, e) ∷ []) ++ greetings es
greetings-cons net (connected false) es = refl
greetings-cons net (connected true) es = refl
greetings-cons net e es = refl

-- Once destroyed, whatever events and packets come, a session changes in nothing but its queue, to
-- which it adds the packets of its own source; it sends no datagram to the proxy and hands no packet to
-- the owner, writes to the TCP connection the greeting for each connect that completes without an error
-- and nothing else, and no handler throws.
pub run-destroyed :
    (api : AddressApi) (es : List (Net × Event)) (s : UdpSession)
    → s.status ≡ destroyed
    → ((run api es s).state ≡ record s { send_que = s.send_que ++ kept s.initial_packet es })
      × (emissions (run api es s).effects ≡ [])
      × (deliveries (run api es s).effects ≡ [])
      × (tcp_writes (run api es s).effects ≡ greetings es)
      × ((run api es s).thrown ≡ false)
unfolding run
run-destroyed api [] s h =
    (ap (λ l. record s { send_que = l }) (sym (append-nil s.send_que)), refl, refl, refl, refl)
run-destroyed api ((net, e) ∷ es) s h =
    let t : Outcome = handle api net e s in
    let (same, emitted, delivered, wrote, fine) = handle-destroyed api net e s h in
    let (same', emitted', delivered', wrote', fine') =
      run-destroyed api es t.state (ap (λ (u : UdpSession). u.status) same ∙ h) in
    rw fine (
      same'
          ∙ ap (λ (u : UdpSession). record u { send_que = u.send_que ++ kept u.initial_packet es })
              same
          ∙ ap (λ l. record s { send_que = l })
              (append_assoc s.send_que (kept s.initial_packet ((net, e) ∷ []))
                  (kept s.initial_packet es)
                ∙ ap (◌++◌ s.send_que) (sym (kept-cons s.initial_packet net e es))),
      emissions-append t.effects (run api es t.state).effects ∙ ap₂ ◌++◌ emitted emitted',
      deliveries-append t.effects (run api es t.state).effects ∙ ap₂ ◌++◌ delivered delivered',
      tcp_writes-append t.effects (run api es t.state).effects
          ∙ ap₂ ◌++◌ wrote wrote'
          ∙ sym (greetings-cons net e es),
      fine',
    )
