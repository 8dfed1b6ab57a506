-- ===== src/UdpSession/Outbound.antt =====
-- Packets of the flow on their way to the proxy: none is lost, doubled or reordered while the
-- session lives and no handler throws.
use libn2t.Common.{
  ℕ, ◌≡◌, ◌≢◌, refl, sym, ap, ◌∙◌, false, List, [], ◌∷◌, ◌++◌, map, some, arith, append_assoc,
  append-nil, if◌then◌else◌,
}
use mathlib.Core.List.{map-append}
use libn2t.Utils.Socks5.{AddressApi}
use libn2t.UdpSession.State.{
  UdpSession, UdpPacket, handshake, request, forward, destroyed, Net, Event, tcp_was_read, arrives,
  Outcome, emissions, emissions-append, new,
}
use libn2t.UdpSession.{
  in_recv, encode, flush, begin_forward, on_reply, tcp_recv, same_source, process, handle, run,
}
use libn2t.UdpSession.Teardown.{
  in_recv-forward, begin_forward-session, handle-destroyed, run-destroyed,
}

-- The packets that a session holds and has still to send.
abbrev pub pending : UdpSession → List UdpPacket
pending s = elim s.status [
  | handshake ↦ s.initial_packet ∷ s.send_que
  | request ↦ s.initial_packet ∷ s.send_que
  | forward ↦ []
  | destroyed ↦ []
]

-- The packet that an event brings for the flow of a given first packet.
abbrev pub accepted : UdpPacket → Event → List UdpPacket
accepted first (arrives p) = if same_source p first then p ∷ [] else []
accepted first _ = []

abbrev pub accepted_all : UdpPacket → List (Net × Event) → List UdpPacket
accepted_all first [] = []
accepted_all first ((net, e) ∷ es) = accepted first e ++ accepted_all first es

module _ (api : AddressApi) (net : Net) where
  in_recv-emits :
      (p : UdpPacket) (s : UdpSession)
      → s.status ≡ forward
      → (in_recv api net p s).thrown ≡ false
      → map some (emissions (in_recv api net p s).effects) ≡ encode api p ∷ []
  unfolding in_recv
  in_recv-emits p s h k = ground arith

  flush-emits :
      (ps : List UdpPacket) (s : UdpSession)
      → s.status ≡ forward
      → (flush api net ps s).thrown ≡ false
      → map some (emissions (flush api net ps s).effects) ≡ map (encode api) ps
  unfolding flush
  flush-emits [] s h k = refl
  flush-emits (p ∷ ps) s h k =
      let t : Outcome = in_recv api net p s in
      let u : Outcome = flush api net ps t.state in
      ground (
        arith,
        in_recv-emits p s h,
        in_recv-forward api net p s h,
        flush-emits ps t.state,
        emissions-append t.effects u.effects,
        map-append some (emissions t.effects) (emissions u.effects),
      )

  begin_forward-emits :
      (s : UdpSession)
      → (begin_forward api net s).thrown ≡ false
      → map some (emissions (begin_forward api net s).effects)
        ≡ map (encode api) (s.initial_packet ∷ s.send_que)
  unfolding begin_forward
  begin_forward-emits s k =
      let t : UdpSession = record s { status = forward } in
      let u : Outcome = in_recv api net s.initial_packet t in
      let v : Outcome = flush api net s.send_que t in
      ground (
        arith,
        in_recv-forward api net s.initial_packet t refl,
        in_recv-emits s.initial_packet t refl,
        flush-emits s.send_que t refl,
        emissions-append u.effects v.effects,
        map-append some (emissions u.effects) (emissions v.effects),
      )

  -- What is sent and what is still held, after a step, is what was held and what came in.
  abbrev Conserves : UdpSession → List UdpPacket → Outcome → Type 0
  Conserves s new t =
      t.thrown ≡ false
      → t.state.status ≢ destroyed
      → (map some (emissions t.effects) ++ map (encode api) (pending t.state)
          ≡ map (encode api) (pending s ++ new))

  on_reply-Conserves :
      (d : List ℕ) (s : UdpSession) → s.status ≡ request → Conserves s [] (on_reply api net d s)
  unfolding on_reply
  on_reply-Conserves d s h k live =
      let t : UdpSession = record s { out_open = net.open_after } in
      ground (
        arith,
        begin_forward-session api net t,
        begin_forward-emits t,
        append-nil (pending s),
        append-nil (map some (emissions (begin_forward api net t).effects)),
      )

  handle-Conserves :
      (e : Event) (s : UdpSession)
      → s.status ≢ destroyed
      → Conserves s (accepted s.initial_packet e) (handle api net e s)
  handle-Conserves (tcp_was_read error d) s h k live =
      unfold handle tcp_recv in ground (arith, on_reply-Conserves d s, append-nil (pending s))
  handle-Conserves (arrives p) s h k live =
      unfold handle process in
      ground (
        arith,
        map-append (encode api) (pending s) (p ∷ []),
        in_recv-emits p s,
        in_recv-forward api net p s,
        append-nil (pending s),
      )
  handle-Conserves e s h k live = unfold handle in ground (arith, append-nil (pending s))

  handle-initial_packet :
      (e : Event) (s : UdpSession) → (handle api net e s).state.initial_packet ≡ s.initial_packet
  handle-initial_packet (tcp_was_read error d) s =
      unfold handle tcp_recv on_reply in
      ground (arith, begin_forward-session api net (record s { out_open = net.open_after }))
  handle-initial_packet e s = unfold handle in ground arith

abbrev Goal : AddressApi → List (Net × Event) → UdpSession → Type 0
Goal api es s =
    (run api es s).thrown ≡ false
    → (run api es s).state.status ≢ destroyed
    → map some (emissions (run api es s).effects) ++ map (encode api) (pending (run api es s).state)
      ≡ map (encode api) (pending s ++ accepted_all s.initial_packet es)

regroup {ℓ κ} :
    {A : Type ℓ} {B : Type κ} (f : A → B) (xs ys end : List B) (held now new later : List A)
    → xs ++ map f now ≡ map f (held ++ new)
    → ys ++ end ≡ map f (now ++ later)
    → (xs ++ ys) ++ end ≡ map f (held ++ (new ++ later))
regroup f xs ys end held now new later h k =
    append_assoc xs ys end
    ∙ ap (◌++◌ xs) (k ∙ map-append f now later)
    ∙ sym (append_assoc xs (map f now) (map f later))
    ∙ ap (λ l. l ++ map f later) h
    ∙ sym (map-append f (held ++ new) later)
    ∙ ap (map f) (append_assoc held new later)

run-step :
    (api : AddressApi) (net : Net) (e : Event) (es : List (Net × Event)) (s : UdpSession)
    → Goal api es (handle api net e s).state
    → Goal api ((net, e) ∷ es) s
unfolding run
run-step api net e es s ih k live =
    let t : Outcome = handle api net e s in
    let u : Outcome = run api es t.state in
    let held : List UdpPacket = pending s in
    ground (
      arith,
      ih,
      handle-Conserves api net e s,
      handle-destroyed api net e s,
      run-destroyed api es t.state,
      handle-initial_packet api net e s,
      emissions-append t.effects u.effects,
      map-append (λ (x : List ℕ). some x) (emissions t.effects) (emissions u.effects),
      regroup (encode api) (map some (emissions t.effects)) (map some (emissions u.effects))
          (map (encode api) (pending u.state)) (pending s) (pending t.state)
          (accepted s.initial_packet e) (accepted_all s.initial_packet es),
    )

-- As long as no handler throws and the session is not destroyed at the end, the datagrams sent,
-- followed by the encodings of the packets still held, are the encodings of the first packet and of
-- all packets of the flow, in the order of their arrival.
pub run-conserves :
    (api : AddressApi) (es : List (Net × Event)) (s : UdpSession)
    → (run api es s).thrown ≡ false
    → (run api es s).state.status ≢ destroyed
    → map some (emissions (run api es s).effects) ++ map (encode api) (pending (run api es s).state)
      ≡ map (encode api) (pending s ++ accepted_all s.initial_packet es)
unfolding run
run-conserves api [] s k live = ap (map (encode api)) (sym (append-nil (pending s)))
run-conserves api ((net, e) ∷ es) s k live =
    run-step api net e es s (run-conserves api es (handle api net e s).state) k live
