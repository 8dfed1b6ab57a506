-- ===== src/N2s/Loops.antt =====
-- The five loops go on as long as the owner runs, and end when it stops.
use libn2t.Common.{
  ◌≡◌, ◌↔◌, inl, inr, Bool, true, false, List, [], ◌∷◌, none, arith, Option-cases, if◌then◌else◌,
}
use libn2t.Utils.Socks5.{AddressApi}
use libn2t.UdpSession.State.{Net, UdpPacket}
use libn2t.Socket.State.{Socket}
use libn2t.TcpSession.{start}
use libn2t.N2s.{
  N2s, Call, timer_wait, tun_wait, n2t_async_output, n2t_async_accept, n2t_async_udp_recv, Event,
  timer_fired, readable, output_came, accepted, datagram_came, search_sessions, on_accept, on_udp,
  handle, stop,
}

-- The calls that ask for the next event of a loop.
abbrev pub requests : List Call → List Call
requests [] = []
requests (timer_wait n ∷ cs) = timer_wait n ∷ requests cs
requests (tun_wait ∷ cs) = tun_wait ∷ requests cs
requests (n2t_async_output ∷ cs) = n2t_async_output ∷ requests cs
requests (n2t_async_accept ∷ cs) = n2t_async_accept ∷ requests cs
requests (n2t_async_udp_recv ∷ cs) = n2t_async_udp_recv ∷ requests cs
requests (_ ∷ cs) = requests cs

-- The request that leads to an event.
abbrev pub request_of : Event → Call
request_of (timer_fired error) = timer_wait 250
request_of (readable error got) = tun_wait
request_of (output_came packet) = n2t_async_output
request_of (accepted in_sock) = n2t_async_accept
request_of (datagram_came net packet) = n2t_async_udp_recv

-- What a handler asks for: the next event of its loop, unless an exception leaves it or the owner has
-- stopped.
abbrev pub due_requests : Bool → Bool → Event → List Call
due_requests thrown stopped e = if thrown then [] else (if stopped then [] else request_of e ∷ [])

on_udp-requests :
    (api : AddressApi) (net : Net) (packet : UdpPacket) (s : N2s)
    → (requests (on_udp api net packet s).effects
        ≡ due_requests (on_udp api net packet s).thrown s.stopped (datagram_came net packet))
      × ((on_udp api net packet s).state.stopped ≡ s.stopped)
on_udp-requests api net packet s =
    elim (Option-cases (search_sessions api net packet s.store s.udp_sessions).taken) [
      | inl e ↦ unfold on_udp in ground arith
      | inr ((id, step), e) ↦ unfold on_udp in ground arith
    ]

-- When an exception leaves a handler, apart from that of a datagram.
abbrev pub ThrowsIf : AddressApi → Event → N2s → Bool → Type 0
ThrowsIf api (accepted in_sock) s thrown = (thrown ≡ true) ↔ (api.from_string s.socks5_addr ≡ none)
ThrowsIf api (datagram_came net packet) s thrown = Unit {0}
ThrowsIf api _ s thrown = thrown ≡ false

on_accept-requests :
    (api : AddressApi) (in_sock : Socket) (s : N2s)
    → (requests (on_accept api in_sock s).effects
        ≡ due_requests (on_accept api in_sock s).thrown s.stopped (accepted in_sock))
      × ((on_accept api in_sock s).state.stopped ≡ s.stopped)
      × (((on_accept api in_sock s).thrown ≡ true) ↔ (api.from_string s.socks5_addr ≡ none))
on_accept-requests api in_sock s =
    unfold on_accept start in ground (arith, Option-cases (api.from_string s.socks5_addr))

pub handle-requests :
    (api : AddressApi) (e : Event) (s : N2s)
    → (requests (handle api e s).effects ≡ due_requests (handle api e s).thrown s.stopped e)
      × ((handle api e s).state.stopped ≡ s.stopped)
      × ThrowsIf api e s (handle api e s).thrown
handle-requests api (datagram_came net packet) s =
    unfold handle in (let (asks, stays) = on_udp-requests api net packet s in (asks, stays, tt))
handle-requests api (accepted in_sock) s = unfold handle in on_accept-requests api in_sock s
handle-requests api (readable error got) s = unfold handle in ground (arith, Option-cases got)
handle-requests api (timer_fired error) s = unfold handle in ground arith
handle-requests api (output_came packet) s = unfold handle in ground arith

-- After `stop`, the handlers of the events that were asked for ask for no more.
pub stop-requests :
    (api : AddressApi) (e : Event) (s : N2s) → requests (handle api e (stop s).state).effects ≡ []
unfolding stop
stop-requests api e s = ground (arith, handle-requests api e (record s { stopped = true }))
