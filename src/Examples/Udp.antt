-- ===== src/Examples/Udp.antt =====
-- Examples of src/n2t/udpsession.cpp.
use libn2t.Common.{ℕ, ◌≡◌, ◌≢◌, refl, ◌⊎◌, true, false, List, [], ◌∷◌, ◌++◌, map, some, arith}
use libn2t.Utils.Socks5.{AddressApi, addrport_to_socks5, socks5_to_addrport}
use libn2t.Utils.Socks5.RoundTrip.{SameAddress}
use libn2t.UdpSession.State.{
  UdpSession, UdpPacket, forward, destroyed, Net, Event, connected, tcp_was_read, tcp_written,
  arrives, emissions, deliveries, tcp_writes, timer_cancel, timer_wait, in_write, out_read,
}
use libn2t.UdpSession.{same_source, encode, out_recv, handle, run}
use libn2t.UdpSession.Teardown.{IsClosed, Advances, handle-Advances, run-destroyed}
use libn2t.UdpSession.Outbound.{pending, accepted_all, run-conserves}
use libn2t.UdpSession.Replies.{Passes, Ends, out_recv-reply, out_recv-header, out_recv_cases}
use libn2t.Examples.Addresses.{four_address, text_api, text_laws}
use libn2t.Examples.Data.{
  four_text, first_packet, second_packet, foreign_packet, good_net, udp_session,
}

-- A parser for which every text is one address.
abbrev fixed_api : AddressApi
fixed_api = record {
  Address = Unit {0};
  from_string = λ text. some tt;
  is_v4 = λ x. true;
  v4_bytes = λ x. 1 ∷ 2 ∷ 3 ∷ 4 ∷ [];
  v6_bytes = λ x. [];
}

-- A flow whose second packet comes during the negotiation and whose fourth comes after it; the
-- third packet belongs to another flow.
abbrev flow : List (Net × Event)
flow =
    (good_net, connected false)
    ∷ (good_net, tcp_written false)
    ∷ (good_net, tcp_was_read false (5 ∷ 0 ∷ []))
    ∷ (good_net, arrives second_packet)
    ∷ (good_net, arrives foreign_packet)
    ∷ (good_net, tcp_was_read false (5 ∷ 0 ∷ 0 ∷ 1 ∷ 1 ∷ 2 ∷ 3 ∷ 4 ∷ 0 ∷ 80 ∷ []))
    ∷ (good_net, arrives second_packet)
    ∷ []

forward≢destroyed : forward ≢ destroyed
forward≢destroyed e = ground arith

run-conserves_example :
    map some (emissions (run fixed_api flow udp_session).effects)
      ++ map (encode fixed_api) (pending (run fixed_api flow udp_session).state)
    ≡ map (encode fixed_api) (pending udp_session ++ accepted_all first_packet flow)
unfolding run handle encode addrport_to_socks5 socks5_to_addrport
run-conserves_example = run-conserves fixed_api flow udp_session refl forward≢destroyed

abbrev forwarding : UdpSession
forwarding = record udp_session { status = forward; out_open = true }

out_recv-reply_example :
    (e : List ℕ) × (q : UdpPacket) × (y : text_api.Address) × (addrport_to_socks5 text_api four_text
        80
      ≡ some e)
    × (out_recv (0 ∷ 0 ∷ 0 ∷ (e ++ 9 ∷ 8 ∷ [])) forwarding ≡ record {
      state = forwarding;
      effects = timer_cancel ∷ timer_wait ∷ in_write q ∷ out_read ∷ [];
      thrown = false;
    })
    × (q.payload ≡ 9 ∷ 8 ∷ [])
    × (q.src_port ≡ 80)
    × (q.dst_addr ≡ first_packet.src_addr)
    × (q.dst_port ≡ first_packet.src_port)
    × (text_api.from_string q.src_addr ≡ some y)
    × SameAddress text_api four_address y
unfolding text_api four_address
out_recv-reply_example =
    out_recv-reply text_api text_laws forwarding refl four_text four_address 80 (9 ∷ 8 ∷ []) refl
      (omega arith)

out_recv-header_example :
    out_recv (7 ∷ 7 ∷ 7 ∷ 1 ∷ []) forwarding ≡ out_recv (0 ∷ 0 ∷ 0 ∷ 1 ∷ []) forwarding
out_recv-header_example = out_recv-header 7 7 7 1 [] forwarding

abbrev reply : List ℕ
reply = 0 ∷ 0 ∷ 0 ∷ 1 ∷ 1 ∷ 2 ∷ 3 ∷ 4 ∷ 0 ∷ 80 ∷ 9 ∷ []

out_recv_cases_example :
    Passes reply forwarding (out_recv reply forwarding) ⊎ Ends (out_recv reply forwarding)
out_recv_cases_example = out_recv_cases reply forwarding refl

udp_session-IsClosed : IsClosed udp_session
udp_session-IsClosed = record { tcp_closed = λ e. ground arith; out_closed = λ e. ground arith }

handle-Advances_example :
    Advances udp_session
      (handle text_api good_net (tcp_was_read false (5 ∷ 0 ∷ [])) udp_session).state
handle-Advances_example =
    handle-Advances text_api good_net (tcp_was_read false (5 ∷ 0 ∷ [])) udp_session
      udp_session-IsClosed

abbrev ended : UdpSession
ended = record udp_session { status = destroyed; tcp_open = false }

run-destroyed_example :
    ((run text_api flow ended).state
      ≡ record ended { send_que = second_packet ∷ second_packet ∷ [] })
    × (emissions (run text_api flow ended).effects ≡ [])
    × (deliveries (run text_api flow ended).effects ≡ [])
    × (tcp_writes (run text_api flow ended).effects ≡ (5 ∷ 1 ∷ 0 ∷ []) ∷ [])
    × ((run text_api flow ended).thrown ≡ false)
unfolding same_source
run-destroyed_example = run-destroyed text_api flow ended refl
