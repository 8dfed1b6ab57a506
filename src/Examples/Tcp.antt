-- ===== src/Examples/Tcp.antt =====
-- Examples of src/n2t/tcpsession.cpp.
use libn2t.Common.{ℕ, ◌+◌, ◌≡◌, ◌≢◌, refl, inr, true, false, List, [], ◌∷◌, some, arith, take}
use libn2t.Utils.Socks5.{addrport_to_socks5}
use libn2t.Socket.{dst_addr, dst_port}
use libn2t.Socket.State.{ok}
use libn2t.TcpSession.State.{TcpSession, request, forward, destroyed, uplink, downlink}
use libn2t.TcpSession.{
  Event, connected, out_was_read, in_recv_callback, in_sent_callback, start, handle, out_recv, run,
}
use libn2t.TcpSession.Flow.{
  World, Reach, begins, next, IsBalanced, idle, issue, advance, Reach-IsBalanced, AllPossible,
  advance_all, waits,
}
use libn2t.TcpSession.Negotiation.{accepting, connecting, run-accepting, out_recv-refused}
use libn2t.Examples.Addresses.{text_api}
use libn2t.Examples.Data.{block, four_text, open_socket, tcp_session}

-- Addresses in their own text form.
abbrev same_text : List ℕ → List ℕ
same_text a = a

abbrev begun : World
begun = issue (start text_api tcp_session) (idle text_api same_text tcp_session)

abbrev greeted : World
greeted = advance text_api same_text begun (connected false)

begun-Reach : Reach text_api same_text begun
unfolding start text_api
begun-Reach = begins tcp_session refl refl refl refl

greeted-Reach : Reach text_api same_text greeted
unfolding start handle text_api
greeted-Reach = next (connected false) begun-Reach (omega arith) refl

Reach-IsBalanced_example : IsBalanced greeted
Reach-IsBalanced_example = Reach-IsBalanced text_api same_text greeted-Reach

abbrev forwarding : TcpSession
forwarding = record tcp_session {
  status = forward;
  out_open = true;
  in_sock = record open_socket { recv = some 0 };
}

-- The application sends twice before the first write to the proxy completes; the proxy answers.
abbrev traffic : List Event
traffic =
    in_recv_callback ok (block (1 ∷ 2 ∷ []) ∷ []) ok
    ∷ in_recv_callback ok (block (3 ∷ []) ∷ []) ok
    ∷ out_was_read false (8 ∷ 9 ∷ [])
    ∷ in_sent_callback 2
    ∷ []

-- The proxy accepts.
abbrev granted : List Event
granted = accepting text_api same_text 1 []

abbrev asked : World
asked = connecting text_api same_text tcp_session

run-accepting_example :
    AllPossible text_api same_text granted asked
    × ((advance_all text_api same_text granted asked).reads ≡ 1)
    × ((advance_all text_api same_text granted asked).writes
          + waits (advance_all text_api same_text granted asked).session.in_sock.recv
        ≡ 1)
    × ((run text_api same_text granted tcp_session).state.status ≡ forward)
    × (uplink (run text_api same_text granted tcp_session).effects
        ≡ 5 ∷ 1 ∷ 0 ∷ 5 ∷ 1 ∷ 0 ∷ 1 ∷ 1 ∷ 2 ∷ 3 ∷ 4 ∷ 1 ∷ 187 ∷ [])
    × (downlink (run text_api same_text granted tcp_session).effects ≡ [])
unfolding text_api addrport_to_socks5 dst_addr dst_port
run-accepting_example =
    run-accepting text_api same_text tcp_session four_text (1 ∷ 1 ∷ 2 ∷ 3 ∷ 4 ∷ 1 ∷ 187 ∷ []) 443 1
      [] refl refl refl refl refl refl

abbrev refused : List ℕ
refused = 5 ∷ 1 ∷ 0 ∷ 1 ∷ []

abbrev accepted : List ℕ
accepted = 5 ∷ 0 ∷ 0 ∷ []

refusal : take 3 refused ≢ accepted
refusal e = ground arith

abbrev asking : TcpSession
asking = record tcp_session { status = request }

out_recv-refused_example :
    ((out_recv text_api same_text (5 ∷ 1 ∷ 0 ∷ 1 ∷ []) asking).state.status ≡ destroyed)
    × (uplink (out_recv text_api same_text (5 ∷ 1 ∷ 0 ∷ 1 ∷ []) asking).effects ≡ [])
    × (downlink (out_recv text_api same_text (5 ∷ 1 ∷ 0 ∷ 1 ∷ []) asking).effects ≡ [])
out_recv-refused_example =
    out_recv-refused text_api same_text (5 ∷ 1 ∷ 0 ∷ 1 ∷ []) asking (inr (refl, inr refusal))
