-- ===== src/Examples/Boundary.antt =====
-- Examples of src/n2t/n2t.cpp, src/n2t/n2s.cpp and src/custom/sys_arch.c.
use libn2t.Common.{
  ℕ, ◌+◌, ◌-◌, ◌*◌, ◌<◌, u32, ◌≡◌, ◌⊎◌, true, false, List, [], ◌∷◌, none, some, arith, take, All,
}
use libn2t.Utils.Pbuf.{PbufApi}
use libn2t.Socket.State.{ok}
use libn2t.UdpSession.State.{UdpSession}
use libn2t.UdpSession.State
use libn2t.UdpSession
use libn2t.N2t.State.{IpApi, new}
use libn2t.N2t.{
  Op, puts_out, accepts, receives, wants_output, wants_connection, wants_datagram, cancels,
}
use libn2t.N2s.{N2s, udp_session, update, on_udp}
use libn2t.Clock.{Timespec, sys_now, nanos, sys_now_elapsed}
use libn2t.N2s.Dispatch.{
  IsRouted, source_at, Apart, again, IsListed, Keeps, on_udp-IsRouted, on_udp_cases,
}
use libn2t.Examples.Addresses.{text_api}
use libn2t.Examples.Data.{block, four_text, home_text, pcb, second_packet, good_net}
use libn2t.Examples.Data

abbrev ip : IpApi
ip = record { ntoa = λ a. a; aton = λ t. some t }

abbrev pbufs : PbufApi
pbufs = record { pbuf_alloc = λ n. some ([]); pbuf_take = λ p buf n. block (take n buf) ∷ [] }

-- A packet before its handler, a connection and a datagram after theirs, and a cancellation.
abbrev history : List Op
history =
    puts_out (block (1 ∷ []) ∷ [])
    ∷ wants_output 1
    ∷ wants_connection 7 2
    ∷ accepts pcb ok
    ∷ cancels
    ∷ receives 53 home_text 1000 four_text (block (2 ∷ []) ∷ [])
    ∷ wants_datagram 3
    ∷ []

-- Session 0 has expired, session 1 is that of the first packet.
abbrev owner : N2s
owner = record {
  socks5_addr = four_text;
  socks5_port = 1080;
  udp_sessions = 0 ∷ 1 ∷ [];
  store = update (λ id. none) 1 Data.udp_session;
  next_id = 2;
  stopped = false;
}

owner-IsRouted : IsRouted owner
owner-IsRouted = record {
  given = (omega arith, (omega arith, tt));
  distinct = ((tt, tt), (tt, tt));
}

on_udp-IsRouted_example : IsRouted (on_udp text_api good_net second_packet owner).state
on_udp-IsRouted_example = on_udp-IsRouted text_api good_net second_packet owner owner-IsRouted

abbrev begun : UdpSession
begun = State.new owner.socks5_addr owner.socks5_port second_packet

on_udp_cases_example :
    Keeps text_api good_net second_packet owner (on_udp text_api good_net second_packet owner).state
    × (((id : ℕ) × (u : UdpSession) × IsListed id owner.udp_sessions
          × (owner.store id ≡ some u)
          × (UdpSession.same_source second_packet u.initial_packet ≡ true)
          × IsListed id (on_udp text_api good_net second_packet owner).state.udp_sessions
          × ((on_udp text_api good_net second_packet owner).state.store
              ≡ update owner.store id (UdpSession.in_recv text_api good_net second_packet u).state)
          × ((on_udp text_api good_net second_packet owner).effects
              ≡ udp_session id (UdpSession.in_recv text_api good_net second_packet u).effects
                ∷ again
                    (UdpSession.in_recv text_api good_net second_packet u).thrown
                    owner.stopped))
        ⊎ (All (λ j. Apart (source_at owner.store j) (some second_packet)) owner.udp_sessions
            × IsListed 2 (on_udp text_api good_net second_packet owner).state.udp_sessions
            × ((on_udp text_api good_net second_packet owner).state.store
                ≡ update owner.store 2 (UdpSession.start text_api begun).state)
            × ((on_udp text_api good_net second_packet owner).effects
                ≡ udp_session 2 (UdpSession.start text_api begun).effects
                  ∷ again (UdpSession.start text_api begun).thrown owner.stopped)))
on_udp_cases_example = on_udp_cases text_api good_net second_packet owner

-- The clock wraps between these two times.
abbrev earlier : Timespec
earlier = record { tv_sec = 4294967; tv_nsec = 290000000 }

abbrev later : Timespec
later = record { tv_sec = 4294967; tv_nsec = 310000000 }

sys_now_elapsed_example :
    ((u32 (sys_now later + 4294967296 - sys_now earlier)) * 1000000
      < nanos later - nanos earlier + 1000000)
    × (nanos later - nanos earlier
        < (u32 (sys_now later + 4294967296 - sys_now earlier)) * 1000000 + 1000000)
sys_now_elapsed_example = sys_now_elapsed earlier later (omega arith) (omega arith)
