-- ===== src/N2s.antt =====
-- src/n2t/n2s.cpp: the owner of the sessions. Each of its five loops starts itself again from its
-- own handler; the loop over datagrams finds the session of a datagram's source, or starts one.
pub mod Dispatch
pub mod Loops
use libn2t.Common.{
  ℕ, suc, ◌+◌, ◌<◌, Bool, true, false, not, List, [], ◌∷◌, ◌++◌, Option, none, some, length, ltb,
  leb, ◌==◌, if◌then◌else◌, Step, Action, pass, emit, throw, continue, ◌>>◌,
}
use libn2t.Utils.Socks5.{AddressApi}
use libn2t.UdpSession.State.{UdpPacket, UdpSession, Net}
use libn2t.UdpSession.State
use libn2t.UdpSession
use libn2t.Socket.State.{Socket}
use libn2t.TcpSession.State.{TcpSession}
use libn2t.TcpSession.State as TcpState
use libn2t.TcpSession

-- The sessions that are referenced: a session that nothing references any more has expired.
abbrev pub Store : Type 0
Store = ℕ → Option UdpSession

abbrev pub update : Store → ℕ → UdpSession → Store
update store id s j = if id == j then some s else store j

-- `udp_sessions` holds weak references; `next_id` is not in the source, it names the next session.
pub record N2s : Type 0 where
  pub socks5_addr : List ℕ
  pub socks5_port : ℕ
  pub udp_sessions : List ℕ
  pub store : Store
  pub next_id : ℕ
  pub stopped : Bool

pub data Call : Type 0 where
  timer_wait : ℕ → Call
  process_events : Call
  tun_wait : Call
  tun_read : ℕ → Call
  n2t_input : List ℕ → Call
  log_read_error : Call
  n2t_async_output : Call
  tun_write : List ℕ → Call
  n2t_async_accept : Call
  tcp_session : List TcpState.Effect → Call
  n2t_async_udp_recv : Call
  udp_session : ℕ → List State.Effect → Call
  context_run context_stop timer_cancel : Call

abbrev pub Outcome : Type 0
Outcome = Step N2s Call

abbrev pub Act : Type 0
Act = Action N2s Call

-- Each loop asks for its next event unless the owner has stopped.
abbrev pub unless_stopped : Act → Act
unless_stopped next s = if s.stopped then pass s else next s

unfoldable pub async_wait_timer : Act
async_wait_timer = unless_stopped (emit (timer_wait 250))

-- `error` is the error code of the wait.
unfoldable pub on_timer : Bool → Act
unfolding async_wait_timer
on_timer error = do λ s. if error then pass s else emit process_events s; async_wait_timer

unfoldable pub async_read_fd : Act
async_read_fd = unless_stopped (emit tun_wait)

-- What `read` gave; `none` is a result that is not positive.
unfoldable pub on_readable : Bool → Option (List ℕ) → Act
unfolding async_read_fd
on_readable error got = do
  λ s. if error then pass s else elim got [
    | none ↦ (do emit (tun_read 2048); emit log_read_error) s
    | some d ↦ (do emit (tun_read 2048); emit (n2t_input d)) s
  ]
  async_read_fd

unfoldable pub async_output : Act
async_output = unless_stopped (emit n2t_async_output)

unfoldable pub on_output : List ℕ → Act
unfolding async_output
on_output packet = do emit (tun_write packet); async_output

unfoldable pub async_accept : Act
async_accept = unless_stopped (emit n2t_async_accept)

-- `session->start()` of a session that was made for the connection, on its socket.
pub start_session : AddressApi → Socket → Act
unfolding TcpSession.start TcpState.new
start_session api in_sock s =
    let fresh : TcpSession = TcpState.new s.socks5_addr s.socks5_port in
    let step = TcpSession.start api (record fresh { in_sock = in_sock }) in
    record { state = s; effects = tcp_session step.effects ∷ []; thrown = step.thrown }

unfoldable pub on_accept : AddressApi → Socket → Act
unfolding start_session async_accept
on_accept api in_sock = do start_session api in_sock; async_accept

unfoldable pub async_read_udp : Act
async_read_udp = unless_stopped (emit n2t_async_udp_recv)

-- What the loop over `udp_sessions` leaves of the list, and the session that took the packet.
pub record Found : Type 0 where
  pub sessions : List ℕ
  pub taken : Option (ℕ × Step UdpSession State.Effect)

module _ (api : AddressApi) where
  pub search_sessions : Net → UdpPacket → Store → List ℕ → Found
  unfolding UdpSession.process
  search_sessions net packet store [] = record { sessions = []; taken = none }
  search_sessions net packet store (id ∷ rest) =
      let further = search_sessions net packet store rest in
      elim (store id) [
        | none ↦ further
        | some u ↦
            let (step, took) = UdpSession.process api net packet u in
            if took
            then record { sessions = id ∷ rest; taken = some (id, step) }
            else record { sessions = id ∷ further.sessions; taken = further.taken }
      ]

  abbrev pub store_step : ℕ → Step UdpSession State.Effect → Act
  store_step id step s = record {
    state = record s { store = update s.store id step.state };
    effects = udp_session id step.effects ∷ [];
    thrown = step.thrown;
  }

  -- `make_shared`, `push_back` and `start`.
  pub open_session : UdpPacket → Act
  unfolding UdpSession.start State.new
  open_session packet s =
      let id = s.next_id in
      let fresh : UdpSession = State.new s.socks5_addr s.socks5_port packet in
      store_step id (UdpSession.start api fresh)
        (record s { udp_sessions = s.udp_sessions ++ id ∷ []; next_id = suc id })

  -- The handler of a datagram.
  unfoldable pub on_udp : Net → UdpPacket → Act
  unfolding search_sessions open_session async_read_udp
  on_udp net packet s =
      let found = search_sessions net packet s.store s.udp_sessions in
      let t : N2s = record s { udp_sessions = found.sessions } in
      elim found.taken [
        | some (id, step) ↦ (do store_step id step; async_read_udp) t
        | none ↦ (do open_session packet; async_read_udp) t
      ]

-- What the five loops wait for: the timer, the TUN device, a packet, a connection, a datagram.
pub data Event : Type 0 where
  timer_fired : Bool → Event
  readable : Bool → Option (List ℕ) → Event
  output_came : List ℕ → Event
  accepted : Socket → Event
  datagram_came : Net → UdpPacket → Event

module _ (api : AddressApi) where
  unfoldable pub handle : Event → Act
  unfolding on_timer on_readable on_output on_accept on_udp
  handle (timer_fired error) = on_timer error
  handle (readable error got) = on_readable error got
  handle (output_came packet) = on_output packet
  handle (accepted in_sock) = on_accept api in_sock
  handle (datagram_came net packet) = on_udp api net packet

-- `start` starts the five loops and runs the event loop; `stop` ends them.
unfoldable pub start : Act
unfolding async_wait_timer async_read_fd async_output async_accept async_read_udp
start s =
    (do
      async_wait_timer
      async_read_fd
      async_output
      async_accept
      async_read_udp
      emit context_run)
      (record s { stopped = false })

unfoldable pub stop : Act
stop s = (do emit timer_cancel; emit context_stop) (record s { stopped = true })
