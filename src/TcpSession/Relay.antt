-- ===== src/TcpSession/Relay.antt =====
-- What a session carries: the negotiation, then the bytes of both directions.
use libn2t.Common.{ℕ, ◌≡◌, ◌⊎◌, false, List, [], ◌∷◌, ◌++◌, none}
use libn2t.Utils.Socks5.{AddressApi}
use libn2t.Utils.Pbuf.{Pbuf, pbuf_to_str}
use libn2t.Socket
use libn2t.TcpSession.State.{forward, TcpSession, Outcome, uplink}
use libn2t.TcpSession.{Event, connected, out_was_read, in_recv_callback}

-- The bytes that lwIP brings from the application, and those that come from the proxy.
abbrev pub from_app : Event → List ℕ
from_app (in_recv_callback e p closed) = pbuf_to_str p
from_app _ = []

abbrev pub from_proxy : Event → List ℕ
from_proxy (out_was_read false d) = d
from_proxy _ = []

module _ (api : AddressApi) (ntoa : List ℕ → List ℕ) where
  -- What a step of a live session does to the bytes that come from the application.
  abbrev pub Carries : Event → TcpSession → Outcome → Type 0
  Carries e s t =
      ((t.state.in_sock.recv ≡ none) ⊎ (t.state.in_sock.recv_buf ≡ []))
      × (uplink t.effects ++ t.state.in_sock.recv_buf ≡ s.in_sock.recv_buf ++ from_app e)

  abbrev pub IsLive : TcpSession → Type 0
  IsLive s = (s.status ≡ forward) × (s.in_sock.pcb_freed ≡ false)

  abbrev pub IsServed : TcpSession → Type 0
  IsServed s = (s.in_sock.recv ≡ none) ⊎ (s.in_sock.recv_buf ≡ [])

  -- The connection to the proxy is made before forwarding begins.
  abbrev pub IsLater : Event → Type 0
  IsLater (connected error) = ⊥
  IsLater _ = Unit {0}

  abbrev pub AllLater : List Event → Type 0
  AllLater [] = Unit {0}
  AllLater (e ∷ es) = IsLater e × AllLater es

  abbrev pub from_app_all : List Event → List ℕ
  from_app_all [] = []
  from_app_all (e ∷ es) = from_app e ++ from_app_all es

  abbrev pub from_proxy_all : List Event → List ℕ
  from_proxy_all [] = []
  from_proxy_all (e ∷ es) = from_proxy e ++ from_proxy_all es
