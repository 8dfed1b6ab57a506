-- ===== src/UdpSession/Replies.antt =====
-- Datagrams from the proxy on their way to the application.
use libn2t.Common.{
  ℕ, suc, ◌+◌, ◌<◌, ◌≤◌, ◌≡◌, refl, ◌⊎◌, inl, inr, false, List, [], ◌∷◌, ◌++◌, some, arith, length,
  take, drop, drop-append, length-append, length-drop, Option-cases, Bool-cases, leb, ◌&&◌, not,
  bytes_eq,
}
use libn2t.Utils.Socks5.{AddressApi, AddressLaws, addrport_to_socks5, socks5_to_addrport}
use libn2t.Utils.Socks5.Decode.{socks5_to_addrport_bounds}
use libn2t.Utils.Socks5.RoundTrip.{SameAddress, socks5_to_addrport-addrport_to_socks5}
use libn2t.UdpSession.State.{
  UdpSession, UdpPacket, forward, destroyed, timer_cancel, timer_wait, in_write, out_read, Outcome,
  deliveries,
}
use libn2t.UdpSession.{substr, reply_packet, out_recv}

plus_three : (n : ℕ) → n + 3 ≡ suc (suc (suc n))
plus_three n = omega arith

-- What stands behind the header of a reply.
substr-behind : (a b c : ℕ) (rest : List ℕ) → substr 3 (a ∷ b ∷ c ∷ rest) ≡ some rest
unfolding substr
substr-behind a b c rest = ground arith

substr-payload : (e bytes : List ℕ) → substr (length e + 3) (0 ∷ 0 ∷ 0 ∷ (e ++ bytes)) ≡ some bytes
unfolding substr
substr-payload e bytes =
    let rest : drop (length e + 3) (0 ∷ 0 ∷ 0 ∷ (e ++ bytes)) ≡ bytes =
      rw plus_three (drop-append e bytes) in
    ground (arith, rest, length-append e bytes)

-- In status `forward`, a reply that carries the SOCKS5 form of an address that the parser knows and
-- of a port of 16 bits in front of its data is handed to the owner as one packet, with that data
-- and that port, with a text of the same address, and addressed to the sender of the first packet;
-- the timer is started anew and the next reply is awaited.
pub out_recv-reply :
    (api : AddressApi) (laws : AddressLaws api) (s : UdpSession)
    → s.status ≡ forward
    → (addr : List ℕ) (x : api.Address) (port : ℕ) (payload : List ℕ)
    → api.from_string addr ≡ some x
    → port < 65536
    → (e : List ℕ) × (q : UdpPacket) × (y : api.Address) × (addrport_to_socks5 api addr port
        ≡ some e)
      × (out_recv (0 ∷ 0 ∷ 0 ∷ (e ++ payload)) s ≡ record {
        state = s;
        effects = timer_cancel ∷ timer_wait ∷ in_write q ∷ out_read ∷ [];
        thrown = false;
      })
      × (q.payload ≡ payload)
      × (q.src_port ≡ port)
      × (q.dst_addr ≡ s.initial_packet.src_addr)
      × (q.dst_port ≡ s.initial_packet.src_port)
      × (api.from_string q.src_addr ≡ some y)
      × SameAddress api x y
unfolding out_recv reply_packet
out_recv-reply api laws s h addr x port payload parse p =
    let (e, write, (text, y, read, again, same)) =
      socks5_to_addrport-addrport_to_socks5 api laws addr x port payload parse p in
    (
      e,
      reply_packet s text port payload,
      y,
      write,
      ground (arith, substr-behind 0 0 0 (e ++ payload), substr-payload e payload),
      refl,
      refl,
      refl,
      refl,
      again,
      same,
    )

-- The first three bytes of a reply that is longer than that are not looked at: whatever stands in
-- the reserved bytes and in the fragment number, the session does as if they were 0.
pub out_recv-header :
    (a b c d : ℕ) (rest : List ℕ) (s : UdpSession)
    → out_recv (a ∷ b ∷ c ∷ d ∷ rest) s ≡ out_recv (0 ∷ 0 ∷ 0 ∷ d ∷ rest) s
unfolding out_recv substr
out_recv-header a b c d rest s = ground arith

-- A reply is passed on: the bytes behind its address, whole.
abbrev pub Passes : List ℕ → UdpSession → Outcome → Type 0
Passes d s t =
    (n : ℕ) × (addr : List ℕ) × (port : ℕ) × (socks5_to_addrport (drop 3 d) ≡ some (n, addr, port))
    × (n + 3 ≤ length d)
    × (t ≡ record {
      state = s;
      effects =
          timer_cancel
          ∷ timer_wait
          ∷ in_write (reply_packet s addr port (drop (n + 3) d))
          ∷ out_read
          ∷ [];
      thrown = false;
    })

-- Or the session ends, and nothing is passed on.
abbrev pub Ends : Outcome → Type 0
Ends t = (t.state.status ≡ destroyed) × (deliveries t.effects ≡ []) × (t.thrown ≡ false)

-- The test keeps what is shorter than a header from `substr`.
long_enough :
    (d : List ℕ)
    → (leb (length d) 3 && not (bytes_eq (take 3 d) (0 ∷ 0 ∷ 0 ∷ []))) ≡ false
    → 3 ≤ length d
long_enough [] h = ground arith
long_enough (a ∷ []) h = ground arith
long_enough (a ∷ b ∷ []) h = ground arith
long_enough (a ∷ b ∷ c ∷ rest) h = omega arith

substr-within : (n : ℕ) (d : List ℕ) → n ≤ length d → substr n d ≡ some (drop n d)
unfolding substr
substr-within n d h = ground arith

-- In status `forward` each reply is handed on as one packet, with the bytes behind its address, after
-- which the next one is awaited, or it ends the session, and nothing is handed on; none makes the
-- handler throw, neither of the two `substr` included.
pub out_recv_cases :
    (d : List ℕ) (s : UdpSession)
    → s.status ≡ forward
    → Passes d s (out_recv d s) ⊎ Ends (out_recv d s)
unfolding out_recv
out_recv_cases d s h =
    elim (Bool-cases (leb (length d) 3 && not (bytes_eq (take 3 d) (0 ∷ 0 ∷ 0 ∷ [])))) [
      | inl bad ↦ inr (ground arith)
      | inr good ↦
          let long = long_enough d good in
          let behind = substr-within 3 d long in
          elim (Option-cases (socks5_to_addrport (drop 3 d))) [
            | inl e ↦ inr (ground arith)
            | inr ((n, addr, port), e) ↦
                let (fits, low, which) = socks5_to_addrport_bounds (drop 3 d) e in
                let whole : n + 3 ≤ length d = omega (arith, fits, length-drop 3 d, long) in
                let bytes = substr-within (n + 3) d whole in
                inl (n, addr, port, e, whole, ground arith)
          ]
    ]
