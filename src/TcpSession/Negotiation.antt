-- ===== src/TcpSession/Negotiation.antt =====
-- The SOCKS5 negotiation of a TCP session.
use libn2t.Common.{
  ℕ, ◌+◌, none, ◌<◌, ◌≡◌, ◌≢◌, refl, ap, ◌⊎◌, inl, inr, false, List, [], ◌∷◌, ◌++◌, some, length,
  take, bytes_eq, bytes_eq→≡, arith, append-nil, Bool-cases,
}
use libn2t.Utils.Socks5.{AddressApi, addrport_to_socks5}
use libn2t.Socket
use libn2t.TcpSession.State.{
  handshake, request, forward, destroyed, TcpSession, out_read, out_write, uplink, downlink,
}
use libn2t.TcpSession.{
  Event, connected, out_was_read, out_written, request_bytes, handle, out_recv, run,
}
use libn2t.TcpSession.Flow.{World, AllPossible, advance_all, count_reads, count_writes, waits}

module _ (api : AddressApi) (ntoa : List ℕ → List ℕ) where
  -- A proxy that accepts.
  abbrev pub accepting : ℕ → List ℕ → List Event
  accepting a rest =
      connected false
      ∷ out_written false
      ∷ out_was_read false (5 ∷ 0 ∷ [])
      ∷ out_written false
      ∷ out_was_read false (5 ∷ 0 ∷ 0 ∷ a ∷ rest)
      ∷ []

  greets :
      (s : TcpSession)
      → handle api ntoa (connected false) s
        ≡ record { state = s; effects = out_write (5 ∷ 1 ∷ 0 ∷ []) ∷ []; thrown = false }
  unfolding handle
  greets s = refl

  listens :
      (s : TcpSession)
      → (s.status ≡ handshake) ⊎ (s.status ≡ request)
      → handle api ntoa (out_written false) s
        ≡ record { state = s; effects = out_read ∷ []; thrown = false }
  unfolding handle
  listens s h = ground arith

  asks :
      (s : TcpSession) (addr e : List ℕ) (port : ℕ)
      → s.status ≡ handshake
      → Socket.dst_addr ntoa s.in_sock ≡ some addr
      → Socket.dst_port s.in_sock ≡ some port
      → addrport_to_socks5 api addr port ≡ some e
      → handle api ntoa (out_was_read false (5 ∷ 0 ∷ [])) s ≡ record {
        state = record s { status = request };
        effects = out_write (5 ∷ 1 ∷ 0 ∷ e) ∷ [];
        thrown = false;
      }
  unfolding handle out_recv request_bytes
  asks s addr e port h da dp w = ground arith

  opens :
      (s : TcpSession) (a : ℕ) (rest : List ℕ)
      → s.status ≡ request
      → s.in_sock.pcb_freed ≡ false
      → s.in_sock.recv ≡ none
      → ((handle api ntoa (out_was_read false (5 ∷ 0 ∷ 0 ∷ a ∷ rest)) s).state.status ≡ forward)
        × (uplink (handle api ntoa (out_was_read false (5 ∷ 0 ∷ 0 ∷ a ∷ rest)) s).effects
            ≡ s.in_sock.recv_buf)
        × (downlink (handle api ntoa (out_was_read false (5 ∷ 0 ∷ 0 ∷ a ∷ rest)) s).effects ≡ [])
        × ((handle api ntoa (out_was_read false (5 ∷ 0 ∷ 0 ∷ a ∷ rest)) s).thrown ≡ false)
        × (count_reads (handle api ntoa (out_was_read false (5 ∷ 0 ∷ 0 ∷ a ∷ rest)) s).effects ≡ 1)
        × (count_writes (handle api ntoa (out_was_read false (5 ∷ 0 ∷ 0 ∷ a ∷ rest)) s).effects
              + waits
                  (handle api ntoa (out_was_read false (5 ∷ 0 ∷ 0 ∷ a ∷ rest)) s).state.in_sock.recv
            ≡ 1)
  opens s a rest h f idle = unfold handle out_recv in ground (arith, append-nil s.in_sock.recv_buf)

  -- The session while it connects to the proxy.
  abbrev pub connecting : TcpSession → World
  connecting s = record { session = s; connects = 1; reads = 0; writes = 0 }

  -- With a proxy that accepts, a session in status `handshake` that connects to the proxy, with an open
  -- connection and no receiver, whose application wants an address that the address parser knows,
  -- starts itself each operation whose completion comes, up to the answer to its request. It comes to
  -- forward, having sent the greeting and the request for that address and port, then what the
  -- application had sent by then, and nothing to the application; one read from the proxy is then under
  -- way, and either a write to it or a receiver at the application's socket.
  pub run-accepting :
      (s : TcpSession) (addr e : List ℕ) (port a : ℕ) (rest : List ℕ)
      → s.status ≡ handshake
      → s.in_sock.pcb_freed ≡ false
      → s.in_sock.recv ≡ none
      → Socket.dst_addr ntoa s.in_sock ≡ some addr
      → Socket.dst_port s.in_sock ≡ some port
      → addrport_to_socks5 api addr port ≡ some e
      → AllPossible api ntoa (accepting a rest) (connecting s)
        × ((advance_all api ntoa (accepting a rest) (connecting s)).reads ≡ 1)
        × ((advance_all api ntoa (accepting a rest) (connecting s)).writes
              + waits (advance_all api ntoa (accepting a rest) (connecting s)).session.in_sock.recv
            ≡ 1)
        × ((run api ntoa (accepting a rest) s).state.status ≡ forward)
        × (uplink (run api ntoa (accepting a rest) s).effects
            ≡ 5 ∷ 1 ∷ 0 ∷ 5 ∷ 1 ∷ 0 ∷ (e ++ s.in_sock.recv_buf))
        × (downlink (run api ntoa (accepting a rest) s).effects ≡ [])
  unfolding run
  run-accepting s addr e port a rest h f idle da dp w =
      let t : TcpSession = record s { status = request } in
      let (forwards, up, down, fine, reading, writing) = opens t a rest refl f idle in
      rw (greets s, listens s (inl h), asks s addr e port h da dp w, listens t (inr refl), fine)
        (rw append-nil (
          (omega arith, (omega arith, (omega arith, (omega arith, (omega arith, tt))))),
          omega (arith, reading),
          omega (arith, writing),
          forwards,
          ap (λ l. 5 ∷ 1 ∷ 0 ∷ 5 ∷ 1 ∷ 0 ∷ (e ++ l)) up,
          down,
        ))

  -- In status `handshake`, any other answer to the greeting, and in status `request`, any answer
  -- that is not longer than three bytes or does not begin with 5, 0, 0, destroys the session, and
  -- nothing is sent.
  pub out_recv-refused :
      (d : List ℕ) (s : TcpSession)
      → ((s.status ≡ handshake) × (d ≢ 5 ∷ 0 ∷ []))
        ⊎ ((s.status ≡ request) × ((length d < 4) ⊎ (take 3 d ≢ 5 ∷ 0 ∷ 0 ∷ [])))
      → ((out_recv api ntoa d s).state.status ≡ destroyed)
        × (uplink (out_recv api ntoa d s).effects ≡ [])
        × (downlink (out_recv api ntoa d s).effects ≡ [])
  out_recv-refused d s (inl (h, n)) = elim (Bool-cases (bytes_eq d (5 ∷ 0 ∷ []))) [
    | inl same ↦ absurd (n (bytes_eq→≡ d (5 ∷ 0 ∷ []) same))
    | inr differs ↦ unfold out_recv in ground arith
  ]
  out_recv-refused d s (inr (h, n)) = elim (Bool-cases (bytes_eq (take 3 d) (5 ∷ 0 ∷ 0 ∷ []))) [
    | inl same ↦ unfold out_recv in ground (arith, bytes_eq→≡ (take 3 d) (5 ∷ 0 ∷ 0 ∷ []) same)
    | inr differs ↦ unfold out_recv in ground arith
  ]

  -- In status `request`, what stands behind the third byte of an answer of more than three bytes
  -- that begins with 5, 0, 0 is not looked at: an address of any form and length, and bytes of the
  -- application that come with it, are dropped.
  pub out_recv-reply_dropped :
      (a b : ℕ) (rest other : List ℕ) (s : TcpSession)
      → s.status ≡ request
      → out_recv api ntoa (5 ∷ 0 ∷ 0 ∷ a ∷ rest) s ≡ out_recv api ntoa (5 ∷ 0 ∷ 0 ∷ b ∷ other) s
  unfolding out_recv
  out_recv-reply_dropped a b rest other s h = ground arith
