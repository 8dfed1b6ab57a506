-- ===== src/N2t/Reception.antt =====
-- The boundary from its constructor on: the set-up of its control block of UDP, and the packets that
-- come from the TUN device one after the other, with the callback run for each.
use libn2t.Common.{
  ℕ, zero, suc, ◌+◌, u16, Step, pass, ◌*◌, ◌≡◌, ◌<◌, refl, sym, ap, ap₂, ◌∙◌, Bool, List, [], ◌∷◌,
  ◌++◌, map, All, Option, none, some, length, arith, Option-cases, append_assoc, append-nil,
}
use libn2t.Lwip.Addresses.{any_type, IpAddr, Netif, ip_any_type}
use libn2t.Lwip.Pbuf.{Pbuf, Memory, pool, pbuf_alloc}
use libn2t.Lwip.Pbuf.Alloc.{AreElements}
use libn2t.Lwip.Checksum.Pseudo.{address_bytes}
use libn2t.Lwip.Udp.{
  UdpErr, ok, Udp, bind_at, udp_new, udp_new_ip_type, udp_bind_netif, udp_bind, udp_recv,
}
use libn2t.Lwip.Udp.Input.{UdpCall, call_recv}
use libn2t.Lwip.Ip.{IpCall, udp}
use libn2t.Lwip.Dispatch.{ip_input, current_dest}
use libn2t.Lwip.Dispatch.Delivery.{
  AnyDatagram, IsGood, bytes_of, headers_length, source_of, dest_of, source_port, dest_port,
  payload_of, sizes, ip_input_lem,
}
use libn2t.Utils.Pbuf.{str_to_pbuf}
use libn2t.Utils.Pbuf.Pool.{pool_api, str_to_pbuf-pool, str_to_pbuf-IsPacket}
use libn2t.UdpSession.State.{UdpPacket}
use libn2t.N2t.State.{N2t, Call, free_pbuf}
use libn2t.N2t.{udp_cb}
use libn2t.N2t.Datagrams.{packet_of, udp_cb-queues, udp_cb-idle}

-- The constructor of N2T, what it does for UDP: `place` is where `memp_malloc` puts the control block,
-- `f` the callback and `arg` the boundary. The result of `udp_bind` is not looked at; it is returned
-- here beside the control block. `none` is NULL, which ends the program.
unfoldable pub set_up : Option ℕ → Netif → ℕ → ℕ → Udp → Option (ℕ × UdpErr × Udp)
set_up place netif f arg s = elim (udp_new_ip_type any_type place s) [
  | none ↦ none
  | some (i, t) ↦ elim (udp_bind i ip_any_type 14514 (udp_bind_netif i (some netif) t)) [
    | none ↦ none
    | some (err, u) ↦ some (i, err, udp_recv i (some f) arg u)
  ]
]

-- The callback that a call of UDP runs; `dest` is `ip_current_dest_addr`.
abbrev pub callback : (List ℕ → List ℕ) → List ℕ → Udp → UdpCall → N2t → Step N2t Call
callback ntoa dest s (call_recv f arg i q src port) n =
    udp_cb ntoa (address_bytes src) port dest q (record n { upcb_port = (s.pcb i).local_port })
callback ntoa dest s _ n = pass n

-- How often the calls free the chain of the packet: the callback, UDP and IP may each do so. What
-- TCP and ICMP get, they keep.
abbrev pub frees : List Call → ℕ
frees [] = 0
frees (free_pbuf p ∷ cs) = suc (frees cs)
frees (_ ∷ cs) = frees cs

abbrev pub udp_frees : UdpCall → List Call → ℕ
udp_frees (UdpCall.free q) cs = suc (frees cs)
udp_frees _ cs = frees cs

abbrev pub callbacks : (List ℕ → List ℕ) → List ℕ → Udp → List UdpCall → N2t → N2t × ℕ
callbacks ntoa dest s [] n = (n, 0)
callbacks ntoa dest s (c ∷ cs) n =
    let t = callback ntoa dest s c n in
    let (n', count) = callbacks ntoa dest s cs t.state in (n', udp_frees c t.effects + count)

abbrev pub ip_calls : (List ℕ → List ℕ) → List ℕ → Udp → List IpCall → N2t → N2t × ℕ
ip_calls ntoa dest s [] n = (n, 0)
ip_calls ntoa dest s (udp cs ∷ rest) n =
    let (t, count) = callbacks ntoa dest s cs n in
    let (n', more) = ip_calls ntoa dest s rest t in (n', count + more)
ip_calls ntoa dest s (IpCall.free q ∷ rest) n =
    let (n', more) = ip_calls ntoa dest s rest n in (n', suc more)
ip_calls ntoa dest s (_ ∷ rest) n = ip_calls ntoa dest s rest n

-- The pool after a packet: without the elements of its chain if that is kept, and as before if it is
-- freed; a chain that is freed twice fails an assertion, `none`. The bytes of a free element are not
-- read.
unfoldable pub left_over : List ℕ → ℕ → Memory → Option Memory
left_over packet zero m = elim (pbuf_alloc 0 (u16 (length packet)) pool m) [
  | none ↦ some m
  | some (p, left) ↦ some left
]
left_over packet (suc zero) m = some m
left_over packet (suc (suc count)) m = none

-- The callback frees the chain once.
udp_cb-frees :
    (ntoa : List ℕ → List ℕ) (src : List ℕ) (src_port : ℕ) (dst : List ℕ) (q : List Pbuf) (n : N2t)
    → frees (udp_cb ntoa src src_port dst q n).effects ≡ 1
unfolding udp_cb
udp_cb-frees ntoa src src_port dst q n = ground (arith, Option-cases n.udp_recv)

-- What is queued for a datagram, and the datagrams that are taken.
abbrev pub queued : (List ℕ → List ℕ) → AnyDatagram → UdpPacket
queued ntoa d = record {
  src_addr = ntoa (address_bytes (source_of d));
  src_port = source_port d;
  dst_addr = ntoa (address_bytes (dest_of d));
  dst_port = dest_port d;
  payload = payload_of d;
}

abbrev pub IsTaken : Netif → Memory → AnyDatagram → Type 0
IsTaken netif m d = IsGood netif d × (length (bytes_of d) < 1516 * length m.pool)

module _ (odd : Pbuf → Bool) (ip4_reass : List Pbuf → Option (List Pbuf))
    (ip6_reass : ℕ → List Pbuf → Option (List Pbuf)) (rounds : ℕ) (netif : Netif)
    (ntoa : List ℕ → List ℕ) where
  -- `N2T::input` with what it brings about: the control blocks, the boundary and the pool after it.
  -- IPv6 puts at most `rounds` packets together from fragments.
  unfoldable pub take_in : List ℕ → Udp × N2t × Memory → Option (Udp × N2t × Memory)
  unfolding left_over
  take_in packet (s, n, m) = elim (str_to_pbuf (pool_api m) packet) [
    | none ↦ some (s, n, m)
    | some p ↦ elim (ip_input odd ip4_reass ip6_reass (suc rounds) netif p s) [
      | none ↦ none
      | some (calls, t) ↦
          let (n', count) = ip_calls ntoa (address_bytes (current_dest p)) t calls n in
          elim (left_over packet count m) [ none ↦ none | some left ↦ some (t, n', left) ]
    ]
  ]

  unfoldable pub take_all : List (List ℕ) → Udp × N2t × Memory → Option (Udp × N2t × Memory)
  unfolding take_in
  take_all [] w = some w
  take_all (packet ∷ packets) w = elim (take_in packet w) [
    | none ↦ none
    | some next ↦ take_all packets next
  ]

  take_in-steps :
      (packet : List ℕ) (p : List Pbuf) (calls : List IpCall) (s t : Udp) (n n' : N2t) (m : Memory)
      → str_to_pbuf (pool_api m) packet ≡ some p
      → ip_input odd ip4_reass ip6_reass (suc rounds) netif p s ≡ some (calls, t)
      → (ip_calls ntoa (address_bytes (current_dest p)) t calls n).0 ≡ n'
      → (ip_calls ntoa (address_bytes (current_dest p)) t calls n).1 ≡ 1
      → take_in packet (s, n, m) ≡ some (t, n', m)
  unfolding take_in left_over
  take_in-steps packet p calls s t n n' m made input ran once =
      rw (made, take_in) (rw input (rw once (rw ran refl)))

  module _ (m : Memory) (elements : AreElements m.pool) (i f : ℕ) (rest : List ℕ) where
    -- The control block of the boundary is the first one and has its callback, and no handler waits.
    abbrev pub IsReady : Udp × N2t → Type 0
    IsReady (s, n) = (s.udp_pcbs ≡ i ∷ rest) × ((s.pcb i).recv ≡ some f) × (n.udp_recv ≡ none)

    take_in-datagram :
        (d : AnyDatagram) (s : Udp) (n : N2t)
        → IsTaken netif m d
        → IsReady (s, n)
        → (t : Udp) × (n' : N2t) × (take_in (bytes_of d) (s, n, m) ≡ some (t, n', m))
          × IsReady (t, n')
          × (n'.udp_que ≡ n.udp_que ++ queued ntoa d ∷ [])
    unfolding packet_of
    take_in-datagram d s n (good, enough) (listed, registered, idle) =
        let (size, long, short) = sizes netif d good in
        let (p, made, text) = str_to_pbuf-pool m elements (bytes_of d) size enough in
        let (packet, same, room, front, ref) =
          str_to_pbuf-IsPacket m elements (bytes_of d) p (headers_length d) size made long
            (omega (arith, short)) in
        let (q, t, calls, bytes, block, pcbs, dest) =
          ip_input_lem odd ip4_reass ip6_reass rounds netif d p s i f rest packet same good room
            listed registered in
        let before : N2t = record n { upcb_port = (t.pcb i).local_port } in
        let src = address_bytes (source_of d) in
        let dst = address_bytes (dest_of d) in
        let ran : Udp → List Pbuf → IpAddr → N2t × ℕ = λ u chain a.
          ip_calls ntoa (address_bytes a) u
            (udp (call_recv f (s.pcb i).recv_arg i chain (source_of d) (source_port d) ∷ []) ∷ [])
            n in
        (
          t,
          (udp_cb ntoa src (source_port d) dst q before).state,
          take_in-steps (bytes_of d) p _ s t n (udp_cb ntoa src (source_port d) dst q before).state
              m made calls (ap (λ a. (ran t q a).0) dest)
              (ap (λ a. (ran t q a).1) dest
                ∙ omega (arith, udp_cb-frees ntoa src (source_port d) dst q before)),
          (
            pcbs ∙ listed,
            ap (λ b. b.recv) block ∙ registered,
            udp_cb-idle ntoa src (source_port d) dst q before idle,
          ),
          udp_cb-queues ntoa src (source_port d) dst q before idle
              ∙ ap₂ (λ port b. n.udp_que ++ packet_of ntoa src (source_port d) dst port b ∷ [])
                  (ap (λ b. b.local_port) block) bytes,
        )

    take_all-steps :
        (packet : List ℕ) (packets : List (List ℕ)) (w v : Udp × N2t × Memory)
        → take_in packet w ≡ some v
        → take_all (packet ∷ packets) w ≡ take_all packets v
    unfolding take_all
    take_all-steps packet packets w v e = rw (e, take_all) refl

    take_all-datagrams :
        (ds : List AnyDatagram) (s : Udp) (n : N2t)
        → All (IsTaken netif m) ds
        → IsReady (s, n)
        → (t : Udp) × (n' : N2t) × (take_all (map bytes_of ds) (s, n, m) ≡ some (t, n', m))
          × IsReady (t, n')
          × (n'.udp_que ≡ n.udp_que ++ map (queued ntoa) ds)
    unfolding take_all
    take_all-datagrams [] s n h ready = (s, n, refl, ready, sym (append-nil n.udp_que))
    take_all-datagrams (d ∷ ds) s n (h, hs) ready =
        let (t, n', taken, ready', que) = take_in-datagram d s n h ready in
        let (u, n'', all, ready'', ques) = take_all-datagrams ds t n' hs ready' in
        (
          u,
          n'',
          take_all-steps (bytes_of d) (map bytes_of ds) (s, n, m) (t, n', m) taken ∙ all,
          ready'',
          ques
              ∙ ap (λ l. l ++ map (queued ntoa) ds) que
              ∙ append_assoc n.udp_que (queued ntoa d ∷ []) (map (queued ntoa) ds),
        )

new_block :
    (i : ℕ) (s : Udp)
    → (t : Udp) × (udp_new_ip_type any_type (some i) s ≡ some (i, t)) × (t.udp_pcbs ≡ s.udp_pcbs)
unfolding udp_new_ip_type udp_new
new_block i s = (_, refl, refl)

bind_alone :
    (i : ℕ) (netif : Netif) (t : Udp)
    → t.udp_pcbs ≡ []
    → (u : Udp) × (udp_bind i ip_any_type 14514 (udp_bind_netif i (some netif) t) ≡ some (ok, u))
      × (u.udp_pcbs ≡ i ∷ [])
unfolding udp_bind udp_bind_netif
bind_alone i netif t none_yet = (
  bind_at i ip_any_type 14514 (udp_bind_netif i (some netif) t),
  rw none_yet refl,
  rw none_yet refl,
)

callback-registered : (i f arg : ℕ) (u : Udp) → ((udp_recv i (some f) arg u).pcb i).recv ≡ some f
unfolding udp_recv
callback-registered i f arg u = ground arith

pcbs-udp_recv : (i f arg : ℕ) (u : Udp) → (udp_recv i (some f) arg u).udp_pcbs ≡ u.udp_pcbs
unfolding udp_recv
pcbs-udp_recv i f arg u = refl

set_up-steps :
    (i f arg : ℕ) (netif : Netif) (s t u : Udp)
    → udp_new_ip_type any_type (some i) s ≡ some (i, t)
    → udp_bind i ip_any_type 14514 (udp_bind_netif i (some netif) t) ≡ some (ok, u)
    → set_up (some i) netif f arg s ≡ some (i, ok, udp_recv i (some f) arg u)
unfolding set_up
set_up-steps i f arg netif s t u made bound = rw (made, set_up) (rw bound refl)

-- On a stack without control blocks of UDP, the constructor binds the one of the boundary, and from
-- then on, if no handler waits, whatever row of well-formed datagrams of IPv4 and of IPv6, in any mix,
-- comes from the TUN device, no assertion fails, the queue holds an entry for each of them, in their
-- order, with its addresses, ports and bytes, and the pool has all its elements back. The datagrams have right checksums, room in the pool as it is at first, and
-- any destinations and ports; those of IPv4 have sources that are neither broadcast nor multicast
-- addresses; those of IPv6 have extension headers that are skipped, if any, at most 1516 bytes of
-- headers, no IPv4-mapped address, no multicast source, and the source `::` only to a solicited-node
-- address.
pub set_up-take_all :
    (odd : Pbuf → Bool) (ip4_reass : List Pbuf → Option (List Pbuf))
    (ip6_reass : ℕ → List Pbuf → Option (List Pbuf)) (rounds : ℕ) (netif : Netif)
    (ntoa : List ℕ → List ℕ) (m : Memory) (i f arg : ℕ) (s : Udp) (n : N2t) (ds : List AnyDatagram)
    → AreElements m.pool
    → s.udp_pcbs ≡ []
    → n.udp_recv ≡ none
    → All (IsTaken netif m) ds
    → (t u : Udp) × (n' : N2t) × (set_up (some i) netif f arg s ≡ some (i, ok, t))
      × (take_all odd ip4_reass ip6_reass rounds netif ntoa (map bytes_of ds) (t, n, m)
          ≡ some (u, n', m))
      × (n'.udp_que ≡ n.udp_que ++ map (queued ntoa) ds)
set_up-take_all odd ip4_reass ip6_reass rounds netif ntoa m i f arg s n ds elements none_yet idle
      taken =
    let (t, made, pcbs) = new_block i s in
    let (u, bound, alone) = bind_alone i netif t (pcbs ∙ none_yet) in
    let (v, n', all, ready, que) =
      take_all-datagrams odd ip4_reass ip6_reass rounds netif ntoa m elements i f [] ds
        (udp_recv i (some f) arg u) n taken
        (pcbs-udp_recv i f arg u ∙ alone, callback-registered i f arg u, idle) in
    (udp_recv i (some f) arg u, v, n', set_up-steps i f arg netif s t u made bound, all, que)
