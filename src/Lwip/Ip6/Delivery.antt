-- ===== src/Lwip/Ip6/Delivery.antt =====
-- A datagram of IPv6 goes through `ip6_input` to UDP.
use libn2t.Common.{
  ℕ, suc, ◌+◌, ◌/◌, ◌%◌, ◌≡◌, ◌<◌, ◌≤◌, refl, sym, ap, ap₂, ◌∙◌, Bool, false, List, [], ◌∷◌, ◌++◌,
  Option, some, length, get_or, drop, arith, ltb, ◌||◌, u16,
}
use libn2t.Lwip.Addresses.{v6, IpAddr, Netif}
use libn2t.Lwip.Pbuf.{Pbuf, content, total, IsPacket}
use libn2t.Lwip.Pbuf.Bytes.Slices.{length-content}
use libn2t.Lwip.Pbuf.Headers.{pbuf_remove_header}
use libn2t.Lwip.Pbuf.Headers.RoundTrip.{hidden, remove_lem, hidden-IsPacket, content-hidden}
use libn2t.Lwip.Pbuf.Chains.{pbuf_realloc}
use libn2t.Lwip.Pbuf.Alloc.{first_len}
use libn2t.Lwip.Udp.{Udp}
use libn2t.Lwip.Udp.Input.{UdpCall, call_recv, byte, word, udp_input}
use libn2t.Lwip.Udp.Output.Exchange.{udp_chksum}
use libn2t.Lwip.Ip.{udp}
use libn2t.Lwip.Ip.Input.{byte-content}
use libn2t.Lwip.Ip6.{word32, address6, Walk, fixed_header, options_done, headers}
use libn2t.Lwip.Ip6.Input.{
  refused_addresses, unspecified, walk, ip_data, upper_layer, from_header, ip6_input,
}
use libn2t.Lwip.Ip6.Extension.{first_number, exts_bytes}
use libn2t.Lwip.Ip6.Headers.{length-exts_bytes, at_header, headers_lem}
use libn2t.Lwip.Ip6.Transport.{udp6_input_lem}
use libn2t.Lwip.Ip6.Datagram.{
  Datagram6, udp6_part, to_bytes6, IsValid6, length-to_bytes6, drop-to_bytes6, whole_address,
}

realloc_whole : (p : Pbuf) (next : List Pbuf) → pbuf_realloc (p ∷ next) p.tot_len ≡ some (p ∷ next)
unfolding pbuf_realloc
realloc_whole p next = ground arith

walk-done :
    (odd : Pbuf → Bool) (ip6_reass : ℕ → List Pbuf → Option (List Pbuf)) (rounds : ℕ)
    (dest : IpAddr) (w v : Walk)
    → headers (suc (first_len w.chain)) dest w ≡ some (options_done v)
    → walk odd ip6_reass (suc rounds) dest w ≡ some (options_done v)
unfolding walk
walk-done odd ip6_reass rounds dest w v e = rw (e, walk) refl

module _ (odd : Pbuf → Bool) (ip6_reass : ℕ → List Pbuf → Option (List Pbuf)) (netif : Netif)
    (head : Pbuf) (next : List Pbuf) (d : Datagram6) (packet : IsPacket (head ∷ next))
    (same : content (head ∷ next) ≡ to_bytes6 d) (valid : IsValid6 d)
    (room : 48 + length (exts_bytes d.extensions) ≤ head.len) where
  at : (i : ℕ) → i < 40 → byte (head ∷ next) i ≡ get_or (to_bytes6 d) i 0
  at i h = byte-content head next i packet (omega (arith, h, room)) ∙ ap (λ l. get_or l i 0) same

  tot_len_eq : head.tot_len ≡ 48 + length (exts_bytes d.extensions) + length d.payload
  unfolding total
  tot_len_eq =
      packet.0 ∙ sym (length-content (head ∷ next) packet) ∙ ap length same ∙ length-to_bytes6 d

  version : byte (head ∷ next) 0 / 16 ≡ 6
  version = omega (arith, at 0 (omega arith), valid.traffic_fits)

  plen_eq : word (head ∷ next) 4 ≡ length (exts_bytes d.extensions) + (8 + length d.payload)
  plen_eq = omega (arith, at 4 (omega arith), at 5 (omega arith), valid.lengths)

  nexth_eq : byte (head ∷ next) 6 ≡ first_number d.extensions
  nexth_eq = at 6 (omega arith)

  source : IpAddr
  source = record { type = v6; addr = d.src }

  dest : IpAddr
  dest = record { type = v6; addr = d.dest }

  word32_eq :
      (i n : ℕ)
      → (byte (head ∷ next) i ≡ n / 16777216 % 256)
      → (byte (head ∷ next) (i + 1) ≡ n / 65536 % 256)
      → (byte (head ∷ next) (i + 2) ≡ n / 256 % 256)
      → (byte (head ∷ next) (i + 2 + 1) ≡ n % 256)
      → n < 4294967296
      → word32 (head ∷ next) i ≡ n
  word32_eq i n a b c e h = omega (arith, a, b, c, e, h)

  small : (n : ℕ) → n % 4294967296 < 4294967296
  small n = omega arith

  quarter :
      (i n : ℕ)
      → i + 3 < 40
      → get_or (to_bytes6 d) i 0 ≡ n % 4294967296 / 16777216 % 256
      → get_or (to_bytes6 d) (i + 1) 0 ≡ n % 4294967296 / 65536 % 256
      → get_or (to_bytes6 d) (i + 2) 0 ≡ n % 4294967296 / 256 % 256
      → get_or (to_bytes6 d) (i + 2 + 1) 0 ≡ n % 4294967296 % 256
      → word32 (head ∷ next) i ≡ n % 4294967296
  quarter i n h a b c e =
      word32_eq i (n % 4294967296) (at i (omega (arith, h)) ∙ a) (at (i + 1) (omega (arith, h)) ∙ b)
        (at (i + 2) (omega (arith, h)) ∙ c) (at (i + 2 + 1) (omega (arith, h)) ∙ e) (small n)

  src_eq : address6 (head ∷ next) 8 ≡ source
  unfolding source
  src_eq =
      ap (λ a. record { type = v6; addr = a })
        (omega (
          arith,
          quarter 8 (d.src / 79228162514264337593543950336) (omega arith) refl refl refl refl,
          quarter 12 (d.src / 18446744073709551616) (omega arith) refl refl refl refl,
          quarter 16 (d.src / 4294967296) (omega arith) refl refl refl refl,
          quarter 20 (d.src / 1) (omega arith) refl refl refl refl,
          whole_address d.src valid.addresses.0,
        ))

  dest_eq : address6 (head ∷ next) 24 ≡ dest
  unfolding dest
  dest_eq =
      ap (λ a. record { type = v6; addr = a })
        (omega (
          arith,
          quarter 24 (d.dest / 79228162514264337593543950336) (omega arith) refl refl refl refl,
          quarter 28 (d.dest / 18446744073709551616) (omega arith) refl refl refl refl,
          quarter 32 (d.dest / 4294967296) (omega arith) refl refl refl refl,
          quarter 36 (d.dest / 1) (omega arith) refl refl refl refl,
          whole_address d.dest valid.addresses.1,
        ))

  abbrev q : Pbuf
  q = hidden 40 head

  removed : pbuf_remove_header (head ∷ next) 40 ≡ some (false, q ∷ next)
  removed = remove_lem head next 40 packet (omega arith) (omega (arith, room))

  q-IsPacket : IsPacket (q ∷ next)
  q-IsPacket = hidden-IsPacket head next 40 packet (omega arith) (omega (arith, room))

  content-q : content (q ∷ next) ≡ exts_bytes d.extensions ++ udp6_part d
  content-q =
      content-hidden head next 40 packet (omega arith) (omega (arith, room))
      ∙ ap (drop 40) same
      ∙ drop-to_bytes6 d

  abbrev at_start : Walk
  at_start =
      at_header (word (head ∷ next) 4) (byte (head ∷ next) 6) (byte (head ∷ next) 6) 40 q next

  fixed : fixed_header (head ∷ next) ≡ some at_start
  fixed = rw (removed, fixed_header) refl

  q-room : length (exts_bytes d.extensions) + 8 ≤ q.len
  unfolding hidden
  q-room = omega (arith, room)

  -- The walk comes to the header of UDP.
  walked :
      (rounds : ℕ)
      → (len : ℕ) × (r : Pbuf) × (walk odd ip6_reass (suc rounds) dest at_start
          ≡ some (
              options_done (at_header (word (head ∷ next) 4) (byte (head ∷ next) 6) 17 len r next)))
        × IsPacket (r ∷ next)
        × (content (r ∷ next) ≡ udp6_part d)
        × (8 ≤ r.len)
  walked rounds =
      let (len, r, run, packet', same', long) =
        headers_lem d.extensions (suc q.len) (word (head ∷ next) 4) (byte (head ∷ next) 6) 40 q next
          dest (udp6_part d) q-IsPacket content-q valid.headers q-room
          (omega (arith, q-room, length-exts_bytes d.extensions)) in
      (
        len,
        r,
        walk-done odd ip6_reass rounds dest at_start _ (
            ap
              (λ n.
                headers (suc q.len) dest
                  (at_header (word (head ∷ next) 4) (byte (head ∷ next) 6) n 40 q next))
              nexth_eq
            ∙ run),
        packet',
        same',
        long,
      )

  long_enough :
      (ltb (first_len (head ∷ next)) 40 || ltb head.tot_len (40 + word (head ∷ next) 4)) ≡ false
  long_enough = ground (arith, room, plen_eq, tot_len_eq)

  whole_length : u16 (40 + word (head ∷ next) 4) ≡ head.tot_len
  whole_length = omega (arith, plen_eq, tot_len_eq, valid.lengths)

  not_trimmed : pbuf_realloc (head ∷ next) (u16 (40 + word (head ∷ next) 4)) ≡ some (head ∷ next)
  not_trimmed = ap (pbuf_realloc (head ∷ next)) whole_length ∙ realloc_whole head next

  ip6_input-from_header :
      (rounds : ℕ) (s : Udp)
      → refused_addresses source dest ≡ false
      → unspecified source dest ≡ false
      → ip6_input odd ip6_reass rounds netif (head ∷ next) s
        ≡ from_header odd ip6_reass rounds netif source dest (head ∷ next) s
  unfolding ip6_input
  ip6_input-from_header rounds s fine specified =
      rw version (
        rw long_enough (
          rw not_trimmed (
            rw (ap₂ refused_addresses src_eq dest_eq ∙ fine)
              (rw (ap₂ unspecified src_eq dest_eq ∙ specified) refl))))
      ∙ ap₂ (λ a b. from_header odd ip6_reass rounds netif a b (head ∷ next) s) src_eq dest_eq

  ip6_input-udp :
      (rounds : ℕ) (v : Walk) (calls : List UdpCall) (s t : Udp)
      → refused_addresses source dest ≡ false
      → unspecified source dest ≡ false
      → walk odd ip6_reass rounds dest at_start ≡ some (options_done v)
      → v.nexth ≡ 17
      → udp_input (udp_chksum odd) (ip_data odd ip6_reass netif source dest v) v.chain s
        ≡ some (calls, t)
      → ip6_input odd ip6_reass rounds netif (head ∷ next) s ≡ some (udp calls ∷ [], t)
  unfolding from_header upper_layer
  ip6_input-udp rounds v calls s t fine specified run last e =
      ip6_input-from_header rounds s fine specified
      ∙ rw (fixed, from_header) (rw run (rw last (rw e refl)))

  -- A well-formed datagram in a packet of IPv6, with extension headers that are skipped and all headers
  -- in the first pbuf, and to whatever destination that is not an IPv4-mapped one, whose source is
  -- neither that nor a multicast address, nor `::` unless the destination is a solicited-node address,
  -- is given to the function of the first control block of UDP, with its bytes, its source and its
  -- source port; the block then has the destination port.
  pub ip6_input_lem :
      (rounds : ℕ) (s : Udp) (i f : ℕ) (rest : List ℕ)
      → refused_addresses (record { type = v6; addr = d.src }) (record { type = v6; addr = d.dest })
        ≡ false
      → unspecified (record { type = v6; addr = d.src }) (record { type = v6; addr = d.dest })
        ≡ false
      → s.udp_pcbs ≡ i ∷ rest
      → (s.pcb i).recv ≡ some f
      → (r : List Pbuf) × (t : Udp) × (ip6_input odd ip6_reass (suc rounds) netif (head ∷ next) s
          ≡ some (
            udp (
                  call_recv f (s.pcb i).recv_arg i r (record { type = v6; addr = d.src }) d.src_port
                  ∷ [])
                ∷ [],
            t,
          ))
        × (content r ≡ d.payload)
        × (t.pcb i ≡ record (s.pcb i) { local_port = d.dst_port })
        × (t.udp_pcbs ≡ s.udp_pcbs)
        × (address6 (head ∷ next) 24 ≡ record { type = v6; addr = d.dest })
  unfolding source dest
  ip6_input_lem rounds s i f rest fine specified listed registered =
      let (len, last, run, packet', same', long) = walked rounds in
      let (r, t, calls, bytes, block, pcbs) =
        udp6_input_lem odd d valid last next packet' same' long netif len s i f rest listed
          registered in
      (
        r,
        t,
        ip6_input-udp (suc rounds) _ _ s t fine specified run refl calls,
        bytes,
        block,
        pcbs,
        dest_eq,
      )
