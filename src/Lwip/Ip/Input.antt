-- ===== src/Lwip/Ip/Input.antt =====
-- A datagram of IPv4 goes through `ip4_input` to UDP.
use libn2t.Common.{
  ℕ, ◌+◌, ◌-◌, ◌/◌, ◌%◌, ◌≡◌, ◌<◌, ◌≤◌, refl, sym, ap, ap₂, ◌∙◌, inl, inr, Bool, true, false, not,
  ◌&&◌, List, [], ◌∷◌, ◌++◌, Option, some, length, get_or, take, drop, get_or-take,
  get_or-append_lt, take-append_le, take-take_le, length-take, All-take, All-drop, arith, ◌==◌,
}
use libn2t.Lwip.Addresses.{v4, IpAddr, Netif}
use libn2t.Lwip.Pbuf.{Pbuf, content, total, IsPacket}
use libn2t.Lwip.Pbuf.Bytes.Slices.{length-content}
use libn2t.Lwip.Pbuf.Headers.{pbuf_remove_header}
use libn2t.Lwip.Pbuf.Headers.RoundTrip.{hidden, remove_lem, hidden-IsPacket, content-hidden}
use libn2t.Lwip.Checksum.{inet_chksum}
use libn2t.Lwip.Checksum.Sum.{reduce, words, AreBytes, lwip_standard_chksum_lem}
use libn2t.Lwip.Checksum.Pseudo.{pseudo_header, ip_chksum_pseudo_lem}
use libn2t.Lwip.Udp.{Udp}
use libn2t.Lwip.Udp.Input.{IpData, UdpCall, call_recv, byte, word, checksum_fails, udp_input}
use libn2t.Lwip.Udp.Input.Delivery.{udp_input_lem}
use libn2t.Lwip.Udp.Output.Exchange.{udp_chksum}
use libn2t.Lwip.Ip.{
  udp, header_len, address, bad_length, trim, bad_source, bad_chksum, to_protocol, whole, accepted,
  ip4_input,
}
use libn2t.Lwip.Ip.Datagram.{
  Datagram, header_length, ip_part, udp_part, to_bytes, IsValid, take-to_bytes, drop-to_bytes,
  length-ip_part, length-to_bytes,
}

pub no_failure : (b : Bool) (n : ℕ) → n ≡ 0 → (b && not (n == 0)) ≡ false
no_failure true n e = rw e refl
no_failure false n e = refl

pub AreBytes-eq : {xs ys : List ℕ} → xs ≡ ys → AreBytes xs → AreBytes ys
AreBytes-eq e h = rw (sym e) h

-- The bytes of a header that is in the first pbuf are the first of the packet.
pub byte-content :
    (p : Pbuf) (next : List Pbuf) (i : ℕ)
    → IsPacket (p ∷ next)
    → i < p.len
    → byte (p ∷ next) i ≡ get_or (content (p ∷ next)) i 0
unfolding content
byte-content p next i packet h =
    sym (get_or-take p.len i p.payload 0 h)
    ∙ sym (
        get_or-append_lt i (take p.len p.payload) (content next) 0
          (omega (arith, h, length-take p.len p.payload packet.2)))

take-content :
    (p : Pbuf) (next : List Pbuf) (n : ℕ)
    → IsPacket (p ∷ next)
    → n ≤ p.len
    → take n p.payload ≡ take n (content (p ∷ next))
unfolding content
take-content p next n packet h =
    sym (take-take_le n p.len p.payload h)
    ∙ sym (
        take-append_le n (take p.len p.payload) (content next)
          (omega (arith, h, length-take p.len p.payload packet.2)))

module _ (odd : Pbuf → Bool) (ip4_reass : List Pbuf → Option (List Pbuf)) (netif : Netif)
    (head : Pbuf) (next : List Pbuf) (d : Datagram) (packet : IsPacket (head ∷ next))
    (same : content (head ∷ next) ≡ to_bytes d) (valid : IsValid d)
    (room : header_length d + 8 ≤ head.len) where
  at : (i : ℕ) → i < 20 → byte (head ∷ next) i ≡ get_or (to_bytes d) i 0
  at i h = byte-content head next i packet (omega (arith, h, room)) ∙ ap (λ l. get_or l i 0) same

  tot_len_eq : head.tot_len ≡ header_length d + (8 + length d.payload)
  unfolding total
  tot_len_eq =
      packet.0 ∙ sym (length-content (head ∷ next) packet) ∙ ap length same ∙ length-to_bytes d

  version : byte (head ∷ next) 0 / 16 ≡ 4
  version = omega (arith, at 0 (omega arith), valid.options_fit)

  hlen_eq : header_len (head ∷ next) ≡ header_length d
  hlen_eq = omega (arith, at 0 (omega arith), valid.options_fit, valid.options_aligned)

  len_eq : word (head ∷ next) 2 ≡ head.tot_len
  len_eq = omega (arith, at 2 (omega arith), at 3 (omega arith), tot_len_eq, valid.lengths)

  proto_eq : byte (head ∷ next) 9 ≡ 17
  proto_eq = at 9 (omega arith)

  no_fragment : word (head ∷ next) 6 % 16384 ≡ 0
  no_fragment = omega (arith, at 6 (omega arith), at 7 (omega arith), valid.no_fragment)

  src_eq : address (head ∷ next) 12 ≡ record { type = v4; addr = d.src }
  src_eq =
      ap (λ a. record { type = v4; addr = a })
        (omega (
          arith,
          at 12 (omega arith),
          at 13 (omega arith),
          at 14 (omega arith),
          at 15 (omega arith),
          valid.addresses,
        ))

  dest_eq : address (head ∷ next) 16 ≡ record { type = v4; addr = d.dest }
  dest_eq =
      ap (λ a. record { type = v4; addr = a })
        (omega (
          arith,
          at 16 (omega arith),
          at 17 (omega arith),
          at 18 (omega arith),
          at 19 (omega arith),
          valid.addresses,
        ))

  source : IpAddr
  source = record { type = v4; addr = d.src }

  ip_data : IpData
  ip_data = record {
    netif = netif;
    src = source;
    dest = record { type = v4; addr = d.dest };
    header_tot_len = header_length d;
  }

  abbrev q : Pbuf
  q = hidden (header_length d) head

  removed : pbuf_remove_header (head ∷ next) (header_length d) ≡ some (false, q ∷ next)
  removed = remove_lem head next (header_length d) packet (omega arith) (omega (arith, room))

  q-IsPacket : IsPacket (q ∷ next)
  q-IsPacket =
      hidden-IsPacket head next (header_length d) packet (omega arith) (omega (arith, room))

  content-q : content (q ∷ next) ≡ udp_part d
  content-q =
      content-hidden head next (header_length d) packet (omega arith) (omega (arith, room))
      ∙ ap (drop (header_length d)) same
      ∙ drop-to_bytes d

  q-long : 8 ≤ q.len
  unfolding hidden
  q-long = omega (arith, room)

  at_udp : (i : ℕ) → i < 8 → byte (q ∷ next) i ≡ get_or (udp_part d) i 0
  at_udp i h =
      byte-content q next i q-IsPacket (omega (arith, h, q-long)) ∙ ap (λ l. get_or l i 0) content-q

  src_port_eq : word (q ∷ next) 0 ≡ d.src_port
  src_port_eq = omega (arith, at_udp 0 (omega arith), at_udp 1 (omega arith), valid.ports)

  dst_port_eq : word (q ∷ next) 2 ≡ d.dst_port
  dst_port_eq = omega (arith, at_udp 2 (omega arith), at_udp 3 (omega arith), valid.ports)

  header_bytes_eq : take (header_length d) head.payload ≡ ip_part d
  header_bytes_eq =
      take-content head next (header_length d) packet (omega (arith, room))
      ∙ ap (take (header_length d)) same
      ∙ take-to_bytes d

  header_sum : inet_chksum (odd head) (ip_part d) ≡ 0
  unfolding inet_chksum
  header_sum =
      let bytes : AreBytes (ip_part d) =
        AreBytes-eq (take-to_bytes d)
          (All-take (λ b. b < 256) (header_length d) (to_bytes d) valid.bytes) in
      ap (λ n. 65535 - n)
        (lwip_standard_chksum_lem (odd head) (ip_part d) bytes
            (omega (arith, length-ip_part d, valid.lengths))
          ∙ valid.ip_sum)

  no_chksum : d.udp_chksum ≡ 0 → word (q ∷ next) 6 ≡ 0
  no_chksum e = omega (arith, at_udp 6 (omega arith), at_udp 7 (omega arith), e)

  udp_AreBytes : AreBytes (udp_part d)
  udp_AreBytes =
      AreBytes-eq (drop-to_bytes d)
        (All-drop (λ b. b < 256) (header_length d) (to_bytes d) valid.bytes)

  q-tot_len : q.tot_len ≡ 8 + length d.payload
  unfolding hidden
  q-tot_len = omega (arith, tot_len_eq)

  right_sum :
      reduce (words (pseudo_header false 17 (8 + length d.payload) d.src d.dest ++ udp_part d))
        ≡ 65535
      → udp_chksum odd (q ∷ next) ip_data.src ip_data.dest ≡ 0
  unfolding ip_data source
  right_sum h =
      ip_chksum_pseudo_lem odd (q ∷ next) 17 q.tot_len ip_data.src ip_data.dest q-IsPacket
        (rw content-q udp_AreBytes) (omega arith) q-IsPacket.1
      ∙ ap (λ l. 65535 - reduce (words (pseudo_header false 17 q.tot_len d.src d.dest ++ l)))
          content-q
      ∙ ap (λ n. 65535 - reduce (words (pseudo_header false 17 n d.src d.dest ++ udp_part d)))
          q-tot_len
      ∙ ap (λ n. 65535 - n) h

  udp_sum : checksum_fails (udp_chksum odd) ip_data (q ∷ next) ≡ false
  udp_sum = elim valid.udp_sum [
    | inl absent ↦ rw (no_chksum absent) refl
    | inr right ↦ no_failure (not (word (q ∷ next) 6 == 0)) _ (right_sum right)
  ]

  -- What stands in the way of a packet does not stand in the way of this one.
  trim_eq : trim (word (head ∷ next) 2) (head ∷ next) ≡ some (head ∷ next)
  trim_eq = ground (arith, len_eq)

  good_length : bad_length (header_len (head ∷ next)) (word (head ∷ next) 2) (head ∷ next) ≡ false
  good_length =
      ap (λ n. bad_length n (word (head ∷ next) 2) (head ∷ next)) hlen_eq
      ∙ ground (arith, len_eq, room)

  good_chksum : bad_chksum odd ip4_reass (header_len (head ∷ next)) (head ∷ next) ≡ false
  good_chksum =
      ap (λ n. bad_chksum odd ip4_reass n (head ∷ next)) hlen_eq
      ∙ rw header_bytes_eq (rw header_sum refl)

  ip4_input-accepted :
      (s : Udp)
      → ip4_input odd ip4_reass netif (head ∷ next) s
        ≡ accepted odd ip4_reass (header_len (head ∷ next)) netif (head ∷ next) s
  unfolding ip4_input
  ip4_input-accepted s = rw version (rw trim_eq (rw good_length (rw good_chksum refl)))

  accepted-whole :
      (s : Udp)
      → bad_source source netif ≡ false
      → accepted odd ip4_reass (header_length d) netif (head ∷ next) s
        ≡ whole odd ip4_reass (header_length d) netif source ip_data.dest (head ∷ next) s
  unfolding source ip_data
  accepted-whole s fine =
      rw (ap (λ a. bad_source a netif) src_eq ∙ fine, accepted) (rw (no_fragment) refl)
      ∙ ap₂ (λ a b. whole odd ip4_reass (header_length d) netif a b (head ∷ next) s) src_eq dest_eq

  whole-udp :
      (s : Udp)
      → whole odd ip4_reass (header_length d) netif source ip_data.dest (head ∷ next) s
        ≡ to_protocol odd ip4_reass 17 (header_length d) ip_data (q ∷ next) s
  unfolding ip_data source
  whole-udp s = rw (removed, whole) (rw proto_eq (rw hlen_eq refl))

  ip4_input-udp :
      (calls : List UdpCall) (s t : Udp)
      → bad_source source netif ≡ false
      → udp_input (udp_chksum odd) ip_data (q ∷ next) s ≡ some (calls, t)
      → ip4_input odd ip4_reass netif (head ∷ next) s ≡ some (udp calls ∷ [], t)
  unfolding to_protocol
  ip4_input-udp calls s t fine e =
      ip4_input-accepted s
      ∙ ap (λ n. accepted odd ip4_reass n netif (head ∷ next) s) hlen_eq
      ∙ accepted-whole s fine
      ∙ whole-udp s
      ∙ rw (e, to_protocol) refl

  -- A well-formed datagram in a packet of IPv4, with its headers in the first pbuf and whatever
  -- destination, is given to the function of the first control block of UDP, with its bytes, its
  -- source and its source port; the block then has the destination port.
  pub ip4_input_lem :
      (s : Udp) (i f : ℕ) (rest : List ℕ)
      → bad_source (record { type = v4; addr = d.src }) netif ≡ false
      → s.udp_pcbs ≡ i ∷ rest
      → (s.pcb i).recv ≡ some f
      → (r : List Pbuf) × (t : Udp) × (ip4_input odd ip4_reass netif (head ∷ next) s
          ≡ some (
            udp (
                  call_recv f (s.pcb i).recv_arg i r (record { type = v4; addr = d.src }) d.src_port
                  ∷ [])
                ∷ [],
            t,
          ))
        × (content r ≡ d.payload)
        × (t.pcb i ≡ record (s.pcb i) { local_port = d.dst_port })
        × (t.udp_pcbs ≡ s.udp_pcbs)
        × (address (head ∷ next) 16 ≡ record { type = v4; addr = d.dest })
  unfolding source ip_data
  ip4_input_lem s i f rest fine listed registered =
      let (r, t, calls, packet', bytes, block, pcbs) =
        udp_input_lem (udp_chksum odd) ip_data q next s i f rest q-IsPacket q-long udp_sum listed
          registered in
      (
        r,
        t,
        ip4_input-udp _ s t fine (
            calls
            ∙ ap (λ n. some (call_recv f (s.pcb i).recv_arg i r source n ∷ [], t)) src_port_eq),
        bytes ∙ ap (drop 8) content-q,
        block ∙ ap (λ n. record (s.pcb i) { local_port = n }) dst_port_eq,
        pcbs,
        dest_eq,
      )
