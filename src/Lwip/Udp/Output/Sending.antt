-- ===== src/Lwip/Udp/Output/Sending.antt =====
-- A datagram on its way from one control block to another.
use libn2t.Common.{
  ℕ, ◌+◌, ◌-◌, ◌≡◌, ◌<◌, ◌≤◌, refl, sym, ap, ◌∙◌, append_assoc, take-append_ge, inl, inr, Bool,
  true, false, not, ◌&&◌, ◌||◌, List, [], ◌∷◌, ◌++◌, some, arith, length, take, drop,
  drop-append_le, drop-take, length-drop, length-append, length-take, ltb, ◌==◌, u16, Bool-cases,
}
use libn2t.Lwip.Addresses.{IpAddr, is_v6, Netif}
use libn2t.Lwip.Pbuf.{Pbuf, Memory, content, total, IsPacket}
use libn2t.Lwip.Pbuf.Headers.{is_contiguous}
use libn2t.Lwip.Checksum.Sum.{AreBytes}
use libn2t.Lwip.Udp.{UdpErr, UdpPcb, Udp, bind_first}
use libn2t.Lwip.Udp.Input.{IpData, call_recv, word, checksum_fails, udp_input}
use libn2t.Lwip.Udp.Input.Delivery.{long_enough, udp_input_lem}
use libn2t.Lwip.Udp.Output.{
  Output, Sent, header_bytes, write_header, total_len, version_match, sent_chksum, add_udp_header,
  after_output, fill_header, to_output, send_bound, udp_sendto_if_src,
}
use libn2t.Lwip.Udp.Output.Packets.{drop_eight, sizes, add_udp_header-IsRoom}

-- A chain with other bytes in place of the first eight.
abbrev pub with_header : List ℕ → Pbuf → List Pbuf → List Pbuf
with_header bytes q more = record q { payload = bytes ++ drop 8 q.payload } ∷ more

pub with_header-IsPacket :
    (bytes : List ℕ) (q : Pbuf) (more : List Pbuf)
    → length bytes ≡ 8
    → IsPacket (q ∷ more)
    → 8 ≤ q.len
    → IsPacket (with_header bytes q more)
with_header-IsPacket bytes q more e packet long = (
  packet.0,
  packet.1,
  omega (arith, e, packet.2, length-append bytes (drop 8 q.payload), length-drop 8 q.payload),
  packet.3,
  packet.4,
)

after_header :
    (q : Pbuf) (more : List Pbuf)
    → IsPacket (q ∷ more)
    → 8 ≤ q.len
    → take (q.len - 8) (drop 8 q.payload) ++ content more ≡ drop 8 (content (q ∷ more))
unfolding content total
after_header q more packet long =
    ap (λ l. l ++ content more) (sym (drop-take 8 q.len q.payload))
    ∙ sym (
        drop-append_le 8 (take q.len q.payload) (content more)
          (omega (arith, long, length-take q.len q.payload packet.2)))

pub content-with_header :
    (bytes : List ℕ) (q : Pbuf) (more : List Pbuf)
    → length bytes ≡ 8
    → IsPacket (q ∷ more)
    → 8 ≤ q.len
    → content (with_header bytes q more) ≡ bytes ++ drop 8 (content (q ∷ more))
unfolding content
content-with_header bytes q more e packet long =
    ap (λ l. l ++ content more)
      (take-append_ge q.len bytes (drop 8 q.payload) (omega (arith, e, long))
        ∙ ap (λ n. bytes ++ take (q.len - n) (drop 8 q.payload)) e)
    ∙ append_assoc bytes (take (q.len - 8) (drop 8 q.payload)) (content more)
    ∙ ap (λ l. bytes ++ l) (after_header q more packet long)

drop-with_header :
    (bytes : List ℕ) (q : Pbuf) (more : List Pbuf)
    → length bytes ≡ 8
    → IsPacket (q ∷ more)
    → 8 ≤ q.len
    → drop 8 (content (with_header bytes q more)) ≡ drop 8 (content (q ∷ more))
drop-with_header bytes q more e packet long =
    ap (drop 8) (content-with_header bytes q more e packet long)
    ∙ drop_eight bytes (drop 8 (content (q ∷ more))) e

write_header_lem :
    (bytes : List ℕ) (q : Pbuf) (more : List Pbuf)
    → 8 ≤ q.len
    → write_header bytes (q ∷ more) ≡ some (with_header bytes q more)
write_header_lem bytes q more long = rw (long_enough q.len long, write_header) refl

header_bytes-word :
    (a b c d : ℕ) (q : Pbuf) (more : List Pbuf)
    → a < 65536
    → b < 65536
    → (word (with_header (header_bytes a b c d) q more) 0 ≡ a)
      × (word (with_header (header_bytes a b c d) q more) 2 ≡ b)
header_bytes-word a b c d q more ha hb = (omega (arith, ha), omega (arith, hb))

no_failure : (b : Bool) (n : ℕ) → n ≡ 0 → (b && not (n == 0)) ≡ false
no_failure true n e = rw e refl
no_failure false n e = refl

-- A sum that is filled in where the field held 0 makes the sum 0.
abbrev pub Verifies : (List Pbuf → IpAddr → IpAddr → ℕ) → Type 0
Verifies sum =
    (a b len : ℕ) (q : Pbuf) (more : List Pbuf) (src dest : IpAddr)
    → IsPacket (q ∷ more)
    → 8 ≤ q.len
    → AreBytes (drop 8 (content (q ∷ more)))
    → sum
        (with_header
          (header_bytes a b len
            (sent_chksum (sum (with_header (header_bytes a b len 0) q more) src dest)))
          q more)
        src dest
      ≡ 0

module _ (sum : List Pbuf → IpAddr → IpAddr → ℕ) (verifies : Verifies sum) where
  -- The header that is written, for which the sum is right.
  fill_header_lem :
      (result : UdpErr) (u : UdpPcb) (dst_port : ℕ) (ip : IpData) (q : Pbuf) (more : List Pbuf)
      → IsPacket (q ∷ more)
      → 8 ≤ q.len
      → AreBytes (drop 8 (content (q ∷ more)))
      → (c : ℕ) × (fill_header sum result u dst_port ip.src ip.dest (q ∷ more)
          ≡ some (with_header (header_bytes u.local_port dst_port q.tot_len c) q more))
        × (checksum_fails sum ip
              (with_header (header_bytes u.local_port dst_port q.tot_len c) q more)
            ≡ false)
        × (is_v6 ip.dest ≡ true
            → sum
                (with_header (header_bytes u.local_port dst_port q.tot_len c) q more)
                ip.src
                ip.dest
              ≡ 0)
  fill_header_lem result u dst_port ip q more packet long are_bytes =
      elim (Bool-cases (is_v6 ip.dest || not u.nochksum)) [
        | inl summed ↦ (
          sent_chksum (
              sum (with_header (header_bytes u.local_port dst_port q.tot_len 0) q more) ip.src
                ip.dest),
          rw
              (
                write_header_lem (header_bytes u.local_port dst_port q.tot_len 0) q more long,
                fill_header,
              )
              (rw summed (
                write_header_lem
                  (header_bytes u.local_port dst_port q.tot_len (
                    sent_chksum (
                      sum (with_header (header_bytes u.local_port dst_port q.tot_len 0) q more)
                        ip.src ip.dest)))
                  q more long)),
          no_failure _ _ (
              verifies u.local_port dst_port q.tot_len q more ip.src ip.dest packet long are_bytes),
          λ six.
              verifies u.local_port dst_port q.tot_len q more ip.src ip.dest packet long are_bytes,
        )
        | inr plain ↦ (
          0,
          rw
              (
                write_header_lem (header_bytes u.local_port dst_port q.tot_len 0) q more long,
                fill_header,
              )
              (rw plain refl),
          refl,
          λ six. absurd (ground arith),
        )
      ]

  send_bound-steps :
      (result : UdpErr) (i : ℕ) (p q q' left : List Pbuf) (dst_ip : IpAddr) (dst_port : ℕ)
      (netif : Netif) (src_ip : IpAddr) (s : Udp) (m m' : Memory) (new : Bool)
      → ltb (u16 (total_len p + 8)) (total_len p) ≡ false
      → add_udp_header p m ≡ some (some (q, new, m'))
      → fill_header sum result (s.pcb i) dst_port src_ip dst_ip q ≡ some q'
      → after_output p new q' ≡ some left
      → send_bound sum result i p dst_ip dst_port netif src_ip s m
        ≡ some (record {
          err = result;
          left = left;
          outputs = to_output sum result (s.pcb i) src_ip dst_ip netif q' ∷ [];
          udp = s;
          memory = m';
        })
  send_bound-steps result i p q q' left dst_ip dst_port netif src_ip s m m' new fits room filled
        freed =
      rw (fits, send_bound) (rw room (rw filled (rw freed refl)))

  pub sendto-bound :
      (result : UdpErr) (i : ℕ) (head : Pbuf) (next : List Pbuf) (dst_ip : IpAddr) (dst_port : ℕ)
      (netif : Netif) (src_ip : IpAddr) (s : Udp) (m : Memory)
      → (version_match (s.pcb i) src_ip && version_match (s.pcb i) dst_ip) ≡ true
      → ((s.pcb i).local_port == 0) ≡ false
      → udp_sendto_if_src sum result i (head ∷ next) dst_ip dst_port netif src_ip s m
        ≡ send_bound sum result i (head ∷ next) dst_ip dst_port netif src_ip s m
  unfolding udp_sendto_if_src
  sendto-bound result i head next dst_ip dst_port netif src_ip s m match port =
      rw match (rw (port, bind_first) refl)

  pub not_zero : (n : ℕ) → 0 < n → (n == 0) ≡ false
  not_zero n h = ground arith

  no_overflow : (n : ℕ) → n + 8 < 65536 → ltb (u16 (n + 8)) n ≡ false
  no_overflow n h = ground arith

  -- A control block with a port sends one packet, for which the sum is right, with the bytes of the
  -- caller behind the header.
  pub send_bound_lem :
      (result : UdpErr) (i : ℕ) (head : Pbuf) (next : List Pbuf) (ip : IpData) (dst_port : ℕ)
      (netif : Netif) (s : Udp) (m : Memory) (block : List ℕ)
      → IsPacket (head ∷ next)
      → total (head ∷ next) + 8 < 65536
      → m.heap 64 ≡ some block
      → length block ≡ 64
      → head.ref < 255
      → (s.pcb i).local_port < 65536
      → dst_port < 65536
      → AreBytes (content (head ∷ next))
      → (sent : Sent) × (q : Pbuf) × (more : List Pbuf) × (send_bound sum result i
            (head ∷ next)
            ip.dest
            dst_port
            netif
            ip.src
            s
            m
          ≡ some sent)
        × (sent.err ≡ result)
        × (sent.outputs ≡ to_output sum result (s.pcb i) ip.src ip.dest netif (q ∷ more) ∷ [])
        × IsPacket (q ∷ more)
        × (8 ≤ q.len)
        × (drop 8 (content (q ∷ more)) ≡ content (head ∷ next))
        × (checksum_fails sum ip (q ∷ more) ≡ false)
        × (word (q ∷ more) 0 ≡ (s.pcb i).local_port)
        × (word (q ∷ more) 2 ≡ dst_port)
        × (q.tot_len ≡ total (head ∷ next) + 8)
        × ((c : ℕ) × (content (q ∷ more)
              ≡ header_bytes (s.pcb i).local_port dst_port q.tot_len c ++ content (head ∷ next)))
        × (length head.front < 8
            → (q.ref ≡ 1) × (40 ≤ length q.front) × (is_contiguous q.type_internal ≡ true))
        × (is_v6 ip.dest ≡ true → sum (q ∷ more) ip.src ip.dest ≡ 0)
  unfolding total
  send_bound_lem result i head next ip dst_port netif s m block packet small given len few hp hd
        are_bytes =
      let (q, more, new, room, (packet', long, bytes, size), frees, fresh) =
        add_udp_header-IsRoom head next packet small m block given len few in
      let (c, filled, right, summed) =
        fill_header_lem result (s.pcb i) dst_port ip q more packet' long (rw bytes are_bytes) in
      let header = header_bytes (s.pcb i).local_port dst_port q.tot_len c in
      let (left, freed) = frees (header ++ drop 8 q.payload) in
      let (w0, w2) = header_bytes-word (s.pcb i).local_port dst_port q.tot_len c q more hp hd in
      (
        record {
          err = result;
          left = left;
          outputs =
              to_output sum result (s.pcb i) ip.src ip.dest netif (with_header header q more) ∷ [];
          udp = s;
          memory = m;
        },
        record q { payload = header ++ drop 8 q.payload },
        more,
        send_bound-steps result i (head ∷ next) (q ∷ more) (with_header header q more) left ip.dest
            dst_port netif ip.src s m m new
            (no_overflow head.tot_len (rw (sizes head next packet small).0 small)) room filled
            freed,
        refl,
        refl,
        with_header-IsPacket header q more refl packet' long,
        long,
        drop-with_header header q more refl packet' long ∙ bytes,
        right,
        w0,
        w2,
        packet'.0 ∙ size,
        (c, content-with_header header q more refl packet' long ∙ ap (λ l. header ++ l) bytes),
        fresh,
        summed,
      )

  -- A datagram from one control block to the first one of another stack, with any checksum that is
  -- right once it is filled in.
  pub exchange :
      (result : UdpErr) (i : ℕ) (head : Pbuf) (next : List Pbuf) (ip : IpData) (dst_port : ℕ)
      (netif : Netif) (s : Udp) (m : Memory) (block : List ℕ) (r : Udp) (j f : ℕ) (rest : List ℕ)
      → IsPacket (head ∷ next)
      → total (head ∷ next) + 8 < 65536
      → m.heap 64 ≡ some block
      → length block ≡ 64
      → head.ref < 255
      → (version_match (s.pcb i) ip.src && version_match (s.pcb i) ip.dest) ≡ true
      → 0 < (s.pcb i).local_port
      → (s.pcb i).local_port < 65536
      → dst_port < 65536
      → AreBytes (content (head ∷ next))
      → r.udp_pcbs ≡ j ∷ rest
      → (r.pcb j).recv ≡ some f
      → (sent : Sent) × (o : Output) × (q : List Pbuf) × (t : Udp) × (udp_sendto_if_src sum result i
            (head ∷ next)
            ip.dest
            dst_port
            netif
            ip.src
            s
            m
          ≡ some sent)
        × (sent.err ≡ result)
        × (sent.outputs ≡ o ∷ [])
        × (o.src ≡ ip.src)
        × (o.dest ≡ ip.dest)
        × (udp_input sum ip o.chain r
            ≡ some (call_recv f (r.pcb j).recv_arg j q ip.src (s.pcb i).local_port ∷ [], t))
        × (content q ≡ content (head ∷ next))
        × ((t.pcb j).local_port ≡ dst_port)
  exchange result i head next ip dst_port netif s m block r j f rest packet small given len few
        match port hp hd are_bytes listed registered =
      let (
        sent, q, more, sends, err, out, packet', long, bytes, right, w0, w2, tot_len, header, fresh,
        summed,
      ) =
        send_bound_lem result i head next ip dst_port netif s m block packet small given len few hp
          hd are_bytes in
      let (got, t, calls, packet'', same, block', pcbs) =
        udp_input_lem sum ip q more r j f rest packet' long right listed registered in
      (
        sent,
        to_output sum result (s.pcb i) ip.src ip.dest netif (q ∷ more),
        got,
        t,
        sendto-bound result i head next ip.dest dst_port netif ip.src s m match
              (not_zero (s.pcb i).local_port port)
            ∙ sends,
        err,
        out,
        refl,
        refl,
        calls ∙ ap (λ w. some (call_recv f (r.pcb j).recv_arg j got ip.src w ∷ [], t)) w0,
        same ∙ bytes,
        ap (λ p. p.local_port) block' ∙ w2,
      )
