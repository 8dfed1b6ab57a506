-- ===== src/Lwip/Ip6/Transport.antt =====
-- UDP behind the headers of IPv6.
use libn2t.Common.{
  ℕ, ◌+◌, ◌-◌, ◌≡◌, ◌<◌, ◌≤◌, refl, sym, ap, ap₂, ◌∙◌, Bool, true, false, not, List, [], ◌∷◌, ◌++◌,
  some, length, get_or, drop, drop-drop, drop-append, All-drop, arith, ◌==◌,
}
use libn2t.Lwip.Addresses.{v6, IpAddr, Netif}
use libn2t.Lwip.Pbuf.{Pbuf, content, total, IsPacket}
use libn2t.Lwip.Pbuf.Bytes.Slices.{length-content}
use libn2t.Lwip.Checksum.Sum.{reduce, words, AreBytes}
use libn2t.Lwip.Checksum.Pseudo.{pseudo_header, ip_chksum_pseudo_lem}
use libn2t.Lwip.Udp.{Udp}
use libn2t.Lwip.Udp.Input.{IpData, call_recv, byte, word, checksum_fails, udp_input}
use libn2t.Lwip.Udp.Input.Delivery.{udp_input_lem}
use libn2t.Lwip.Udp.Output.Exchange.{udp_chksum}
use libn2t.Lwip.Ip.Input.{no_failure, AreBytes-eq, byte-content}
use libn2t.Lwip.Ip6.Extension.{exts_bytes}
use libn2t.Lwip.Ip6.Datagram.{Datagram6, udp6_part, to_bytes6, IsValid6, drop-to_bytes6}

module _ (odd : Pbuf → Bool) (d : Datagram6) (valid : IsValid6 d) (q : Pbuf) (next : List Pbuf)
    (packet : IsPacket (q ∷ next)) (same : content (q ∷ next) ≡ udp6_part d)
    (long : 8 ≤ q.len) where
  at : (i : ℕ) → i < 8 → byte (q ∷ next) i ≡ get_or (udp6_part d) i 0
  at i h = byte-content q next i packet (omega (arith, h, long)) ∙ ap (λ l. get_or l i 0) same

  src_port_eq : word (q ∷ next) 0 ≡ d.src_port
  src_port_eq = omega (arith, at 0 (omega arith), at 1 (omega arith), valid.ports)

  dst_port_eq : word (q ∷ next) 2 ≡ d.dst_port
  dst_port_eq = omega (arith, at 2 (omega arith), at 3 (omega arith), valid.ports)

  behind_headers : drop (40 + length (exts_bytes d.extensions)) (to_bytes6 d) ≡ udp6_part d
  behind_headers =
      sym (drop-drop (length (exts_bytes d.extensions)) 40 (to_bytes6 d))
      ∙ ap (drop (length (exts_bytes d.extensions))) (drop-to_bytes6 d)
      ∙ drop-append (exts_bytes d.extensions) (udp6_part d)

  udp_AreBytes : AreBytes (udp6_part d)
  udp_AreBytes =
      AreBytes-eq behind_headers
        (All-drop (λ b. b < 256) (40 + length (exts_bytes d.extensions)) (to_bytes6 d) valid.bytes)

  tot_len_eq : q.tot_len ≡ 8 + length d.payload
  unfolding total
  tot_len_eq = packet.0 ∙ sym (length-content (q ∷ next) packet) ∙ ap length same ∙ omega arith

  source : IpAddr
  source = record { type = v6; addr = d.src }

  dest : IpAddr
  dest = record { type = v6; addr = d.dest }

  right_sum : udp_chksum odd (q ∷ next) source dest ≡ 0
  unfolding source dest
  right_sum =
      ip_chksum_pseudo_lem odd (q ∷ next) 17 q.tot_len source dest packet (rw same udp_AreBytes)
        (omega arith) packet.1
      ∙ ap (λ l. 65535 - reduce (words (pseudo_header true 17 q.tot_len d.src d.dest ++ l))) same
      ∙ ap (λ n. 65535 - reduce (words (pseudo_header true 17 n d.src d.dest ++ udp6_part d)))
          tot_len_eq
      ∙ ap (λ n. 65535 - n) valid.udp_sum

  udp_sum :
      (ip : IpData)
      → ip.src ≡ source
      → ip.dest ≡ dest
      → checksum_fails (udp_chksum odd) ip (q ∷ next) ≡ false
  udp_sum ip src_eq dst_eq =
      no_failure (not (word (q ∷ next) 6 == 0)) _
        (ap₂ (udp_chksum odd (q ∷ next)) src_eq dst_eq ∙ right_sum)

  -- What `udp_input` does with the datagram, whatever the length of the headers of IP.
  pub udp6_input_lem :
      (netif : Netif) (tot : ℕ) (s : Udp) (i f : ℕ) (rest : List ℕ)
      → s.udp_pcbs ≡ i ∷ rest
      → (s.pcb i).recv ≡ some f
      → (r : List Pbuf) × (t : Udp) × (udp_input
            (udp_chksum odd)
            (record {
              netif = netif;
              src = record { type = v6; addr = d.src };
              dest = record { type = v6; addr = d.dest };
              header_tot_len = tot;
            })
            (q ∷ next)
            s
          ≡ some (
            call_recv f (s.pcb i).recv_arg i r (record { type = v6; addr = d.src }) d.src_port ∷ [],
            t,
          ))
        × (content r ≡ d.payload)
        × (t.pcb i ≡ record (s.pcb i) { local_port = d.dst_port })
        × (t.udp_pcbs ≡ s.udp_pcbs)
  unfolding source dest
  udp6_input_lem netif tot s i f rest listed registered =
      let ip : IpData = record { netif = netif; src = source; dest = dest; header_tot_len = tot } in
      let (r, t, calls, packet', bytes, block, pcbs) =
        udp_input_lem (udp_chksum odd) ip q next s i f rest packet long (udp_sum ip refl refl)
          listed registered in
      (
        r,
        t,
        calls ∙ ap (λ n. some (call_recv f (s.pcb i).recv_arg i r source n ∷ [], t)) src_port_eq,
        bytes ∙ ap (drop 8) same,
        block ∙ ap (λ n. record (s.pcb i) { local_port = n }) dst_port_eq,
        pcbs,
      )
