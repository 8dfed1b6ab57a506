-- ===== src/Lwip/Ip6/Output/WellFormed.antt =====
-- A packet of UDP that goes out with a header of IPv6 is a well-formed datagram.
use libn2t.Common.{
  ℕ, ◌+◌, ◌-◌, ◌*◌, ◌/◌, ◌%◌, ◌≡◌, ◌<◌, ◌≤◌, refl, sym, ap, ap₂, ◌∙◌, ◌⊎◌, inl, inr, Bool, true,
  List, [], ◌∷◌, ◌++◌, some, length, arith, All-append,
}
use libn2t.Lwip.Addresses.{v6}
use libn2t.Lwip.Pbuf.{Pbuf, content, IsPacket}
use libn2t.Lwip.Pbuf.Headers.{is_contiguous}
use libn2t.Lwip.Checksum.Sum.{reduce, words, reduce_le, AreBytes}
use libn2t.Lwip.Checksum.Pseudo.{be32, bytes_v6, pseudo_header, ip_chksum_pseudo_lem}
use libn2t.Lwip.Udp.{UdpPcb}
use libn2t.Lwip.Udp.Output.{be16, header_bytes}
use libn2t.Lwip.Udp.Output.Exchange.{udp_chksum, header-AreBytes}
use libn2t.Lwip.Ip.Front.{with_front, content-with_front}
use libn2t.Lwip.Ip.WellFormed.{filled}
use libn2t.Lwip.Ip6.Datagram.{Datagram6, ip6_part, udp6_part, to_bytes6, IsValid6}
use libn2t.Lwip.Ip6.Output.{output_ip6, ip6_header, ip6_output_if_src}
use libn2t.Lwip.Ip6.Output.Header.{ip6_header_lem, ip6_output_if_src_lem}

join-AreBytes : (xs ys : List ℕ) → AreBytes xs → AreBytes ys → AreBytes (xs ++ ys)
join-AreBytes xs ys h k = All-append (λ b. b < 256) xs ys h k

be32-AreBytes : (n : ℕ) → AreBytes (be32 n)
be32-AreBytes n = (omega arith, (omega arith, (omega arith, (omega arith, tt))))

four-AreBytes : (a b c d : ℕ) → AreBytes (be32 a ++ (be32 b ++ (be32 c ++ be32 d)))
four-AreBytes a b c d = join-AreBytes (be32 a) (be32 b ++ (be32 c ++ be32 d)) (be32-AreBytes a) (
    join-AreBytes (be32 b) (be32 c ++ be32 d) (be32-AreBytes b)
      (join-AreBytes (be32 c) (be32 d) (be32-AreBytes c) (be32-AreBytes d)))

bytes_v6-AreBytes : (a : ℕ) → AreBytes (bytes_v6 a)
bytes_v6-AreBytes a =
    four-AreBytes (a / 79228162514264337593543950336 % 4294967296)
      (a / 18446744073709551616 % 4294967296) (a / 4294967296 % 4294967296) (a / 1 % 4294967296)

-- The datagram that goes out, with what is in the field for the checksum of UDP.
abbrev pub sent_datagram6 : UdpPcb → ℕ → ℕ → ℕ → ℕ → ℕ → List ℕ → Datagram6
sent_datagram6 u hl src dest dst_port c payload = record {
  traffic = u.tos * 1048576;
  hop_limit = hl;
  src = src;
  dest = dest;
  extensions = [];
  src_port = u.local_port;
  dst_port = dst_port;
  udp_chksum = c % 65536;
  payload = payload;
}

module _ (odd : Pbuf → Bool) (u : UdpPcb) (hl src dest dst_port c : ℕ) (payload : List ℕ) (q : Pbuf)
    (more : List Pbuf) (packet : IsPacket (q ∷ more))
    (header : content (q ∷ more) ≡ header_bytes u.local_port dst_port q.tot_len c ++ payload)
    (size : q.tot_len ≡ 8 + length payload) (small : length payload + 48 < 65536)
    (bytes : AreBytes payload) (small_tos : u.tos < 256) (small_hl : hl < 256)
    (ports : (u.local_port < 65536) × (dst_port < 65536))
    (addresses : (src < 340282366920938463463374607431768211456)
      × (dest < 340282366920938463463374607431768211456)) where
  abbrev pub d : Datagram6
  d = sent_datagram6 u hl src dest dst_port c payload

  field_eq : header_bytes u.local_port dst_port q.tot_len c ++ payload ≡ udp6_part d
  field_eq =
      ap (λ n. header_bytes u.local_port dst_port n c ++ payload) size
      ∙ ap₂
          (λ low high.
            (be16 u.local_port
              ++ (be16 dst_port ++ (be16 (8 + length payload) ++ (low ∷ high ∷ []))))
            ++ payload)
          {x = c % 256} {y = c % 65536 % 256} {u = c / 256 % 256} {v = c % 65536 / 256 % 256}
          (omega arith) (omega arith)

  content-q : content (q ∷ more) ≡ udp6_part d
  content-q = header ∙ field_eq

  udp-AreBytes : AreBytes (udp6_part d)
  udp-AreBytes =
      header-AreBytes u.local_port dst_port (8 + length payload) (c % 65536) payload bytes

  udp_sum :
      udp_chksum odd
          (q ∷ more)
          (record { type = v6; addr = src })
          (record { type = v6; addr = dest })
        ≡ 0
      → reduce (words (pseudo_header true 17 (8 + length payload) src dest ++ udp6_part d)) ≡ 65535
  udp_sum right =
      filled (reduce (words (pseudo_header true 17 (8 + length payload) src dest ++ udp6_part d)))
        (reduce_le (words (pseudo_header true 17 (8 + length payload) src dest ++ udp6_part d)))
        (sym (
            ip_chksum_pseudo_lem odd (q ∷ more) 17 q.tot_len (record { type = v6; addr = src })
              (record { type = v6; addr = dest }) packet (rw content-q udp-AreBytes) (omega arith)
              packet.1
            ∙ ap₂ (λ n l. 65535 - reduce (words (pseudo_header true 17 n src dest ++ l))) size
                content-q)
          ∙ right)

  header-bytes : AreBytes (ip6_part d)
  header-bytes =
      join-AreBytes (be32 (1610612736 + d.traffic))
        (be16 (0 + (8 + length payload)) ++ (17 ∷ hl ∷ (bytes_v6 src ++ bytes_v6 dest)))
        (be32-AreBytes (1610612736 + d.traffic))
        (
          omega arith,
          (
            omega arith,
            (
              omega arith,
              (
                omega (arith, small_hl),
                join-AreBytes (bytes_v6 src) (bytes_v6 dest) (bytes_v6-AreBytes src)
                    (bytes_v6-AreBytes dest),
              ),
            ),
          ),
        )

  pub sent-IsValid6 :
      udp_chksum odd
          (q ∷ more)
          (record { type = v6; addr = src })
          (record { type = v6; addr = dest })
        ≡ 0
      → IsValid6 d
  sent-IsValid6 right = record {
    bytes = join-AreBytes (ip6_part d) (udp6_part d) header-bytes udp-AreBytes;
    lengths = omega (arith, small);
    headers = tt;
    traffic_fits = omega (arith, small_tos);
    addresses = addresses;
    ports = (ports.0, ports.1, omega arith);
    udp_sum = udp_sum right;
  }

  -- What goes out, with the room, the interface and the reference count that it takes.
  pub put_out6 :
      (mtu dest_mtu : ℕ)
      → q.ref ≡ 1
      → 40 ≤ length q.front
      → is_contiguous q.type_internal ≡ true
      → (mtu ≡ 0) ⊎ (length payload + 48 ≤ dest_mtu)
      → (p : List Pbuf) × (ip6_output_if_src (q ∷ more) src dest hl u.tos 17 mtu dest_mtu
          ≡ some (output_ip6 p))
        × (content p ≡ to_bytes6 d)
  put_out6 mtu dest_mtu one room contiguous fits =
      let small' : q.tot_len + 40 < 65536 = omega (arith, size, small) in
      let made : List ℕ = ip6_header u.tos q.tot_len 17 hl src dest in
      (
        with_front 40 made q ∷ more,
        ip6_output_if_src_lem q more packet small' room contiguous one src dest hl u.tos 17 mtu
            dest_mtu
            (elim fits [
              | inl none_set ↦ inl none_set
              | inr enough ↦ inr (omega (arith, size, enough))
            ]),
        content-with_front 40 made q more refl packet small' room
            ∙ ap₂ (λ h l. h ++ l) (ip6_header_lem u.tos q.tot_len 17 hl src dest) content-q
            ∙ ap
                (λ n.
                  be32 (1610612736 + u.tos * 1048576)
                  ++ (be16 n ++ (17 ∷ hl ∷ (bytes_v6 src ++ (bytes_v6 dest ++ udp6_part d)))))
                {x = q.tot_len} {y = 0 + (8 + length payload)} (omega (arith, size)),
      )
