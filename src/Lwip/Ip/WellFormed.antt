-- ===== src/Lwip/Ip/WellFormed.antt =====
-- A packet of UDP that goes out with a header of IPv4 is a well-formed datagram.
use libn2t.Common.{
  ℕ, ◌+◌, ◌-◌, ◌/◌, ◌%◌, ◌≡◌, ◌<◌, ◌≤◌, refl, sym, ap, ap₂, ◌∙◌, ◌⊎◌, inl, inr, Bool, true, false,
  not, ◌&&◌, List, [], ◌∷◌, ◌++◌, some, length, get_or, arith, ◌==◌, ==_iff, u16,
}
use libn2t.Lwip.Addresses.{v4, Netif}
use libn2t.Lwip.Pbuf.{Pbuf, content, IsPacket}
use libn2t.Lwip.Pbuf.Headers.{is_contiguous}
use libn2t.Lwip.Checksum.Sum.{reduce, words, reduce_le, AreBytes}
use libn2t.Lwip.Checksum.Pseudo.{pseudo_header, ip_chksum_pseudo_lem}
use libn2t.Lwip.Udp.{UdpPcb}
use libn2t.Lwip.Udp.Input.{IpData, byte, word, checksum_fails}
use libn2t.Lwip.Udp.Output.{be16, header_bytes}
use libn2t.Lwip.Udp.Output.Exchange.{udp_chksum, header-AreBytes}
use libn2t.Lwip.Ip.{ip4_header, inline_chksum, output, ip4_output_if_src}
use libn2t.Lwip.Ip.Datagram.{Datagram, udp_part, to_bytes, IsValid}
use libn2t.Lwip.Ip.Input.{byte-content}
use libn2t.Lwip.Ip.Front.{with_front, content-with_front}
use libn2t.Lwip.Ip.Output.{inline_chksum_lem, ip4_header-AreBytes, ip4_output_if_src_lem}

split : (a b : Bool) → (not a && not b) ≡ false → (a ≡ true) ⊎ (b ≡ true)
split true b e = inl refl
split false true e = inr refl
split false false e = absurd (ground arith)

pub filled : (n : ℕ) → n ≤ 65535 → 65535 - n ≡ 0 → n ≡ 65535
filled n h e = omega (arith, h, e)

-- The datagram that goes out, with what is in the field for the checksum of UDP.
abbrev pub sent_datagram : UdpPcb → ℕ → ℕ → ℕ → ℕ → ℕ → ℕ → List ℕ → Datagram
sent_datagram u ttl ip_id src dest dst_port c payload = record {
  tos = u.tos;
  id = ip_id;
  offset = 0;
  ttl = ttl;
  ip_chksum = inline_chksum ttl 17 dest u.tos (20 + 0 + (8 + length payload)) ip_id src;
  src = src;
  dest = dest;
  options = [];
  src_port = u.local_port;
  dst_port = dst_port;
  udp_chksum = c % 65536;
  payload = payload;
}

module _ (odd : Pbuf → Bool) (u : UdpPcb) (ttl ip_id src dest dst_port c : ℕ) (payload : List ℕ)
    (q : Pbuf) (more : List Pbuf) (netif : Netif) (packet : IsPacket (q ∷ more)) (long : 8 ≤ q.len)
    (header : content (q ∷ more) ≡ header_bytes u.local_port dst_port q.tot_len c ++ payload)
    (size : q.tot_len ≡ 8 + length payload) (small : length payload + 28 < 65536)
    (bytes : AreBytes payload) (small_tos : u.tos < 256) (small_ttl : ttl < 256)
    (small_id : ip_id < 65536) (ports : (u.local_port < 65536) × (dst_port < 65536))
    (addresses : (src < 4294967296) × (dest < 4294967296)) where
  abbrev pub d : Datagram
  d = sent_datagram u ttl ip_id src dest dst_port c payload

  unfoldable pub ip : IpData
  ip = record {
    netif = netif;
    src = record { type = v4; addr = src };
    dest = record { type = v4; addr = dest };
    header_tot_len = 0;
  }

  field_eq : header_bytes u.local_port dst_port q.tot_len c ++ payload ≡ udp_part d
  field_eq =
      ap (λ n. header_bytes u.local_port dst_port n c ++ payload) size
      ∙ ap₂
          (λ low high.
            (be16 u.local_port
              ++ (be16 dst_port ++ (be16 (8 + length payload) ++ (low ∷ high ∷ []))))
            ++ payload)
          {x = c % 256} {y = c % 65536 % 256} {u = c / 256 % 256} {v = c % 65536 / 256 % 256}
          (omega arith) (omega arith)

  content-q : content (q ∷ more) ≡ udp_part d
  content-q = header ∙ field_eq

  udp-AreBytes : AreBytes (udp_part d)
  udp-AreBytes =
      header-AreBytes u.local_port dst_port (8 + length payload) (c % 65536) payload bytes

  at : (i : ℕ) → i < 8 → byte (q ∷ more) i ≡ get_or (udp_part d) i 0
  at i h = byte-content q more i packet (omega (arith, h, long)) ∙ ap (λ l. get_or l i 0) content-q

  sum_eq :
      udp_chksum odd (q ∷ more) ip.src ip.dest
      ≡ 65535 - reduce (words (pseudo_header false 17 (8 + length payload) src dest ++ udp_part d))
  unfolding ip
  sum_eq =
      ip_chksum_pseudo_lem odd (q ∷ more) 17 q.tot_len ip.src ip.dest packet
        (rw content-q udp-AreBytes) (omega arith) packet.1
      ∙ ap₂ (λ n l. 65535 - reduce (words (pseudo_header false 17 n src dest ++ l))) size content-q

  udp_sum :
      checksum_fails (udp_chksum odd) ip (q ∷ more) ≡ false
      → (d.udp_chksum ≡ 0)
        ⊎ (reduce (words (pseudo_header false 17 (8 + length payload) src dest ++ udp_part d))
            ≡ 65535)
  udp_sum right =
      elim (split (word (q ∷ more) 6 == 0) (udp_chksum odd (q ∷ more) ip.src ip.dest == 0) right) [
        | inl absent ↦ inl (
            omega (
              arith,
              at 6 (omega arith),
              at 7 (omega arith),
              (==_iff (word (q ∷ more) 6) 0).0 absent,
            ))
        | inr zero_sum ↦ inr (
            filled
              (reduce (words (pseudo_header false 17 (8 + length payload) src dest ++ udp_part d)))
              (reduce_le
                (words (pseudo_header false 17 (8 + length payload) src dest ++ udp_part d)))
              (sym sum_eq ∙ (==_iff (udp_chksum odd (q ∷ more) ip.src ip.dest) 0).0 zero_sum))
      ]

  pub sent-IsValid : checksum_fails (udp_chksum odd) ip (q ∷ more) ≡ false → IsValid d
  sent-IsValid right = record {
    bytes =
        ip4_header-AreBytes u.tos (20 + (8 + length payload)) ip_id ttl 17 d.ip_chksum src dest
          (udp_part d) small_tos small_ttl (omega arith) udp-AreBytes;
    lengths = omega (arith, small);
    options_fit = omega arith;
    options_aligned = refl;
    addresses = addresses;
    ports = (ports.0, ports.1, omega arith);
    no_fragment = refl;
    ip_sum =
        inline_chksum_lem ttl 17 dest u.tos (20 + (8 + length payload)) ip_id src small_ttl
          (omega arith) small_tos (omega (arith, small)) small_id addresses;
    udp_sum = udp_sum right;
  }

  -- What goes out, with the room, the interface and the reference count that it takes.
  pub put_out :
      (mtu : ℕ)
      → q.ref ≡ 1
      → 20 ≤ length q.front
      → is_contiguous q.type_internal ≡ true
      → (mtu ≡ 0) ⊎ (length payload + 28 ≤ mtu)
      → (p : List Pbuf) × (ip4_output_if_src (q ∷ more) src dest ttl u.tos 17 mtu ip_id
          ≡ some (output p, u16 (ip_id + 1)))
        × (content p ≡ to_bytes d)
  put_out mtu one room contiguous fits =
      let len_eq : q.tot_len + 20 ≡ 20 + 0 + (8 + length payload) = omega (arith, size) in
      let small' : q.tot_len + 20 < 65536 = omega (arith, size, small) in
      let header : List ℕ =
        ip4_header 69 u.tos (q.tot_len + 20) ip_id 0 ttl 17
          (inline_chksum ttl 17 dest u.tos (q.tot_len + 20) ip_id src) src dest in
      (
        with_front 20 header q ∷ more,
        ip4_output_if_src_lem q more packet small' room contiguous one src dest ttl u.tos 17 mtu
            ip_id
            (elim fits [
              | inl none_set ↦ inl none_set
              | inr enough ↦ inr (omega (arith, size, enough))
            ]),
        content-with_front 20 header q more refl packet small' room
            ∙ ap₂
                (λ n l.
                  ip4_header 69 u.tos n ip_id 0 ttl 17 (inline_chksum ttl 17 dest u.tos n ip_id src)
                    src dest
                  ++ l)
                len_eq content-q,
      )
