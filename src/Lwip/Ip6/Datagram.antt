-- ===== src/Lwip/Ip6/Datagram.antt =====
-- A datagram of UDP in a packet of IPv6, with extension headers, as RFC 8200 and RFC 768 define it.
use libn2t.Common.{
  ℕ, ◌+◌, ◌*◌, ◌/◌, ◌%◌, ◌≡◌, ◌<◌, true, List, ◌∷◌, ◌++◌, length, drop, drop-append, length-append,
  arith,
}
use libn2t.Lwip.Checksum.Sum.{reduce, words, AreBytes}
use libn2t.Lwip.Checksum.Pseudo.{be32, bytes_v6, pseudo_header}
use libn2t.Lwip.Ip6.Extension.{Extension, first_number, exts_bytes, AreSkipped}
use libn2t.Lwip.Ip.Datagram.{short, chksum}

-- The traffic class and the flow label are one number.
pub record Datagram6 : Type 0 where
  pub traffic : ℕ
  pub hop_limit : ℕ
  pub src : ℕ
  pub dest : ℕ
  pub extensions : List Extension
  pub src_port : ℕ
  pub dst_port : ℕ
  pub udp_chksum : ℕ
  pub payload : List ℕ

abbrev pub ip6_part : Datagram6 → List ℕ
ip6_part d =
    be32 (1610612736 + d.traffic)
    ++ (short (length (exts_bytes d.extensions) + (8 + length d.payload))
        ++ (first_number d.extensions ∷ d.hop_limit ∷ (bytes_v6 d.src ++ bytes_v6 d.dest)))

abbrev pub udp6_part : Datagram6 → List ℕ
udp6_part d =
    (short d.src_port
      ++ (short d.dst_port ++ (short (8 + length d.payload) ++ chksum d.udp_chksum)))
    ++ d.payload

abbrev pub to_bytes6 : Datagram6 → List ℕ
to_bytes6 d = ip6_part d ++ (exts_bytes d.extensions ++ udp6_part d)

-- The members fit their fields, the packet has at most 65535 bytes, its extension headers are some that
-- are skipped, and the checksum, which IPv6 demands, is right.
pub record IsValid6 (d : Datagram6) : Type 0 where
  pub bytes : AreBytes (to_bytes6 d)
  pub lengths : 48 + length (exts_bytes d.extensions) + length d.payload < 65536
  pub headers : AreSkipped d.extensions
  pub traffic_fits : d.traffic < 268435456
  pub addresses :
      (d.src < 340282366920938463463374607431768211456)
      × (d.dest < 340282366920938463463374607431768211456)
  pub ports : (d.src_port < 65536) × (d.dst_port < 65536) × (d.udp_chksum < 65536)
  pub udp_sum :
      reduce (words (pseudo_header true 17 (8 + length d.payload) d.src d.dest ++ udp6_part d))
      ≡ 65535

module _ (d : Datagram6) where
  pub length-ip6_part : length (ip6_part d) ≡ 40
  length-ip6_part = omega arith

  pub length-to_bytes6 :
      length (to_bytes6 d) ≡ 48 + length (exts_bytes d.extensions) + length d.payload
  length-to_bytes6 = omega (
    arith,
    length-append (ip6_part d) (exts_bytes d.extensions ++ udp6_part d),
    length-append (exts_bytes d.extensions) (udp6_part d),
  )

  pub drop-to_bytes6 : drop 40 (to_bytes6 d) ≡ exts_bytes d.extensions ++ udp6_part d
  drop-to_bytes6 = drop-append (ip6_part d) (exts_bytes d.extensions ++ udp6_part d)

-- A number of sixteen bytes from its four words.
pub whole_address :
    (a : ℕ)
    → a < 340282366920938463463374607431768211456
    → a / 79228162514264337593543950336 % 4294967296 * 79228162514264337593543950336
        + a / 18446744073709551616 % 4294967296 * 18446744073709551616
        + a / 4294967296 % 4294967296 * 4294967296
        + a / 1 % 4294967296
      ≡ a
whole_address a h = omega (arith, h)
