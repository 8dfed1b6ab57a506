-- ===== src/Lwip/Ip/Datagram.antt =====
-- A datagram of UDP in a packet of IPv4, as RFC 791 and RFC 768 define it.
use libn2t.Common.{
  ℕ, ◌+◌, ◌-◌, ◌/◌, ◌%◌, ◌≡◌, ◌<◌, ◌≤◌, ap, ◌∙◌, ◌⊎◌, false, List, [], ◌∷◌, ◌++◌, length, take,
  drop, take-append_eq, drop-append_ge, length-append, arith,
}
use libn2t.Lwip.Checksum.Sum.{reduce, words, AreBytes}
use libn2t.Lwip.Checksum.Pseudo.{pseudo_header}

-- The bits for fragments are in `offset`.
pub record Datagram : Type 0 where
  pub tos : ℕ
  pub id : ℕ
  pub offset : ℕ
  pub ttl : ℕ
  pub ip_chksum : ℕ
  pub src : ℕ
  pub dest : ℕ
  pub options : List ℕ
  pub src_port : ℕ
  pub dst_port : ℕ
  pub udp_chksum : ℕ
  pub payload : List ℕ

abbrev pub header_length : Datagram → ℕ
header_length d = 20 + length d.options

-- A field of two bytes in network order. The checksums are numbers as the machine reads them.
abbrev pub short : ℕ → List ℕ
short n = n / 256 % 256 ∷ n % 256 ∷ []

abbrev pub chksum : ℕ → List ℕ
chksum c = c % 256 ∷ c / 256 % 256 ∷ []

-- Version 4 and the length of the header in words, then the fields in their order.
abbrev pub ip_part : Datagram → List ℕ
ip_part d =
    ((64 + (5 + length d.options / 4))
      ∷ d.tos
      ∷ (short (header_length d + (8 + length d.payload))
          ++ (short d.id
              ++ (short d.offset
                  ++ (d.ttl
                      ∷ 17
                      ∷ (chksum d.ip_chksum
                          ++ (short (d.src / 65536)
                              ++ (short d.src ++ (short (d.dest / 65536) ++ short d.dest)))))))))
    ++ d.options

abbrev pub udp_part : Datagram → List ℕ
udp_part d =
    (short d.src_port
      ++ (short d.dst_port ++ (short (8 + length d.payload) ++ chksum d.udp_chksum)))
    ++ d.payload

abbrev pub to_bytes : Datagram → List ℕ
to_bytes d = ip_part d ++ udp_part d

-- The members fit their fields, the datagram is no fragment, and its checksums are right, where the
-- one of UDP may be absent.
pub record IsValid (d : Datagram) : Type 0 where
  pub bytes : AreBytes (to_bytes d)
  pub lengths : header_length d + (8 + length d.payload) < 65536
  pub options_fit : length d.options ≤ 40
  pub options_aligned : length d.options % 4 ≡ 0
  pub addresses : (d.src < 4294967296) × (d.dest < 4294967296)
  pub ports : (d.src_port < 65536) × (d.dst_port < 65536) × (d.udp_chksum < 65536)
  pub no_fragment : d.offset % 16384 ≡ 0
  pub ip_sum : reduce (words (ip_part d)) ≡ 65535
  pub udp_sum :
      (d.udp_chksum ≡ 0)
      ⊎ (reduce (words (pseudo_header false 17 (8 + length d.payload) d.src d.dest ++ udp_part d))
          ≡ 65535)

module _ (d : Datagram) where
  pub length-ip_part : length (ip_part d) ≡ header_length d
  length-ip_part = omega arith

  pub length-to_bytes : length (to_bytes d) ≡ header_length d + (8 + length d.payload)
  length-to_bytes = omega (arith, length-append (ip_part d) (udp_part d))

  pub take-to_bytes : take (header_length d) (to_bytes d) ≡ ip_part d
  take-to_bytes = take-append_eq (header_length d) (ip_part d) (udp_part d) length-ip_part

  pub drop-to_bytes : drop (header_length d) (to_bytes d) ≡ udp_part d
  drop-to_bytes =
      drop-append_ge (header_length d) (ip_part d) (udp_part d) (omega (arith, length-ip_part))
      ∙ ap (λ k. drop k (udp_part d)) {x = header_length d - length (ip_part d)} {y = 0}
          (omega (arith, length-ip_part))
