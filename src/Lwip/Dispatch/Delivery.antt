-- ===== src/Lwip/Dispatch/Delivery.antt =====
-- A datagram of UDP in a packet of either version goes through `ip_input`.
use libn2t.Common.{
  ℕ, suc, ◌+◌, ◌/◌, ◌≡◌, ◌<◌, ◌≤◌, refl, ap, ◌∙◌, Bool, false, List, [], ◌∷◌, Option, some, length,
  get_or, arith,
}
use libn2t.Lwip.Addresses.{v4, v6, IpAddr, Netif}
use libn2t.Lwip.Pbuf.{Pbuf, content, IsPacket}
use libn2t.Lwip.Pbuf.Alloc.{first_len}
use libn2t.Lwip.Udp.{Udp}
use libn2t.Lwip.Udp.Input.{call_recv, byte}
use libn2t.Lwip.Ip.{udp, bad_source, ip4_input}
use libn2t.Lwip.Ip.Datagram.{Datagram, header_length, to_bytes, IsValid, length-to_bytes}
use libn2t.Lwip.Ip.Input.{byte-content, ip4_input_lem}
use libn2t.Lwip.Ip6.Input.{refused_addresses, unspecified, ip6_input}
use libn2t.Lwip.Ip6.Extension.{exts_bytes}
use libn2t.Lwip.Ip6.Datagram.{Datagram6, to_bytes6, IsValid6, length-to_bytes6}
use libn2t.Lwip.Ip6.Delivery.{ip6_input_lem}
use libn2t.Lwip.Dispatch.{ip_input, current_dest}

pub data AnyDatagram : Type 0 where
  four : Datagram → AnyDatagram
  six : Datagram6 → AnyDatagram

module _ (netif : Netif) where
  -- A valid datagram that is not refused for its addresses, with headers that fit a pbuf of the pool.
  abbrev pub IsGood : AnyDatagram → Type 0
  IsGood (four d) = IsValid d × (bad_source (record { type = v4; addr = d.src }) netif ≡ false)
  IsGood (six d) =
      IsValid6 d
      × (refused_addresses (record { type = v6; addr = d.src })
            (record { type = v6; addr = d.dest })
          ≡ false)
      × (unspecified (record { type = v6; addr = d.src }) (record { type = v6; addr = d.dest })
          ≡ false)
      × (48 + length (exts_bytes d.extensions) ≤ 1516)

abbrev pub bytes_of : AnyDatagram → List ℕ
bytes_of (four d) = to_bytes d
bytes_of (six d) = to_bytes6 d

abbrev pub headers_length : AnyDatagram → ℕ
headers_length (four d) = header_length d + 8
headers_length (six d) = 48 + length (exts_bytes d.extensions)

abbrev pub source_of : AnyDatagram → IpAddr
source_of (four d) = record { type = v4; addr = d.src }
source_of (six d) = record { type = v6; addr = d.src }

abbrev pub dest_of : AnyDatagram → IpAddr
dest_of (four d) = record { type = v4; addr = d.dest }
dest_of (six d) = record { type = v6; addr = d.dest }

abbrev pub source_port : AnyDatagram → ℕ
source_port (four d) = d.src_port
source_port (six d) = d.src_port

abbrev pub dest_port : AnyDatagram → ℕ
dest_port (four d) = d.dst_port
dest_port (six d) = d.dst_port

abbrev pub payload_of : AnyDatagram → List ℕ
payload_of (four d) = d.payload
payload_of (six d) = d.payload

pub sizes :
    (netif : Netif) (d : AnyDatagram)
    → IsGood netif d
    → (length (bytes_of d) < 65536)
      × (headers_length d ≤ length (bytes_of d))
      × (headers_length d ≤ 1516)
sizes netif (four d) (valid, fine) = (
  omega (arith, length-to_bytes d, valid.lengths),
  omega (arith, length-to_bytes d),
  omega (arith, valid.options_fit),
)
sizes netif (six d) (valid, fine, specified, short) = (
  omega (arith, length-to_bytes6 d, valid.lengths),
  omega (arith, length-to_bytes6 d),
  omega (arith, short),
)

module _ (odd : Pbuf → Bool) (ip4_reass : List Pbuf → Option (List Pbuf))
    (ip6_reass : ℕ → List Pbuf → Option (List Pbuf)) (rounds : ℕ) (netif : Netif) where
  input_four :
      (head : Pbuf) (next : List Pbuf) (s : Udp)
      → byte (head ∷ next) 0 / 16 ≡ 4
      → ip_input odd ip4_reass ip6_reass rounds netif (head ∷ next) s
        ≡ ip4_input odd ip4_reass netif (head ∷ next) s
  unfolding ip_input
  input_four head next s e = rw e refl

  input_six :
      (head : Pbuf) (next : List Pbuf) (s : Udp)
      → byte (head ∷ next) 0 / 16 ≡ 6
      → ip_input odd ip4_reass ip6_reass rounds netif (head ∷ next) s
        ≡ ip6_input odd ip6_reass rounds netif (head ∷ next) s
  unfolding ip_input
  input_six head next s e = rw e refl

module _ (odd : Pbuf → Bool) (ip4_reass : List Pbuf → Option (List Pbuf))
    (ip6_reass : ℕ → List Pbuf → Option (List Pbuf)) (rounds : ℕ) (netif : Netif) where
  -- A well-formed datagram of either version of IP, in a packet with its headers in the first pbuf, to
  -- whatever destination except an IPv4-mapped one, and with a source that is not refused for its
  -- version, is given to the function of the first control block of UDP, once, with its bytes, its
  -- source and its source port; the block then has the destination port.
  pub ip_input_lem :
      (d : AnyDatagram) (p : List Pbuf) (s : Udp) (i f : ℕ) (rest : List ℕ)
      → IsPacket p
      → content p ≡ bytes_of d
      → IsGood netif d
      → headers_length d ≤ first_len p
      → s.udp_pcbs ≡ i ∷ rest
      → (s.pcb i).recv ≡ some f
      → (q : List Pbuf) × (t : Udp) × (ip_input odd ip4_reass ip6_reass (suc rounds) netif p s
          ≡ some
              (udp (call_recv f (s.pcb i).recv_arg i q (source_of d) (source_port d) ∷ []) ∷ [], t))
        × (content q ≡ payload_of d)
        × (t.pcb i ≡ record (s.pcb i) { local_port = dest_port d })
        × (t.udp_pcbs ≡ s.udp_pcbs)
        × (current_dest p ≡ dest_of d)
  ip_input_lem (four d) [] s i f rest packet same good room listed registered =
      absurd (omega (arith, room))
  ip_input_lem (six d) [] s i f rest packet same good room listed registered =
      absurd (omega (arith, room))
  ip_input_lem (four d) (head ∷ next) s i f rest packet same (valid, fine) room listed registered =
      let version : byte (head ∷ next) 0 / 16 ≡ 4 = omega (
        arith,
        byte-content head next 0 packet (omega (arith, room)) ∙ ap (λ l. get_or l 0 0) same,
        valid.options_fit,
      ) in
      let (q, t, calls, bytes, block, pcbs, dest) =
        ip4_input_lem odd ip4_reass netif head next d packet same valid room s i f rest fine listed
          registered in
      (
        q,
        t,
        input_four odd ip4_reass ip6_reass (suc rounds) netif head next s version ∙ calls,
        bytes,
        block,
        pcbs,
        rw version dest,
      )
  ip_input_lem (six d) (head ∷ next) s i f rest packet same (valid, fine, specified, short) room
        listed registered =
      let version : byte (head ∷ next) 0 / 16 ≡ 6 = omega (
        arith,
        byte-content head next 0 packet (omega (arith, room)) ∙ ap (λ l. get_or l 0 0) same,
        valid.traffic_fits,
      ) in
      let (q, t, calls, bytes, block, pcbs, dest) =
        ip6_input_lem odd ip6_reass netif head next d packet same valid room rounds s i f rest fine
          specified listed registered in
      (
        q,
        t,
        input_six odd ip4_reass ip6_reass (suc rounds) netif head next s version ∙ calls,
        bytes,
        block,
        pcbs,
        rw version dest,
      )
