-- ===== src/Lwip/Ip6/Output/Header.antt =====
-- `ip6_output_if_src` puts a header in front of a packet.
use libn2t.Common.{
  ℕ, ◌+◌, ◌-◌, ◌*◌, ◌/◌, ◌%◌, ◌≡◌, ◌<◌, ◌≤◌, refl, ap₂, ◌∙◌, ◌⊎◌, inl, inr, true, false, not, ◌&&◌,
  List, [], ◌∷◌, ◌++◌, some, length, arith, ltb, ◌==◌, u16,
}
use libn2t.Lwip.Pbuf.{Pbuf, IsPacket}
use libn2t.Lwip.Pbuf.Headers.{is_contiguous}
use libn2t.Lwip.Checksum.Pseudo.{be32, bytes_v6}
use libn2t.Lwip.Udp.Output.{be16}
use libn2t.Lwip.Ip.Front.{with_front, payload-move_back, added, once, moved-tot_len, moved-long}
use libn2t.Lwip.Ip6.Output.{output_ip6, addr_bytes, v_tc_fl, ip6_header, ip6_output_if_src}

-- A row of four bytes from its two halves.
be32_halves :
    (n a b : ℕ) → a % 65536 ≡ n / 65536 % 65536 → b % 65536 ≡ n % 65536 → be16 a ++ be16 b ≡ be32 n
be32_halves n a b e f =
    ap₂ (λ x y. x ∷ y ∷ be16 b) {x = a / 256 % 256} {y = n / 16777216 % 256} {u = a % 256}
      {v = n / 65536 % 256} (omega (arith, e)) (omega (arith, e))
    ∙ ap₂ (λ x y. n / 16777216 % 256 ∷ n / 65536 % 256 ∷ x ∷ y ∷ []) {x = b / 256 % 256}
        {y = n / 256 % 256} {u = b % 256} {v = n % 256} (omega (arith, f)) (omega (arith, f))

pair :
    (n a b : ℕ) (rest other : List ℕ)
    → a % 65536 ≡ n / 65536 % 65536
    → b % 65536 ≡ n % 65536
    → rest ≡ other
    → be16 a ++ (be16 b ++ rest) ≡ be32 n ++ other
pair n a b rest other e f same = ap₂ (λ x y. x ++ y) (be32_halves n a b e f) same

pub addr_bytes-bytes_v6 : (a : ℕ) → addr_bytes a ≡ bytes_v6 a
addr_bytes-bytes_v6 a =
    pair (a / 79228162514264337593543950336 % 4294967296) (a / 5192296858534827628530496329220096)
      (a / 79228162514264337593543950336) _ _ (omega arith) (omega arith)
      (pair (a / 18446744073709551616 % 4294967296) (a / 1208925819614629174706176)
        (a / 18446744073709551616) _ _ (omega arith) (omega arith)
        (pair (a / 4294967296 % 4294967296) (a / 281474976710656) (a / 4294967296) _ _ (omega arith)
          (omega arith)
          (be32_halves (a / 1 % 4294967296) (a / 65536) a (omega arith) (omega arith))))

-- The header in the words of RFC 8200.
pub ip6_header_lem :
    (tc plen nexth hl src dest : ℕ)
    → ip6_header tc plen nexth hl src dest
      ≡ be32 (1610612736 + tc * 1048576)
        ++ (be16 plen ++ (nexth ∷ hl ∷ (bytes_v6 src ++ bytes_v6 dest)))
ip6_header_lem tc plen nexth hl src dest =
    pair (1610612736 + tc * 1048576) (v_tc_fl tc / 65536) (v_tc_fl tc) _ _ (omega arith)
      (omega arith)
      (ap₂ (λ a b. be16 plen ++ (nexth ∷ hl ∷ (a ++ b))) (addr_bytes-bytes_v6 src)
        (addr_bytes-bytes_v6 dest))

module _ (head : Pbuf) (next : List Pbuf) (packet : IsPacket (head ∷ next))
    (small : head.tot_len + 40 < 65536) (room : 40 ≤ length head.front)
    (contiguous : is_contiguous head.type_internal ≡ true) (one : head.ref ≡ 1) where
  fragments-not :
      (mtu dest_mtu : ℕ)
      → (mtu ≡ 0) ⊎ (head.tot_len + 40 ≤ dest_mtu)
      → (not (mtu == 0) && ltb dest_mtu (head.tot_len + 40)) ≡ false
  fragments-not mtu dest_mtu (inl e) = rw e refl
  fragments-not mtu dest_mtu (inr h) = ground arith

  plen_eq : u16 (head.tot_len + 40 - 40) ≡ head.tot_len
  plen_eq = omega (arith, small)

  -- A packet for which the first pbuf has the room goes out with its header, if it is no longer than
  -- the MTU of the way, or the interface has none.
  pub ip6_output_if_src_lem :
      (src dest hl tc nexth mtu dest_mtu : ℕ)
      → (mtu ≡ 0) ⊎ (head.tot_len + 40 ≤ dest_mtu)
      → ip6_output_if_src (head ∷ next) src dest hl tc nexth mtu dest_mtu
        ≡ some
            (output_ip6 (with_front 40 (ip6_header tc head.tot_len nexth hl src dest) head ∷ next))
  unfolding ip6_output_if_src with_front
  ip6_output_if_src_lem src dest hl tc nexth mtu dest_mtu fits =
      let positive : 0 < 40 = omega arith in
      rw (once 40 positive head next packet small room contiguous one) (
        rw (added 40 positive head next packet small room contiguous one) (
          rw (moved-long 40 positive head next packet small room contiguous one) (
            rw (moved-tot_len 40 positive head next packet small room contiguous one) (
              rw (fragments-not mtu dest_mtu fits) (
                rw (payload-move_back 40 positive head next packet small room contiguous one)
                  (rw plen_eq refl))))))
