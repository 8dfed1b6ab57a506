-- ===== src/Lwip/Ip/Output.antt =====
-- `ip4_output_if_src` puts a header in front of a packet.
use libn2t.Common.{
  ℕ, ◌+◌, ◌-◌, ◌*◌, ◌/◌, ◌%◌, ◌≡◌, ◌<◌, ◌≤◌, refl, ap, ◌∙◌, ◌⊎◌, inl, inr, true, false, not, ◌&&◌,
  List, ◌∷◌, ◌++◌, some, length, arith, ltb, ◌==◌, u16, u32,
}
use libn2t.Lwip.Pbuf.{Pbuf, IsPacket}
use libn2t.Lwip.Pbuf.Headers.{is_contiguous}
use libn2t.Lwip.Checksum.{swap_bytes, halves_v4}
use libn2t.Lwip.Checksum.Sum.{reduce, words, AreBytes}
use libn2t.Lwip.Ip.Front.{with_front, payload-move_back, added, once, moved-tot_len, moved-long}
use libn2t.Lwip.Ip.{ip4_header, inline_chksum, output, ip4_output_if_src}

-- The sum of a header without its checksum.
sum_of : ℕ → ℕ → ℕ → ℕ → ℕ → ℕ → ℕ → ℕ
sum_of ttl proto dest tos len id src =
    swap_bytes (proto + ttl * 256)
    + halves_v4 dest
    + swap_bytes (tos + 69 * 256)
    + swap_bytes len
    + swap_bytes id
    + halves_v4 src

pub ip4_header-AreBytes :
    (tos len id ttl proto c src dest : ℕ) (rest : List ℕ)
    → tos < 256
    → ttl < 256
    → proto < 256
    → AreBytes rest
    → AreBytes (ip4_header 69 tos len id 0 ttl proto c src dest ++ rest)
ip4_header-AreBytes tos len id ttl proto c src dest rest small_tos small_ttl small_proto h = (
  omega arith,
  (
    omega arith,
    (
      omega arith,
      (
        omega arith,
        (
          omega arith,
          (
            omega arith,
            (
              omega arith,
              (
                omega arith,
                (
                  omega arith,
                  (
                    omega arith,
                    (
                      omega arith,
                      (
                        omega arith,
                        (
                          omega arith,
                          (
                            omega arith,
                            (
                              omega arith,
                              (
                                omega arith,
                                (omega arith, (omega arith, (omega arith, (omega arith, h)))),
                              ),
                            ),
                          ),
                        ),
                      ),
                    ),
                  ),
                ),
              ),
            ),
          ),
        ),
      ),
    ),
  ),
)

complement : ℕ → ℕ
complement x = let folded : ℕ = x / 65536 + x % 65536 in 65535 - (folded / 65536 + folded) % 65536

complement_lem : (x : ℕ) → 0 < x → x < 4294901760 → reduce (x + complement x) ≡ 65535
unfolding reduce complement
complement_lem x h k = ground arith

complement_le : (x : ℕ) → complement x < 65536
unfolding complement
complement_le x = omega arith

module _ (ttl proto dest tos len id src : ℕ) (small_ttl : ttl < 256) (small_proto : proto < 256)
    (small_tos : tos < 256) (small_len : len < 65536) (small_id : id < 65536)
    (small_addresses : (src < 4294967296) × (dest < 4294967296)) where
  words-ip4_header :
      (c : ℕ)
      → c < 65536
      → words (ip4_header 69 tos len id 0 ttl proto c src dest)
        ≡ sum_of ttl proto dest tos len id src + c
  unfolding sum_of
  words-ip4_header c h = omega (arith, h)

  sum_bounds :
      (0 < sum_of ttl proto dest tos len id src) × (sum_of ttl proto dest tos len id src < 1000000)
  unfolding sum_of
  sum_bounds = (omega arith, omega arith)

  pub inline_chksum_le : inline_chksum ttl proto dest tos len id src < 65536
  unfolding inline_chksum
  inline_chksum_le = omega arith

  inline-complement :
      inline_chksum ttl proto dest tos len id src
      ≡ complement (sum_of ttl proto dest tos len id src)
  unfolding inline_chksum complement sum_of
  inline-complement =
      ap (λ x. 65535 - ((x / 65536 + x % 65536) / 65536 + (x / 65536 + x % 65536)) % 65536)
        {x = u32 (sum_of ttl proto dest tos len id src)} {y = sum_of ttl proto dest tos len id src}
        (omega (arith, sum_bounds))

  -- The checksum that is taken while the header is made is right.
  pub inline_chksum_lem :
      reduce (
        words (
          ip4_header 69 tos len id 0 ttl proto
            (inline_chksum ttl proto dest tos len id src)
            src
            dest))
      ≡ 65535
  inline_chksum_lem =
      ap reduce (
        words-ip4_header (inline_chksum ttl proto dest tos len id src) inline_chksum_le
        ∙ ap (λ c. sum_of ttl proto dest tos len id src + c) inline-complement)
      ∙ complement_lem (sum_of ttl proto dest tos len id src) sum_bounds.0
          (omega (arith, sum_bounds))

module _ (head : Pbuf) (next : List Pbuf) (packet : IsPacket (head ∷ next))
    (small : head.tot_len + 20 < 65536) (room : 20 ≤ length head.front)
    (contiguous : is_contiguous head.type_internal ≡ true) (one : head.ref ≡ 1) where
  fragments-not :
      (mtu : ℕ)
      → (mtu ≡ 0) ⊎ (head.tot_len + 20 ≤ mtu)
      → (not (mtu == 0) && ltb mtu (head.tot_len + 20)) ≡ false
  fragments-not mtu (inl e) = rw e refl
  fragments-not mtu (inr h) = ground arith

  -- A packet for which the first pbuf has the room goes out with its header, if the interface takes
  -- packets of that length.
  pub ip4_output_if_src_lem :
      (src dest ttl tos proto mtu ip_id : ℕ)
      → (mtu ≡ 0) ⊎ (head.tot_len + 20 ≤ mtu)
      → ip4_output_if_src (head ∷ next) src dest ttl tos proto mtu ip_id
        ≡ some (
          output (
              with_front 20
                (ip4_header 69 tos
                  (head.tot_len + 20)
                  ip_id
                  0
                  ttl
                  proto
                  (inline_chksum ttl proto dest tos (head.tot_len + 20) ip_id src)
                  src
                  dest)
                head
              ∷ next),
          u16 (ip_id + 1),
        )
  unfolding ip4_output_if_src with_front
  ip4_output_if_src_lem src dest ttl tos proto mtu ip_id fits =
      let positive : 0 < 20 = omega arith in
      rw (once 20 positive head next packet small room contiguous one) (
        rw (added 20 positive head next packet small room contiguous one) (
          rw (moved-long 20 positive head next packet small room contiguous one) (
            rw (moved-tot_len 20 positive head next packet small room contiguous one) (
              rw (fragments-not mtu fits) (
                rw (payload-move_back 20 positive head next packet small room contiguous one)
                  refl)))))
