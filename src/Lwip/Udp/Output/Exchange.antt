-- ===== src/Lwip/Udp/Output/Exchange.antt =====
-- A datagram on its way from one control block to another, with the checksum of inet_chksum.c.
use libn2t.Common.{
  ℕ, ◌+◌, ◌-◌, ◌≡◌, ◌<◌, ◌≤◌, refl, ap, ◌∙◌, Bool, List, ◌∷◌, ◌++◌, drop, arith, Bool-cases, inl,
  inr,
}
use libn2t.Lwip.Addresses.{IpAddr, is_v6}
use libn2t.Lwip.Pbuf.{Pbuf, content, IsPacket}
use libn2t.Lwip.Checksum.{ip_chksum_pseudo}
use libn2t.Lwip.Checksum.Sum.{reduce, words, AreBytes}
use libn2t.Lwip.Checksum.Pseudo.{
  pseudo_header, words-pseudo_v4, words-pseudo_v6, ip_chksum_pseudo_lem,
}
use libn2t.Lwip.Udp.{Udp}
use libn2t.Lwip.Udp.Output.{Output, header_bytes, total_len, sent_chksum}
use libn2t.Lwip.Udp.Output.Sending.{
  with_header, with_header-IsPacket, content-with_header, Verifies,
}

-- The checksum of a datagram, as udp.c asks for it; IP_PROTO_UDP is 17.
abbrev pub udp_chksum : (Pbuf → Bool) → List Pbuf → IpAddr → IpAddr → ℕ
udp_chksum odd p src dest = ip_chksum_pseudo odd p 17 (total_len p) src dest

-- The words of a header: those without the checksum, and the checksum.
words-header :
    (a b len c : ℕ) (rest : List ℕ)
    → c < 65536
    → words (header_bytes a b len c ++ rest) ≡ words (header_bytes a b len 0 ++ rest) + c
words-header a b len c rest h = omega (arith, h)

filled_in : (x : ℕ) → 65535 - reduce (x + sent_chksum (65535 - reduce x)) ≡ 0
unfolding reduce
filled_in x = ground arith

-- A header is made of bytes.
pub header-AreBytes :
    (a b len c : ℕ) (rest : List ℕ) → AreBytes rest → AreBytes (header_bytes a b len c ++ rest)
header-AreBytes a b len c rest h = (
  omega arith,
  (
    omega arith,
    (omega arith, (omega arith, (omega arith, (omega arith, (omega arith, (omega arith, h)))))),
  ),
)

-- The sum of the datagram, with c in its checksum field.
module _ (odd : Pbuf → Bool) (a b len : ℕ) (q : Pbuf) (more : List Pbuf) (src dest : IpAddr)
    (packet : IsPacket (q ∷ more)) (long : 8 ≤ q.len)
    (bytes : AreBytes (drop 8 (content (q ∷ more)))) where
  -- The words of the pseudo header, the header without its checksum and the data.
  without : ℕ
  without = words (
      pseudo_header (is_v6 dest) 17 q.tot_len src.addr dest.addr
      ++ (header_bytes a b len 0 ++ drop 8 (content (q ∷ more))))

  with_chksum :
      (c : ℕ)
      → c < 65536
      → words (
          pseudo_header (is_v6 dest) 17 q.tot_len src.addr dest.addr
          ++ (header_bytes a b len c ++ drop 8 (content (q ∷ more))))
        ≡ without + c
  unfolding without
  with_chksum c h =
      let low : q.tot_len < 65536 = packet.1 in
      let rest : List ℕ = drop 8 (content (q ∷ more)) in
      elim (Bool-cases (is_v6 dest)) [
        | inl six ↦ rw six (
            words-pseudo_v6 17 q.tot_len src.addr dest.addr (header_bytes a b len c ++ rest)
              (omega arith) low
            ∙ omega (
              arith,
              words-header a b len c rest h,
              words-pseudo_v6 17 q.tot_len src.addr dest.addr (header_bytes a b len 0 ++ rest)
                  (omega arith) low,
            ))
        | inr four ↦ rw four (
            words-pseudo_v4 17 q.tot_len src.addr dest.addr (header_bytes a b len c ++ rest)
              (omega arith) low
            ∙ omega (
              arith,
              words-header a b len c rest h,
              words-pseudo_v4 17 q.tot_len src.addr dest.addr (header_bytes a b len 0 ++ rest)
                  (omega arith) low,
            ))
      ]

  udp_chksum-with_header :
      (c : ℕ)
      → c < 65536
      → udp_chksum odd (with_header (header_bytes a b len c) q more) src dest
        ≡ 65535 - reduce (without + c)
  udp_chksum-with_header c h =
      ip_chksum_pseudo_lem odd (with_header (header_bytes a b len c) q more) 17 q.tot_len src dest
        (with_header-IsPacket (header_bytes a b len c) q more refl packet long)
        (rw (content-with_header (header_bytes a b len c) q more refl packet long)
          (header-AreBytes a b len c (drop 8 (content (q ∷ more))) bytes))
        (omega arith) packet.1
      ∙ ap
          (λ l.
            65535
            - reduce (words (pseudo_header (is_v6 dest) 17 q.tot_len src.addr dest.addr ++ l)))
          (content-with_header (header_bytes a b len c) q more refl packet long)
      ∙ ap (λ n. 65535 - reduce n) (with_chksum c h)

sent_le : (x : ℕ) → sent_chksum (65535 - x) < 65536
sent_le x = ground arith

-- The checksum that is filled in makes the sum 0, which the receiver takes for a right one.
pub udp_chksum-Verifies : (odd : Pbuf → Bool) → Verifies (udp_chksum odd)
udp_chksum-Verifies odd a b len q more src dest packet long bytes =
    let x : ℕ = without odd a b len q more src dest packet long bytes in
    rw (udp_chksum-with_header odd a b len q more src dest packet long bytes 0 (omega arith)) (
      udp_chksum-with_header odd a b len q more src dest packet long bytes
        (sent_chksum (65535 - reduce (x + 0))) (sent_le (reduce (x + 0)))
      ∙ ap (λ n. 65535 - reduce (x + sent_chksum (65535 - reduce n))) {x = x + 0} {y = x}
          (omega arith)
      ∙ filled_in x)
