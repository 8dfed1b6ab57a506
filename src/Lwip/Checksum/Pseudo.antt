-- ===== src/Lwip/Checksum/Pseudo.antt =====
-- The checksum with a pseudo header, as RFC 768, RFC 1071 and RFC 8200 define it.
use libn2t.Common.{
  ℕ, ◌+◌, ◌-◌, ◌*◌, ◌/◌, ◌%◌, ◌≡◌, ◌<◌, ◌≤◌, sym, ap, ◌∙◌, Bool, true, false, List, [], ◌∷◌, ◌++◌,
  arith, u32, Bool-cases, inl, inr, if◌then◌else◌,
}
use libn2t.Lwip.Addresses.{IpAddr, is_v6}
use libn2t.Lwip.Pbuf.{Pbuf, content, IsPacket}
use libn2t.Lwip.Checksum.{
  fold, swap_bytes, chain_loop, swap_back, inet_cksum_pseudo_base, halves_v4, word_v6, halves_v6,
  inet_chksum_pseudo, ip6_chksum_pseudo, ip_chksum_pseudo,
}
use libn2t.Lwip.Checksum.Sum.{
  reduce, words, reduce-add, reduce-add_eq, reduce_le, folded, swap_le, AreBytes,
}
use libn2t.Lwip.Checksum.Chain.{chain_loop_lem}

abbrev pub be32 : ℕ → List ℕ
be32 n = n / 16777216 % 256 ∷ n / 65536 % 256 ∷ n / 256 % 256 ∷ n % 256 ∷ []

abbrev pub bytes_v6 : ℕ → List ℕ
bytes_v6 a =
    be32 (a / 79228162514264337593543950336 % 4294967296)
    ++ (be32 (a / 18446744073709551616 % 4294967296)
        ++ (be32 (a / 4294967296 % 4294967296) ++ be32 (a / 1 % 4294967296)))

-- The bytes of an address.
abbrev pub address_bytes : IpAddr → List ℕ
address_bytes a = if is_v6 a then bytes_v6 a.addr else be32 a.addr

-- The two pseudo headers: the addresses, the length and the protocol.
abbrev pub pseudo_header : Bool → ℕ → ℕ → ℕ → ℕ → List ℕ
pseudo_header false proto len src dest =
    be32 src ++ (be32 dest ++ (0 ∷ proto ∷ len / 256 % 256 ∷ len % 256 ∷ []))
pseudo_header true proto len src dest =
    bytes_v6 src ++ (bytes_v6 dest ++ (be32 len ++ (0 ∷ 0 ∷ 0 ∷ proto ∷ [])))

words-be32 : (a : ℕ) (rest : List ℕ) → words (be32 a ++ rest) ≡ halves_v4 a + words rest
words-be32 a rest = omega arith

words_four :
    (a b c d : ℕ) (rest : List ℕ)
    → words (be32 a ++ (be32 b ++ (be32 c ++ (be32 d ++ rest))))
      ≡ halves_v4 a + (halves_v4 b + (halves_v4 c + (halves_v4 d + words rest)))
words_four a b c d rest =
    words-be32 a (be32 b ++ (be32 c ++ (be32 d ++ rest)))
    ∙ ap (λ n. halves_v4 a + n)
        (words-be32 b (be32 c ++ (be32 d ++ rest))
          ∙ ap (λ n. halves_v4 b + n)
              (words-be32 c (be32 d ++ rest) ∙ ap (λ n. halves_v4 c + n) (words-be32 d rest)))

regroup : (a b c d e : ℕ) → a + (b + (c + (d + e))) ≡ a + b + c + d + e
regroup a b c d e = omega arith

words-bytes_v6 : (a : ℕ) (rest : List ℕ) → words (bytes_v6 a ++ rest) ≡ halves_v6 a + words rest
words-bytes_v6 a rest =
    words_four (a / 79228162514264337593543950336 % 4294967296)
      (a / 18446744073709551616 % 4294967296) (a / 4294967296 % 4294967296) (a / 1 % 4294967296)
      rest
    ∙ regroup (word_v6 a 79228162514264337593543950336) (word_v6 a 18446744073709551616)
        (word_v6 a 4294967296) (word_v6 a 1) (words rest)

end_v4 :
    (a b proto len w : ℕ)
    → proto < 256
    → len < 65536
    → a + (b + (0 + proto * 256 + (len / 256 % 256 + len % 256 * 256 + w)))
      ≡ a + b + (swap_bytes proto + swap_bytes len + w)
end_v4 a b proto len w p l = omega (arith, p, l)

end_v6 :
    (a b proto len w : ℕ)
    → proto < 256
    → len < 65536
    → a
        + (b
            + (len / 16777216 % 256
                + len / 65536 % 256 * 256
                + (len / 256 % 256 + len % 256 * 256 + (0 + 0 * 256 + (0 + proto * 256 + w)))))
      ≡ a + b + (swap_bytes proto + swap_bytes len + w)
end_v6 a b proto len w p l = omega (arith, p, l)

-- The sum of the pseudo headers as the code takes it, from the addresses and then the rest.
pub words-pseudo_v4 :
    (proto len src dest : ℕ) (rest : List ℕ)
    → proto < 256
    → len < 65536
    → words (pseudo_header false proto len src dest ++ rest)
      ≡ halves_v4 src + halves_v4 dest + (swap_bytes proto + swap_bytes len + words rest)
words-pseudo_v4 proto len src dest rest p l =
    words-be32 src (be32 dest ++ (0 ∷ proto ∷ len / 256 % 256 ∷ len % 256 ∷ rest))
    ∙ ap (λ n. halves_v4 src + n) (words-be32 dest (0 ∷ proto ∷ len / 256 % 256 ∷ len % 256 ∷ rest))
    ∙ end_v4 (halves_v4 src) (halves_v4 dest) proto len (words rest) p l

pub words-pseudo_v6 :
    (proto len src dest : ℕ) (rest : List ℕ)
    → proto < 256
    → len < 65536
    → words (pseudo_header true proto len src dest ++ rest)
      ≡ halves_v6 src + halves_v6 dest + (swap_bytes proto + swap_bytes len + words rest)
words-pseudo_v6 proto len src dest rest p l =
    words-bytes_v6 src (bytes_v6 dest ++ (be32 len ++ (0 ∷ 0 ∷ 0 ∷ proto ∷ rest)))
    ∙ ap (λ n. halves_v6 src + n) (words-bytes_v6 dest (be32 len ++ (0 ∷ 0 ∷ 0 ∷ proto ∷ rest)))
    ∙ end_v6 (halves_v6 src) (halves_v6 dest) proto len (words rest) p l

halves_le : (a : ℕ) → halves_v4 a ≤ 131070
halves_le a = omega arith

base_end :
    (t a b acc w : ℕ)
    → t ≤ 65535
    → a ≤ 65535
    → b ≤ 65535
    → reduce t ≡ reduce (acc + w)
    → 65535 - fold (fold (u32 (u32 (t + a) + b))) % 65536 ≡ 65535 - reduce (acc + (a + b + w))
base_end t a b acc w ht ha hb e =
    ap (λ n. 65535 - n % 65536)
      (ap (λ n. fold (fold (u32 (n + b)))) {x = u32 (t + a)} {y = t + a} (omega (arith, ht, ha))
        ∙ folded (t + a + b) (omega (arith, ht, ha, hb))
        ∙ ap reduce {x = t + a + b} {y = t + (a + b)} (omega arith)
        ∙ reduce-add_eq t (acc + w) (a + b) e
        ∙ ap reduce {x = acc + w + (a + b)} {y = acc + (a + b + w)} (omega arith))
    ∙ omega (arith, reduce_le (acc + (a + b + w)))

-- What the common part makes of a sum of 16 bits.
inet_cksum_pseudo_base_lem :
    (odd : Pbuf → Bool) (p : List Pbuf) (proto len acc : ℕ)
    → IsPacket p
    → AreBytes (content p)
    → acc ≤ 65535
    → inet_cksum_pseudo_base odd p proto len acc
      ≡ 65535 - reduce (acc + (swap_bytes proto + swap_bytes len + words (content p)))
unfolding inet_cksum_pseudo_base
inet_cksum_pseudo_base_lem odd p proto len acc packet bytes low =
    let (fits, sum) = chain_loop_lem odd false acc p packet bytes low in
    base_end (swap_back (chain_loop odd false acc p)) (swap_bytes proto) (swap_bytes len) acc
      (words (content p)) fits (swap_le proto) (swap_le len) sum

-- The sum that is given to the common part.
pseudo_end :
    (sum a : ℕ)
    → sum < 4294967296
    → 65535 - reduce (fold (fold (u32 sum)) + a) ≡ 65535 - reduce (sum + a)
pseudo_end sum a h =
    ap (λ n. 65535 - n) (ap (λ n. reduce (n + a)) (folded sum h) ∙ reduce-add sum a)

start_le : (sum : ℕ) → sum < 4294967296 → fold (fold (u32 sum)) ≤ 65535
start_le sum h = omega (arith, folded sum h, reduce_le sum)

halves_v6_le : (a : ℕ) → halves_v6 a ≤ 524280
halves_v6_le a = omega (
  arith,
  halves_le (a / 79228162514264337593543950336 % 4294967296),
  halves_le (a / 18446744073709551616 % 4294967296),
  halves_le (a / 4294967296 % 4294967296),
  halves_le (a / 1 % 4294967296),
)

-- The checksum of a packet, wherever its pbufs lie and however its bytes are spread over them, is
-- the complement of the one's complement sum of the pseudo header and then the bytes of the packet.
pub ip_chksum_pseudo_lem :
    (odd : Pbuf → Bool) (p : List Pbuf) (proto len : ℕ) (src dest : IpAddr)
    → IsPacket p
    → AreBytes (content p)
    → proto < 256
    → len < 65536
    → ip_chksum_pseudo odd p proto len src dest
      ≡ 65535
        - reduce (words (pseudo_header (is_v6 dest) proto len src.addr dest.addr ++ content p))
unfolding ip_chksum_pseudo inet_chksum_pseudo ip6_chksum_pseudo
ip_chksum_pseudo_lem odd p proto len src dest packet bytes hp hl = elim (Bool-cases (is_v6 dest)) [
  | inl six ↦
      let sum : ℕ = halves_v6 src.addr + halves_v6 dest.addr in
      let low : sum < 4294967296 = omega (arith, halves_v6_le src.addr, halves_v6_le dest.addr) in
      rw six (
        inet_cksum_pseudo_base_lem odd p proto len (fold (fold (u32 sum))) packet bytes
          (start_le sum low)
        ∙ pseudo_end sum (swap_bytes proto + swap_bytes len + words (content p)) low
        ∙ ap (λ n. 65535 - reduce n)
            (sym (words-pseudo_v6 proto len src.addr dest.addr (content p) hp hl)))
  | inr four ↦
      let sum : ℕ = halves_v4 src.addr + halves_v4 dest.addr in
      let low : sum < 4294967296 = omega (arith, halves_le src.addr, halves_le dest.addr) in
      rw four (
        inet_cksum_pseudo_base_lem odd p proto len (fold (fold (u32 sum))) packet bytes
          (start_le sum low)
        ∙ pseudo_end sum (swap_bytes proto + swap_bytes len + words (content p)) low
        ∙ ap (λ n. 65535 - reduce n)
            (sym (words-pseudo_v4 proto len src.addr dest.addr (content p) hp hl)))
]
