-- ===== src/Lwip/Checksum/Chain.antt =====
-- The sum over a chain of pbufs: it depends on the bytes of the chain only.
use libn2t.Common.{
  ℕ, suc, ◌+◌, ◌*◌, ◌%◌, ◌≡◌, ◌<◌, ◌≤◌, refl, sym, ap, ◌∙◌, inl, inr, Bool, true, false, not, List,
  [], ◌∷◌, ◌++◌, length, length-take, arith, ◌==◌, if◌then◌else◌, u32, Bool-cases,
}
use libn2t.Lwip.Pbuf.{Pbuf, content, IsPacket}
use libn2t.Lwip.Checksum.{fold, swap_bytes, lwip_standard_chksum, used, chain_loop, swap_back}
use libn2t.Lwip.Checksum.Sum.{
  reduce, words, reduce-add, reduce-add_eq, reduce-mul_eq, reduce_le, reduce-wrap, reduce-fold,
  reduce-swap, swap_le, AreBytes, words-cons, lwip_standard_chksum_lem,
}

-- A sum of words that begin in the other half of a word.
abbrev pub shifted : Bool → ℕ → ℕ
shifted odd x = if odd then x * 256 else x

shifted_eq :
    (odd : Bool) (x y : ℕ) → reduce x ≡ reduce y → reduce (shifted odd x) ≡ reduce (shifted odd y)
shifted_eq true x y e = reduce-mul_eq x y e
shifted_eq false x y e = e

abbrev pub is_odd : ℕ → Bool
is_odd n = not (n % 2 == 0)

is_odd-suc-suc : (n : ℕ) → is_odd (suc (suc n)) ≡ is_odd n
is_odd-suc-suc n = ground arith

pub words-append :
    (xs ys : List ℕ)
    → reduce (words (xs ++ ys)) ≡ reduce (words xs + shifted (is_odd (length xs)) (words ys))
words-append [] ys = ap reduce {x = words ys} {y = 0 + words ys} (omega arith)
words-append (a ∷ []) ys =
    words-cons a ys ∙ ap reduce {x = words ys * 256 + a} {y = a + words ys * 256} (omega arith)
words-append (a ∷ b ∷ rest) ys =
    let tail : ℕ = shifted (is_odd (length rest)) (words ys) in
    ap reduce {x = a + b * 256 + words (rest ++ ys)} {y = words (rest ++ ys) + (a + b * 256)}
      (omega arith)
    ∙ reduce-add_eq (words (rest ++ ys)) (words rest + tail) (a + b * 256) (words-append rest ys)
    ∙ ap reduce {x = words rest + tail + (a + b * 256)} {y = a + b * 256 + words rest + tail}
        (omega arith)
    ∙ ap (λ o. reduce (a + b * 256 + words rest + shifted o (words ys)))
        (sym (is_odd-suc-suc (length rest)))

pub AreBytes-append : (xs ys : List ℕ) → AreBytes (xs ++ ys) → AreBytes xs × AreBytes ys
AreBytes-append [] ys h = (tt, h)
AreBytes-append (x ∷ xs) ys h =
    ((h.0, (AreBytes-append xs ys h.1).0), (AreBytes-append xs ys h.1).1)

-- One pbuf is added to a sum of 16 bits.
module _ (odd : Pbuf → Bool) (q : Pbuf) (acc : ℕ) (bytes : AreBytes (used q))
    (small : length (used q) < 65536) (low : acc ≤ 65535) where
  added : ℕ
  added = fold (u32 (acc + lwip_standard_chksum (odd q) (used q)))

  exact : lwip_standard_chksum (odd q) (used q) ≡ reduce (words (used q))
  exact = lwip_standard_chksum_lem (odd q) (used q) bytes (omega (arith, small))

  added_le : added ≤ 65535
  unfolding added
  added_le = omega (arith, exact, reduce_le (words (used q)))

  added-reduce : reduce added ≡ reduce (acc + words (used q))
  unfolding added
  added-reduce =
      reduce-fold (u32 (acc + lwip_standard_chksum (odd q) (used q)))
      ∙ ap reduce {x = u32 (acc + lwip_standard_chksum (odd q) (used q))}
          {y = reduce (words (used q)) + acc} (omega (arith, exact, reduce_le (words (used q))))
      ∙ reduce-add (words (used q)) acc
      ∙ ap reduce {x = words (used q) + acc} {y = acc + words (used q)} (omega arith)

-- A pbuf of an even and of an odd length, in sums: s is the sum with it, w what the words of it and
-- of the rest are together.
module _ (swapped : Bool) (s acc mine others w : ℕ)
    (with_mine : reduce s ≡ reduce (acc + mine)) where
  even_step :
      reduce w ≡ reduce (mine + others)
      → reduce (shifted swapped (s + others)) ≡ reduce (shifted swapped (acc + w))
  even_step e = shifted_eq swapped (s + others) (acc + w) (
      reduce-add_eq s (acc + mine) others with_mine
      ∙ ap reduce {x = acc + mine + others} {y = mine + others + acc} (omega arith)
      ∙ sym (reduce-add_eq w (mine + others) acc e)
      ∙ ap reduce {x = w + acc} {y = acc + w} (omega arith))

  low_swap : s ≤ 65535 → reduce (swap_bytes s + others) ≡ reduce ((acc + mine) * 256 + others)
  low_swap low =
      reduce-add_eq (swap_bytes s) ((acc + mine) * 256) others
        (reduce-swap s low ∙ reduce-mul_eq s (acc + mine) with_mine)

  same_sum :
      reduce w ≡ reduce (mine + others * 256)
      → reduce (acc + mine + others * 256) ≡ reduce (acc + w)
  same_sum e =
      ap reduce {x = acc + mine + others * 256} {y = mine + others * 256 + acc} (omega arith)
      ∙ sym (reduce-add_eq w (mine + others * 256) acc e)
      ∙ ap reduce {x = w + acc} {y = acc + w} (omega arith)

  odd_step :
      s ≤ 65535
      → reduce w ≡ reduce (mine + others * 256)
      → reduce (shifted (not swapped) (swap_bytes s + others)) ≡ reduce (shifted swapped (acc + w))
  odd_step low e =
      elim swapped
        as (λ b. reduce (shifted (not b) (swap_bytes s + others)) ≡ reduce (shifted b (acc + w))) [
          | false ↦
              reduce-mul_eq (swap_bytes s + others) ((acc + mine) * 256 + others) (low_swap low)
              ∙ ap reduce {x = ((acc + mine) * 256 + others) * 256}
                  {y = (acc + mine) * 65536 + others * 256} (omega arith)
              ∙ reduce-wrap (acc + mine) (others * 256)
              ∙ same_sum e
          | true ↦
              low_swap low
              ∙ ap reduce {x = (acc + mine) * 256 + others} {y = others + (acc + mine) * 256}
                  (omega arith)
              ∙ sym (reduce-wrap others ((acc + mine) * 256))
              ∙ ap reduce {x = others * 65536 + (acc + mine) * 256}
                  {y = (acc + mine + others * 256) * 256} (omega arith)
              ∙ reduce-mul_eq (acc + mine + others * 256) (acc + w) (same_sum e)
        ]

-- The bytes of the chain are added, in the half of a word at which the chain stands.
pub chain_loop_lem :
    (odd : Pbuf → Bool) (swapped : Bool) (acc : ℕ) (p : List Pbuf)
    → IsPacket p
    → AreBytes (content p)
    → acc ≤ 65535
    → (swap_back (chain_loop odd swapped acc p) ≤ 65535)
      × (reduce (swap_back (chain_loop odd swapped acc p))
          ≡ reduce (shifted swapped (acc + words (content p))))
unfolding chain_loop content added
chain_loop_lem odd true acc [] packet bytes low = (
  omega arith,
  reduce-swap acc low ∙ ap reduce {x = acc * 256} {y = (acc + 0) * 256} (omega arith),
)
chain_loop_lem odd false acc [] packet bytes low =
    (low, ap reduce {x = acc} {y = acc + 0} (omega arith))
chain_loop_lem odd swapped acc (q ∷ next) packet bytes low =
    let (mine, others) = AreBytes-append (used q) (content next) bytes in
    let len : length (used q) ≡ q.len = length-take q.len q.payload (packet.2) in
    let small : length (used q) < 65536 = omega (arith, len, packet.0, packet.1) in
    let both = words-append (used q) (content next) in
    let sum = added odd q acc mine small low in
    let with_mine = added-reduce odd q acc mine small low in
    let sum_le = added_le odd q acc mine small low in
    elim (Bool-cases (q.len % 2 == 0)) [
      | inl even ↦
          let (fits, ih) = chain_loop_lem odd swapped sum next packet.4 others sum_le in
          rw (even, chain_loop)
            (
              fits,
              ih
                  ∙ even_step swapped sum acc (words (used q)) (words (content next))
                      (words (used q ++ content next)) with_mine
                      (both
                        ∙ ap
                            (λ n.
                              reduce (words (used q) + shifted (is_odd n) (words (content next))))
                            len
                        ∙ rw even refl),
            )
      | inr uneven ↦
          let (fits, ih) =
            chain_loop_lem odd (not swapped) (swap_bytes sum) next packet.4 others (swap_le sum) in
          rw (uneven, chain_loop)
            (
              fits,
              ih
                  ∙ odd_step swapped sum acc (words (used q)) (words (content next))
                      (words (used q ++ content next)) with_mine sum_le
                      (both
                        ∙ ap
                            (λ n.
                              reduce (words (used q) + shifted (is_odd n) (words (content next))))
                            len
                        ∙ rw uneven refl),
            )
    ]
