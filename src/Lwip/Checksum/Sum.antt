-- ===== src/Lwip/Checksum/Sum.antt =====
-- The sum over one piece of memory: the one's complement sum of its words, wherever it lies.
use libn2t.Common.{
  ℕ, ◌+◌, ◌-◌, ◌*◌, ◌/◌, ◌%◌, ◌≡◌, ◌<◌, ◌≤◌, refl, sym, ap, ◌∙◌, Bool, true, false, List, [], ◌∷◌,
  length, arith, All, ◌==◌, if◌then◌else◌, u16, u32,
}
use libn2t.Lwip.Checksum.{fold, swap_bytes, add_words, last_byte, lwip_standard_chksum}

-- The one's complement form of a sum: 0 for no sum, and otherwise from 1 to 65535.
unfoldable pub reduce : ℕ → ℕ
reduce x = if x == 0 then 0 else (x - 1) % 65535 + 1

-- The sum of the words of some bytes, of which the first is the low one.
abbrev pub words : List ℕ → ℕ
words [] = 0
words (a ∷ []) = a
words (a ∷ b ∷ rest) = a + b * 256 + words rest

pub reduce-add : (x y : ℕ) → reduce (reduce x + y) ≡ reduce (x + y)
unfolding reduce
reduce-add x y = ground arith

pub reduce-mul : (x : ℕ) → reduce (reduce x * 256) ≡ reduce (x * 256)
unfolding reduce
reduce-mul x = ground arith

pub reduce-add_eq : (x y z : ℕ) → reduce x ≡ reduce y → reduce (x + z) ≡ reduce (y + z)
reduce-add_eq x y z e = sym (reduce-add x z) ∙ ap (λ r. reduce (r + z)) e ∙ reduce-add y z

pub reduce-mul_eq : (x y : ℕ) → reduce x ≡ reduce y → reduce (x * 256) ≡ reduce (y * 256)
reduce-mul_eq x y e = sym (reduce-mul x) ∙ ap (λ r. reduce (r * 256)) e ∙ reduce-mul y

pub reduce_le : (x : ℕ) → reduce x ≤ 65535
unfolding reduce
reduce_le x = ground arith

pub reduce-small : (x : ℕ) → x ≤ 65535 → reduce x ≡ x
unfolding reduce
reduce-small x h = ground arith

pub reduce-wrap : (x y : ℕ) → reduce (x * 65536 + y) ≡ reduce (x + y)
unfolding reduce
reduce-wrap x y = ground arith

pub reduce-fold : (x : ℕ) → reduce (fold x) ≡ reduce x
reduce-fold x =
    ap reduce {x = fold x} {y = x / 65536 + x % 65536} refl
    ∙ sym (reduce-wrap (x / 65536) (x % 65536))
    ∙ ap reduce {x = x / 65536 * 65536 + x % 65536} {y = x} (omega arith)

pub reduce-swap : (x : ℕ) → x ≤ 65535 → reduce (swap_bytes x) ≡ reduce (x * 256)
reduce-swap x h =
    ap reduce {x = swap_bytes x} {y = x / 256 + x % 256 * 256} (omega arith)
    ∙ sym (reduce-wrap (x / 256) (x % 256 * 256))
    ∙ ap reduce {x = x / 256 * 65536 + x % 256 * 256} {y = x * 256} (omega arith)

pub fold_le : (x : ℕ) → x ≤ 131071 → fold x ≤ 65535 + 1
fold_le x h = omega arith

pub fold-fold : (x : ℕ) → x < 4294967296 → fold (fold x) ≡ reduce x
fold-fold x h =
    sym (reduce-small (fold (fold x)) (omega arith)) ∙ reduce-fold (fold x) ∙ reduce-fold x

pub swap_le : (x : ℕ) → swap_bytes x ≤ 65535
swap_le x = omega arith

abbrev pub AreBytes : List ℕ → Type 0
AreBytes bytes = All (λ b. b < 256) bytes

words_le : (bytes : List ℕ) → AreBytes bytes → words bytes ≤ 32768 * length bytes
words_le [] h = omega arith
words_le (a ∷ []) h = omega (arith, h.0)
words_le (a ∷ b ∷ rest) h = omega (arith, h.0, h.1.0, words_le rest h.1.1)

add_words_lem :
    (sum : ℕ) (bytes : List ℕ)
    → sum + words bytes < 4294967296
    → add_words sum bytes + last_byte bytes ≡ sum + words bytes
unfolding add_words
add_words_lem sum [] h = omega arith
add_words_lem sum (a ∷ []) h = refl
add_words_lem sum (a ∷ b ∷ rest) h =
    let exact : u32 (sum + (a + b * 256)) ≡ sum + (a + b * 256) = omega (arith, h) in
    rw exact (add_words_lem (sum + (a + b * 256)) rest (omega (arith, h)) ∙ omega arith)

-- A byte in front moves each of the others to the other half of a word.
pub words-cons : (a : ℕ) (rest : List ℕ) → reduce (words (a ∷ rest)) ≡ reduce (words rest * 256 + a)
words-cons a [] = ap reduce {x = a} {y = 0 * 256 + a} (omega arith)
words-cons a (b ∷ []) = ap reduce {x = a + b * 256 + 0} {y = b * 256 + a} (omega arith)
words-cons a (b ∷ c ∷ rest) =
    ap reduce {x = a + b * 256 + words (c ∷ rest)} {y = words (c ∷ rest) + (a + b * 256)}
      (omega arith)
    ∙ reduce-add_eq (words (c ∷ rest)) (words rest * 256 + c) (a + b * 256) (words-cons c rest)
    ∙ ap reduce {x = words rest * 256 + c + (a + b * 256)}
        {y = c + (words rest * 256 + a + b * 256)} (omega arith)
    ∙ sym (reduce-wrap c (words rest * 256 + a + b * 256))
    ∙ ap reduce {x = c * 65536 + (words rest * 256 + a + b * 256)}
        {y = (b + c * 256 + words rest) * 256 + a} (omega arith)

pub folded : (x : ℕ) → x < 4294967296 → fold (fold (u32 x)) ≡ reduce x
folded x h = ap (λ n. fold (fold n)) {x = u32 x} {y = x} (omega (arith, h)) ∙ fold-fold x h

-- The end of the sum, at an even and at an odd address.
even_end : (x : ℕ) → x < 4294967296 → u16 (fold (fold (u32 x))) ≡ reduce x
even_end x h = ap u16 (folded x h) ∙ omega (arith, reduce_le x)

odd_end : (x : ℕ) → x < 4294967296 → u16 (swap_bytes (fold (fold (u32 x)))) ≡ reduce (x * 256)
odd_end x h =
    ap (λ n. u16 (swap_bytes n)) (folded x h)
    ∙ ap u16 {x = swap_bytes (reduce x)} {y = reduce (swap_bytes (reduce x))}
        (sym (reduce-small (swap_bytes (reduce x)) (swap_le (reduce x))))
    ∙ omega (arith, reduce_le (swap_bytes (reduce x)))
    ∙ reduce-swap (reduce x) (reduce_le x)
    ∙ reduce-mul x

-- Wherever a piece of memory of fewer than 2 ^ 17 - 1 bytes lies, its checksum is the one's
-- complement sum of its words.
pub lwip_standard_chksum_lem :
    (odd : Bool) (bytes : List ℕ)
    → AreBytes bytes
    → length bytes < 131071
    → lwip_standard_chksum odd bytes ≡ reduce (words bytes)
unfolding lwip_standard_chksum
lwip_standard_chksum_lem false bytes h k =
    ap (λ n. u16 (fold (fold (u32 n)))) {x = add_words 0 bytes + last_byte bytes} {y = words bytes}
      (add_words_lem 0 bytes (omega (arith, words_le bytes h)) ∙ omega arith)
    ∙ even_end (words bytes) (omega (arith, words_le bytes h))
lwip_standard_chksum_lem true [] h k = unfold reduce in refl
lwip_standard_chksum_lem true (a ∷ rest) h k =
    let total = add_words_lem 0 rest (omega (arith, words_le rest h.1)) in
    ap (λ n. u16 (swap_bytes (fold (fold (u32 n)))))
      {x = add_words 0 rest + (a * 256 + last_byte rest)} {y = words rest + a * 256}
      (omega (arith, total))
    ∙ odd_end (words rest + a * 256) (omega (arith, words_le rest h.1, h.0))
    ∙ ap reduce {x = (words rest + a * 256) * 256} {y = a * 65536 + words rest * 256} (omega arith)
    ∙ reduce-wrap a (words rest * 256)
    ∙ ap reduce {x = a + words rest * 256} {y = words rest * 256 + a} (omega arith)
    ∙ sym (words-cons a rest)
