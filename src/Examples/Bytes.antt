-- ===== src/Examples/Bytes.antt =====
-- A decision whether the numbers of a list are bytes.
use libn2t.Common.{ℕ, ◌≡◌, Bool, true, ◌&&◌, List, [], ◌∷◌, ltb, arith}
use libn2t.Lwip.Checksum.Sum.{AreBytes}

abbrev pub are_bytes : List ℕ → Bool
are_bytes [] = true
are_bytes (b ∷ bytes) = ltb b 256 && are_bytes bytes

first_and : (a b : Bool) → (a && b) ≡ true → (a ≡ true) × (b ≡ true)
first_and a b e = ground arith

pub are_bytes-AreBytes : (bytes : List ℕ) → are_bytes bytes ≡ true → AreBytes bytes
are_bytes-AreBytes [] e = tt
are_bytes-AreBytes (b ∷ bytes) e =
    let (small, others) = first_and (ltb b 256) (are_bytes bytes) e in
    (ground arith, are_bytes-AreBytes bytes others)
