-- ===== src/Examples/Packets.antt =====
-- Examples of src/lwip/src/core/pbuf.c.
use libn2t.Common.{ℕ, zero, suc, ◌≡◌, ◌≢◌, refl, List, [], ◌∷◌, none, some, arith, length}
use libn2t.Lwip.Pbuf.{Pbuf, Memory, total, IsPacket}
use libn2t.Lwip.Pbuf.Alloc.{AreElements}
use libn2t.Utils.Pbuf.{pbuf_to_str, str_to_pbuf}
use libn2t.Utils.Pbuf.Pool.{pool_api, str_to_pbuf-pool}
use libn2t.Examples.Data.{block}

-- A packet of five bytes in two pbufs.
abbrev first : Pbuf
first = record (block (1 ∷ 2 ∷ [])) { tot_len = 5 }

abbrev packet : List Pbuf
packet = first ∷ block (3 ∷ 4 ∷ 5 ∷ []) ∷ []

packet-IsPacket : IsPacket packet
unfolding total
packet-IsPacket = omega arith

packet-ne-nil : packet ≢ []
packet-ne-nil e = ground arith

unfoldable pub zeros : ℕ → List ℕ
zeros zero = []
zeros (suc n) = 0 ∷ zeros n

pub length-zeros : (n : ℕ) → length (zeros n) ≡ n
unfolding zeros
length-zeros zero = refl
length-zeros (suc n) = omega (arith, length-zeros n)

-- Two elements are left in the pool.
abbrev pub memory : Memory
memory = record { pool = zeros 1516 ∷ zeros 1516 ∷ []; references = 1; heap = λ n. none }

pub memory-AreElements : AreElements memory.pool
memory-AreElements = (length-zeros 1516, (length-zeros 1516, tt))

str_to_pbuf-pool_example :
    (p : List Pbuf) × (str_to_pbuf (pool_api memory) (1 ∷ 2 ∷ 3 ∷ []) ≡ some p)
    × (pbuf_to_str p ≡ 1 ∷ 2 ∷ 3 ∷ [])
str_to_pbuf-pool_example =
    str_to_pbuf-pool memory memory-AreElements (1 ∷ 2 ∷ 3 ∷ []) (omega arith) (omega arith)
