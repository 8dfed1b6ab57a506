-- ===== src/Lwip/Pbuf/Alloc.antt =====
-- Chains from the pool: what `pbuf_alloc` gives is a packet, and it is given if there are elements.
use libn2t.Common.{
  ℕ, ◌+◌, ◌-◌, ◌*◌, ◌≡◌, ◌≢◌, ◌<◌, ◌≤◌, sym, inl, inr, Option-cases, List, [], ◌∷◌, none, some,
  length, length-drop, All, arith,
}
use libn2t.Lwip.Pbuf.{
  Pbuf, pool, Memory, mem_align_size, alloc_pool, pbuf_init_alloced_pbuf, pbuf_alloc, total,
  IsPacket,
}

-- Each element of the pool has the size that is set for it.
abbrev pub AreElements : List (List ℕ) → Type 0
AreElements blocks = All (λ b. length b ≡ 1516) blocks

alloc_pool-IsPacket :
    (offset rem_len : ℕ) (blocks : List (List ℕ)) (p : List Pbuf) (left : List (List ℕ))
    → mem_align_size offset < 1516
    → rem_len < 65536
    → AreElements blocks
    → alloc_pool offset rem_len blocks ≡ some (p, left)
    → IsPacket p × (total p ≡ rem_len) × (p ≢ [])
unfolding alloc_pool total pbuf_init_alloced_pbuf
alloc_pool-IsPacket offset rem_len [] p left o r a e = ground arith
alloc_pool-IsPacket offset rem_len (block ∷ blocks) p left o r a e =
    elim (Option-cases (alloc_pool 0 (rem_len - (1516 - mem_align_size offset)) blocks)) [
      | inl none_left ↦ ground (arith, length-drop (mem_align_size offset) block)
      | inr ((next, left'), more) ↦ ground (
        arith,
        length-drop (mem_align_size offset) block,
        alloc_pool-IsPacket 0 (rem_len - (1516 - mem_align_size offset)) blocks next left'
            (omega arith) (omega arith) a.1 more,
      )
    ]

alloc_pool-ne-none :
    (offset rem_len : ℕ) (blocks : List (List ℕ))
    → mem_align_size offset < 1516
    → rem_len < 65536
    → mem_align_size offset + rem_len < 1516 * length blocks
    → alloc_pool offset rem_len blocks ≢ none
unfolding alloc_pool
alloc_pool-ne-none offset rem_len [] o r k = absurd (omega arith)
alloc_pool-ne-none offset rem_len (block ∷ blocks) o r k =
    ground (arith, alloc_pool-ne-none 0 (rem_len - (1516 - mem_align_size offset)) blocks)

-- An allocation from the pool, of a length of 16 bits and with room for headers that one element
-- has, gives a packet of that length, if the elements are of the size set for them; and it gives
-- one whenever the elements left have more bytes together than are asked for.
pub pbuf_alloc_lem :
    (offset len : ℕ) (m : Memory)
    → mem_align_size offset < 1516
    → len < 65536
    → AreElements m.pool
    → ((p : List Pbuf) (left : Memory)
        → pbuf_alloc offset len pool m ≡ some (p, left)
        → IsPacket p × (total p ≡ len) × (p ≢ []))
      × (mem_align_size offset + len < 1516 * length m.pool → pbuf_alloc offset len pool m ≢ none)
unfolding pbuf_alloc
pbuf_alloc_lem offset len m o r a = elim (Option-cases (alloc_pool offset len m.pool)) [
  | inl e ↦ (λ p left h. ground arith, λ k. absurd (alloc_pool-ne-none offset len m.pool o r k e))
  | inr ((q, blocks), e) ↦ (
    λ p left h.
        let same : q ≡ p = ground arith in
        rw (sym same) (alloc_pool-IsPacket offset len m.pool q blocks o r a e),
    λ k. ground arith,
  )
]

-- The memory in use of the first pbuf.
abbrev pub first_len : List Pbuf → ℕ
first_len [] = 0
first_len (p ∷ next) = p.len

-- The first element of the pool takes as many bytes as it has.
pub pbuf_alloc-first_len :
    (len k : ℕ) (m : Memory) (p : List Pbuf) (left : Memory)
    → pbuf_alloc 0 len pool m ≡ some (p, left)
    → len < 65536
    → k ≤ len
    → k ≤ 1516
    → k ≤ first_len p
unfolding pbuf_alloc
pbuf_alloc-first_len len k m p left e small h h' = elim (Option-cases (alloc_pool 0 len m.pool)) [
  | inl failed ↦ absurd (ground arith)
  | inr ((q, blocks), given) ↦
      let same : q ≡ p = ground arith in rw (sym same) (alloc_pool-first_len m.pool q blocks given)
]
  where
    alloc_pool-first_len :
        (blocks : List (List ℕ)) (q : List Pbuf) (left : List (List ℕ))
        → alloc_pool 0 len blocks ≡ some (q, left)
        → k ≤ first_len q
    alloc_pool-first_len [] q left e = unfold alloc_pool in ground arith
    alloc_pool-first_len (block ∷ blocks) q left e =
        elim (Option-cases (alloc_pool 0 (len - 1516) blocks)) [
          | inl none_left ↦ unfold alloc_pool pbuf_init_alloced_pbuf in ground arith
          | inr ((next, left'), more) ↦ unfold alloc_pool pbuf_init_alloced_pbuf in ground arith
        ]

abbrev pub first_front : List Pbuf → List ℕ
first_front [] = []
first_front (p ∷ next) = p.front

abbrev pub first_ref : List Pbuf → ℕ
first_ref [] = 0
first_ref (p ∷ next) = p.ref

-- Without an offset, there is no room in front of the first pbuf, and it has one reference.
pub pbuf_alloc-first_front :
    (len : ℕ) (m : Memory) (p : List Pbuf) (left : Memory)
    → pbuf_alloc 0 len pool m ≡ some (p, left)
    → (first_front p ≡ []) × (first_ref p ≡ 1)
unfolding pbuf_alloc
pbuf_alloc-first_front len m p left e = elim (Option-cases (alloc_pool 0 len m.pool)) [
  | inl failed ↦ absurd (ground arith)
  | inr ((q, blocks), given) ↦
      let same : q ≡ p = ground arith in
      rw (sym same) (alloc_pool-first_front m.pool q blocks given)
]
  where
    alloc_pool-first_front :
        (blocks : List (List ℕ)) (q : List Pbuf) (left : List (List ℕ))
        → alloc_pool 0 len blocks ≡ some (q, left)
        → (first_front q ≡ []) × (first_ref q ≡ 1)
    alloc_pool-first_front [] q left e = unfold alloc_pool in ground arith
    alloc_pool-first_front (block ∷ blocks) q left e =
        elim (Option-cases (alloc_pool 0 (len - 1516) blocks)) [
          | inl none_left ↦ unfold alloc_pool pbuf_init_alloced_pbuf in ground arith
          | inr ((next, left'), more) ↦ unfold alloc_pool pbuf_init_alloced_pbuf in ground arith
        ]
