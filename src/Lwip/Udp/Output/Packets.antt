-- ===== src/Lwip/Udp/Output/Packets.antt =====
-- What `udp_sendto_if_src` puts out: the bytes of the caller behind a header of UDP.
use libn2t.Common.{
  ℕ, ◌+◌, ◌-◌, ◌≡◌, ◌<◌, ◌≤◌, refl, sym, ==_iff, ap, ◌∙◌, ◌⊎◌, inl, inr, Bool, true, false, not,
  ◌&&◌, List, [], ◌∷◌, ◌++◌, some, arith, length, take, drop, drop-append_ge, take-append_ge,
  length-drop, length-append, length-take, append_assoc, ltb, ◌==◌, u16, Bool-cases,
}
use libn2t.Lwip.Pbuf.{
  Pbuf, ram, Memory, pbuf_init_alloced_pbuf, content, total, IsPacket, alloc_ram, pbuf_alloc,
  free_loop, pbuf_free, pbuf_ref,
}
use libn2t.Lwip.Pbuf.Bytes.Slices.{length-content}
use libn2t.Lwip.Pbuf.Headers.{is_contiguous, move_back, pbuf_add_header}
use libn2t.Lwip.Pbuf.Chains.{cat_loop, pbuf_cat, pbuf_chain}
use libn2t.Lwip.Udp.Output.{add_udp_header, after_output}

-- A packet of two parts, eight bytes at the front of its first pbuf and the bytes of another.
abbrev pub IsRoom : List Pbuf → Pbuf → List Pbuf → Type 0
IsRoom p q more =
    IsPacket (q ∷ more)
    × (8 ≤ q.len)
    × (drop 8 (content (q ∷ more)) ≡ content p)
    × (total (q ∷ more) ≡ total p + 8)

pub drop_eight : (a ys : List ℕ) → length a ≡ 8 → drop 8 (a ++ ys) ≡ ys
drop_eight a ys e =
    drop-append_ge 8 a ys (omega (arith, e))
    ∙ ap (λ k. drop k ys) {x = 8 - length a} {y = 0} (omega (arith, e))

no_bytes : (l : List ℕ) → length l ≡ 0 → [] ≡ l
no_bytes [] e = refl
no_bytes (x ∷ l) e = absurd (omega (arith, e))

-- The eight bytes of a block for a header.
eight : (block : List ℕ) → length block ≡ 64 → length (take 8 (drop 56 block)) ≡ 8
eight block e = length-take 8 (drop 56 block) (omega (arith, e, length-drop 56 block))

-- Eight bytes in front, of which the memory in use is then eight longer.
behind_header :
    (n : ℕ) (a xs ys : List ℕ)
    → length a ≡ 8
    → drop 8 (take (n + 8) (a ++ xs) ++ ys) ≡ take n xs ++ ys
behind_header n a xs ys e =
    ap (λ l. drop 8 (l ++ ys))
      (take-append_ge (n + 8) a xs (omega (arith, e))
        ∙ ap (λ k. a ++ take k xs) {x = n + 8 - length a} {y = n} (omega (arith, e)))
    ∙ ap (drop 8) (append_assoc a (take n xs) ys)
    ∙ drop_eight a (take n xs ++ ys) e

module _ (head : Pbuf) (next : List Pbuf) (packet : IsPacket (head ∷ next))
    (small : total (head ∷ next) + 8 < 65536) where
  pub sizes :
      (head.tot_len ≡ total (head ∷ next))
      × (total (head ∷ next) ≡ head.len + total next)
      × (head.len ≤ length head.payload)
      × (0 < head.ref)
  unfolding total
  sizes = (packet.0, refl, packet.2, packet.3)

  -- The first pbuf has the room.
  moved-IsRoom : 8 ≤ length head.front → IsRoom (head ∷ next) (move_back 8 head) next
  unfolding move_back content total
  moved-IsRoom room =
      let len8 : length (drop (length head.front - 8) head.front) ≡ 8 =
        length-drop (length head.front - 8) head.front ∙ omega arith in
      let exact : u16 (head.len + 8) ≡ head.len + 8 = ground arith in
      (
        (
          ground arith,
          ground arith,
          ground (
            arith,
            len8,
            length-append (drop (length head.front - 8) head.front) head.payload,
            sizes,
          ),
          packet.3,
          packet.4,
        ),
        ground arith,
        ap
              (λ n.
                drop 8 (
                  take n (drop (length head.front - 8) head.front ++ head.payload) ++ content next))
              exact
            ∙ behind_header head.len (drop (length head.front - 8) head.front) head.payload
                (content next) len8,
        ground arith,
      )

  add_header-cases :
      (pbuf_add_header (head ∷ next) 8 ≡ some (true, head ∷ next))
      ⊎ ((8 ≤ length head.front)
          × (pbuf_add_header (head ∷ next) 8 ≡ some (false, move_back 8 head ∷ next)))
  unfolding pbuf_add_header total
  add_header-cases =
      elim (Bool-cases (is_contiguous head.type_internal && not (ltb (length head.front) 8))) [
        | inl roomy ↦ inr (ground arith, ground (arith, sizes))
        | inr none_left ↦ inl (ground (arith, sizes))
      ]

  -- A pbuf for the header alone, which is in front of the others if there are bytes.
  header_pbuf : List ℕ → ℕ → Pbuf
  header_pbuf block tot_len = pbuf_init_alloced_pbuf (take 56 block) (drop 56 block) tot_len 8 ram

  alloc_header :
      (m : Memory) (block : List ℕ)
      → m.heap 64 ≡ some block
      → pbuf_alloc 54 8 ram m ≡ some (header_pbuf block 8 ∷ [], m)
  unfolding pbuf_alloc alloc_ram header_pbuf
  alloc_header m block e = rw e refl

  referenced : Pbuf
  referenced = record head { ref = head.ref + 1 }

  chain_header :
      (block : List ℕ)
      → head.ref < 255
      → pbuf_chain (header_pbuf block 8 ∷ []) (head ∷ next)
        ≡ some (header_pbuf block (8 + total (head ∷ next)) ∷ referenced ∷ next, referenced ∷ next)
  unfolding pbuf_chain pbuf_ref pbuf_cat cat_loop header_pbuf pbuf_init_alloced_pbuf total
      referenced
  chain_header block few = ground (arith, sizes)

  chained-IsRoom :
      (block : List ℕ)
      → length block ≡ 64
      → IsRoom (head ∷ next) (header_pbuf block (8 + total (head ∷ next))) (referenced ∷ next)
  unfolding content total header_pbuf pbuf_init_alloced_pbuf referenced
  chained-IsRoom block len = (
    (
      omega arith,
      omega arith,
      omega (arith, len, length-drop 56 block),
      omega arith,
      (packet.0, packet.1, packet.2, omega arith, packet.4),
    ),
    omega arith,
    drop_eight (take 8 (drop 56 block)) (take head.len head.payload ++ content next)
        (eight block len),
    omega arith,
  )

  single-IsRoom :
      (block : List ℕ)
      → length block ≡ 64
      → total (head ∷ next) ≡ 0
      → IsRoom (head ∷ next) (header_pbuf block 8) []
  unfolding content total header_pbuf pbuf_init_alloced_pbuf referenced
  single-IsRoom block len empty = (
    (refl, omega arith, omega (arith, len, length-drop 56 block), omega arith, tt),
    omega arith,
    drop_eight (take 8 (drop 56 block)) [] (eight block len)
        ∙ no_bytes (content (head ∷ next)) (length-content (head ∷ next) packet ∙ empty),
    omega (arith, empty),
  )

  single-free :
      (block payload : List ℕ)
      → pbuf_free (record (header_pbuf block 8) { payload = payload } ∷ []) ≡ some (1, [])
  unfolding pbuf_free free_loop header_pbuf pbuf_init_alloced_pbuf
  single-free block payload = refl

  chained-free :
      (block payload : List ℕ) (tot_len : ℕ)
      → pbuf_free (record (header_pbuf block tot_len) { payload = payload } ∷ referenced ∷ next)
        ≡ some (1, head ∷ next)
  unfolding pbuf_free free_loop header_pbuf pbuf_init_alloced_pbuf referenced
  chained-free block payload tot_len = ground (arith, sizes)

  header_pbuf-front :
      (block : List ℕ) (tot_len : ℕ)
      → length block ≡ 64
      → ((header_pbuf block tot_len).ref ≡ 1)
        × (40 ≤ length (header_pbuf block tot_len).front)
        × (is_contiguous (header_pbuf block tot_len).type_internal ≡ true)
  unfolding header_pbuf pbuf_init_alloced_pbuf
  header_pbuf-front block tot_len len =
      (refl, omega (arith, len, length-take 56 block (omega (arith, len))), refl)

  -- The packet with room for the header, and what is left of the chain of the caller.
  pub add_udp_header-IsRoom :
      (m : Memory) (block : List ℕ)
      → m.heap 64 ≡ some block
      → length block ≡ 64
      → head.ref < 255
      → (q : Pbuf) × (more : List Pbuf) × (new : Bool) × (add_udp_header (head ∷ next) m
          ≡ some (some (q ∷ more, new, m)))
        × IsRoom (head ∷ next) q more
        × ((payload : List ℕ)
            → (left : List Pbuf) × (after_output
                  (head ∷ next)
                  new
                  (record q { payload = payload } ∷ more)
                ≡ some left))
        × (length head.front < 8
            → (q.ref ≡ 1) × (40 ≤ length q.front) × (is_contiguous q.type_internal ≡ true))
  add_udp_header-IsRoom m block given len few = elim add_header-cases [
    | inr (room, added) ↦ (
      move_back 8 head,
      next,
      false,
      rw (added, add_udp_header) refl,
      moved-IsRoom room,
      λ payload. (_, refl),
      λ few_left. absurd (omega (arith, few_left, room)),
    )
    | inl full ↦ elim (Bool-cases (head.tot_len == 0)) [
      | inl empty ↦ (
        header_pbuf block 8,
        [],
        true,
        rw (full, add_udp_header) (rw (alloc_header m block given) (rw empty refl)),
        single-IsRoom block len (sym sizes.0 ∙ (==_iff head.tot_len 0).0 empty),
        λ payload. (head ∷ next, rw (single-free block payload, after_output) (rw empty refl)),
        λ few_left. header_pbuf-front block 8 len,
      )
      | inr bytes ↦ (
        header_pbuf block (8 + total (head ∷ next)),
        referenced ∷ next,
        true,
        rw (full, add_udp_header)
            (rw (alloc_header m block given) (rw bytes (rw (chain_header block few) refl))),
        chained-IsRoom block len,
        λ payload. (
          head ∷ next,
          rw (chained-free block payload (8 + total (head ∷ next)), after_output) (rw bytes refl),
        ),
        λ few_left. header_pbuf-front block (8 + total (head ∷ next)) len,
      )
    ]
  ]
