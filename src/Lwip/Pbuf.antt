-- ===== src/Lwip/Pbuf.antt =====
-- src/lwip/src/core/pbuf.c: packet buffers. A `struct pbuf *` is the chain that it points to, a list
-- of its pbufs in order, and NULL is the empty chain.
pub mod Alloc
pub mod Headers
pub mod Chains
pub mod Bytes
use libn2t.Common.{
  ℕ, ◌+◌, ◌-◌, ◌*◌, ◌/◌, ◌≡◌, ◌<◌, ◌≤◌, Bool, true, false, ◌&&◌, List, [], ◌∷◌, ◌++◌, Option, none,
  some, length, take, drop, ltb, leb, ◌==◌, if◌then◌else◌, u8, u16,
}

-- Where the memory is from; `ref` of the source is `reference` here.
pub data PbufType : Type 0 where
  ram rom reference pool : PbufType

-- `front` is the memory between the structure and `payload`, and `payload` all memory from there on,
-- of which `len` bytes are in use. Of the flags, those that the code reads.
pub record Pbuf : Type 0 where
  pub front : List ℕ
  pub payload : List ℕ
  pub len : ℕ
  pub tot_len : ℕ
  pub type_internal : PbufType
  pub is_custom : Bool
  pub tcp_fin : Bool
  pub ref : ℕ

unfoldable pub pbuf_init_alloced_pbuf : List ℕ → List ℕ → ℕ → ℕ → PbufType → Pbuf
pbuf_init_alloced_pbuf front payload tot_len len type = record {
  front = front;
  payload = payload;
  len = len;
  tot_len = tot_len;
  type_internal = type;
  is_custom = false;
  tcp_fin = false;
  ref = 1;
}

-- MEM_ALIGNMENT is 4.
abbrev pub mem_align_size : ℕ → ℕ
mem_align_size size = (size + 3) / 4 * 4

-- LWIP_MEM_ALIGN_SIZE(TCP_MSS + 40 + PBUF_LINK_HLEN)
abbrev pub pbuf_pool_bufsize : ℕ
pbuf_pool_bufsize = 1516

-- What the allocators still give: the memory behind the structure of each element of the pool,
-- whether there is an element for a pbuf without memory, and a block of the heap of a given size.
pub record Memory : Type 0 where
  pub pool : List (List ℕ)
  pub references : ℕ
  pub heap : ℕ → Option (List ℕ)

-- One round for each element of the pool; if there is none, the chain so far is freed.
unfoldable pub alloc_pool : ℕ → ℕ → List (List ℕ) → Option (List Pbuf × List (List ℕ))
unfolding pbuf_init_alloced_pbuf
alloc_pool offset rem_len [] = none
alloc_pool offset rem_len (block ∷ blocks) =
    let room : ℕ = u16 (pbuf_pool_bufsize - mem_align_size offset) in
    let qlen : ℕ = if ltb rem_len room then rem_len else room in
    let q =
      pbuf_init_alloced_pbuf (take (mem_align_size offset) block)
        (drop (mem_align_size offset) block) rem_len qlen pool in
    let rest = alloc_pool 0 (rem_len - qlen) blocks in
    if rem_len - qlen == 0
    then some (q ∷ [], blocks)
    else elim rest [ none ↦ none | some (next, left) ↦ some (q ∷ next, left) ]

unfoldable pub pbuf_alloc_reference : List ℕ → ℕ → PbufType → Memory → Option (List Pbuf × Memory)
unfolding pbuf_init_alloced_pbuf
pbuf_alloc_reference payload length type m =
    if m.references == 0
    then none
    else some (
      pbuf_init_alloced_pbuf [] payload length length type ∷ [],
      record m { references = m.references - 1 },
    )

unfoldable pub alloc_ram : ℕ → ℕ → Memory → Option (List Pbuf × Memory)
unfolding pbuf_init_alloced_pbuf
alloc_ram offset length m =
    let payload_len : ℕ = u16 (mem_align_size offset + mem_align_size length) in
    if ltb payload_len (mem_align_size length) then none else elim (m.heap payload_len) [
      | none ↦ none
      | some block ↦ some (
        pbuf_init_alloced_pbuf (take (mem_align_size offset) block)
              (drop (mem_align_size offset) block) length length ram
            ∷ [],
        m,
      )
    ]

-- `offset` is the room for headers that the layer asks for. `none` is NULL.
unfoldable pub pbuf_alloc : ℕ → ℕ → PbufType → Memory → Option (List Pbuf × Memory)
unfolding alloc_pool pbuf_alloc_reference alloc_ram
pbuf_alloc offset length reference m = pbuf_alloc_reference [] length reference m
pbuf_alloc offset length rom m = pbuf_alloc_reference [] length rom m
pbuf_alloc offset length pool m = elim (alloc_pool offset length m.pool) [
  | none ↦ none
  | some (p, left) ↦ some (p, record m { pool = left })
]
pbuf_alloc offset length ram m = alloc_ram offset length m

unfoldable pub pbuf_clen : List Pbuf → ℕ
pbuf_clen [] = 0
pbuf_clen (p ∷ next) = u16 (pbuf_clen next + 1)

-- The number of pbufs that are freed, in 8 bits, and what is still referenced.
unfoldable pub free_loop : List Pbuf → Option (ℕ × List Pbuf)
free_loop [] = some (0, [])
free_loop (p ∷ next) =
    let rest = free_loop next in
    if p.ref == 0
    then none
    else if p.ref == 1
    then elim rest [ none ↦ none | some (count, left) ↦ some (u8 (count + 1), left) ]
    else some (0, record p { ref = p.ref - 1 } ∷ next)

unfoldable pub pbuf_free : List Pbuf → Option (ℕ × List Pbuf)
unfolding free_loop
pbuf_free [] = none
pbuf_free (p ∷ next) = free_loop (p ∷ next)

-- The reference count has 8 bits.
unfoldable pub pbuf_ref : List Pbuf → Option (List Pbuf)
pbuf_ref [] = some []
pbuf_ref (p ∷ next) =
    if u8 (p.ref + 1) == 0 then none else some (record p { ref = p.ref + 1 } ∷ next)

-- The memory that is in use in a chain.
unfoldable pub content : List Pbuf → List ℕ
content [] = []
content (p ∷ next) = take p.len p.payload ++ content next

-- The chain of one packet: each `tot_len` is the length from there to the end and has 16 bits, each
-- pbuf has the memory that it uses, and each is referenced.
unfoldable pub total : List Pbuf → ℕ
total [] = 0
total (p ∷ next) = p.len + total next

abbrev pub IsPacket : List Pbuf → Type 0
IsPacket [] = Unit {0}
IsPacket (p ∷ next) =
    (p.tot_len ≡ p.len + total next)
    × (p.tot_len < 65536)
    × (p.len ≤ length p.payload)
    × (0 < p.ref)
    × IsPacket next
