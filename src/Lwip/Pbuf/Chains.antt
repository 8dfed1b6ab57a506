-- ===== src/Lwip/Pbuf/Chains.antt =====
-- The functions of pbuf.c that cut and join chains.
pub mod Content
use libn2t.Common.{
  ℕ, ◌+◌, ◌-◌, ◌≡◌, ◌<◌, ◌≤◌, refl, Bool, true, false, List, [], ◌∷◌, ◌++◌, map, Option, none, some,
  length, take, drop, ltb, leb, ◌==◌, ◌||◌, if◌then◌else◌, u16, arith,
}
use libn2t.Lwip.Pbuf.{Pbuf, content, total, IsPacket, pbuf_free, pbuf_ref}
use libn2t.Lwip.Pbuf.Headers.{pbuf_remove_header}

-- The pbufs that stay, each shorter by what is cut off, up to the new last one; `mem_trim` leaves the
-- memory as it is (MEM_LIBC_MALLOC). The pbufs behind it are freed.
unfoldable pub realloc_loop : ℕ → ℕ → List Pbuf → Option (List Pbuf)
unfolding pbuf_free
realloc_loop shrink rem_len [] = none
realloc_loop shrink rem_len (q ∷ next) =
    let rest = realloc_loop shrink (rem_len - q.len) next in
    let last = record q { len = rem_len; tot_len = rem_len } in
    if ltb q.len rem_len
    then elim rest [
      | none ↦ none
      | some kept ↦ some (record q { tot_len = u16 (q.tot_len + 65536 - shrink) } ∷ kept)
    ]
    else elim next [
      | [] ↦ some (last ∷ [])
      | r ∷ more ↦ elim (pbuf_free (r ∷ more)) [
        | none ↦ none
        | some (count, left) ↦ some (last ∷ [])
      ]
    ]

unfoldable pub pbuf_realloc : List Pbuf → ℕ → Option (List Pbuf)
unfolding realloc_loop
pbuf_realloc [] new_len = none
pbuf_realloc (p ∷ next) new_len =
    if leb p.tot_len new_len
    then some (p ∷ next)
    else realloc_loop (p.tot_len - new_len) new_len (p ∷ next)

-- The length that the first pbuf of the tail has in all.
abbrev pub head_tot_len : List Pbuf → ℕ
head_tot_len [] = 0
head_tot_len (t ∷ next) = t.tot_len

unfoldable pub cat_loop : List Pbuf → List Pbuf → Option (List Pbuf)
cat_loop [] t = none
cat_loop (p ∷ next) t =
    let rest = cat_loop next t in
    let longer = record p { tot_len = u16 (p.tot_len + head_tot_len t) } in
    elim next [
      | [] ↦ if p.tot_len == p.len then some (longer ∷ t) else none
      | r ∷ more ↦ elim rest [ none ↦ none | some joined ↦ some (longer ∷ joined) ]
    ]

abbrev pub is_null : List Pbuf → Bool
is_null [] = true
is_null (p ∷ next) = false

unfoldable pub pbuf_cat : List Pbuf → List Pbuf → Option (List Pbuf)
unfolding cat_loop
pbuf_cat h t = if is_null h || is_null t then none else cat_loop h t

-- The chain of both, and the tail, which its owner still holds.
unfoldable pub pbuf_chain : List Pbuf → List Pbuf → Option (List Pbuf × List Pbuf)
unfolding pbuf_cat pbuf_ref
pbuf_chain h t = elim (pbuf_ref t) [
  | none ↦ none
  | some t' ↦ elim (pbuf_cat h t') [ none ↦ none | some joined ↦ some (joined, t') ]
]

-- The first pbuf alone, and the rest of the chain if it is still referenced.
unfoldable pub pbuf_dechain : List Pbuf → Option (List Pbuf × List Pbuf)
unfolding pbuf_free
pbuf_dechain [] = none
pbuf_dechain (p ∷ []) = if p.tot_len == p.len then some (p ∷ [], []) else none
pbuf_dechain (p ∷ q ∷ next) =
    if q.tot_len + p.len == p.tot_len
    then elim (pbuf_free (record q { tot_len = u16 (p.tot_len + 65536 - p.len) } ∷ next)) [
      | none ↦ none
      | some (count, left) ↦
          some (record p { tot_len = p.len } ∷ [], if ltb 0 count then [] else left)
    ]
    else none

-- The pbufs whose summed lengths stay below 2 ^ 16, and the rest.
unfoldable pub split_at : ℕ → List Pbuf → List Pbuf × List Pbuf
split_at front [] = ([], [])
split_at front (r ∷ next) =
    let rest = split_at (u16 (front + r.len)) next in
    if leb front (u16 (front + r.len)) then (r ∷ rest.0, rest.1) else ([], r ∷ next)

abbrev pub mark_fin : Bool → List Pbuf → List Pbuf
mark_fin fin [] = []
mark_fin fin (r ∷ next) = (if fin then record r { tcp_fin = true } else r) ∷ next

abbrev pub shorten : ℕ → List Pbuf → List Pbuf
shorten n [] = []
shorten n (i ∷ next) = record i { tot_len = u16 (i.tot_len + 65536 - n) } ∷ shorten n next

-- The first part and the rest. The assertion on the last length of the first part holds if the
-- lengths of the chain do.
unfoldable pub pbuf_split_64k : List Pbuf → List Pbuf × List Pbuf
unfolding split_at
pbuf_split_64k [] = ([], [])
pbuf_split_64k (p ∷ []) = (p ∷ [], [])
pbuf_split_64k (p ∷ q ∷ next) =
    let parts = split_at p.len (q ∷ next) in
    elim parts.1 [
      | [] ↦ (p ∷ q ∷ next, [])
      | r ∷ more ↦ (shorten r.tot_len (p ∷ parts.0), mark_fin p.tcp_fin (r ∷ more))
    ]

-- Whole pbufs are unlinked and freed, and the header of the next one is hidden.
unfoldable pub pbuf_free_header : List Pbuf → ℕ → Option (List Pbuf)
unfolding pbuf_free pbuf_remove_header
pbuf_free_header [] size = some []
pbuf_free_header (p ∷ next) size =
    let rest = pbuf_free_header next (size - p.len) in
    if size == 0
    then some (p ∷ next)
    else if leb p.len size
    then elim (pbuf_free (p ∷ [])) [ none ↦ none | some (count, left) ↦ rest ]
    else elim (pbuf_remove_header (p ∷ next) size) [ none ↦ none | some (failed, q) ↦ some q ]
