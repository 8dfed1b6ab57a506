-- ===== src/Lwip/Pbuf/Bytes.antt =====
-- The functions of pbuf.c that read and write the bytes of a chain.
pub mod Slices
use libn2t.Common.{
  ℕ, suc, ◌+◌, ◌-◌, Bool, true, false, List, [], ◌∷◌, ◌++◌, Option, none, some, length, take, drop,
  get_or, ltb, leb, ◌==◌, ◌||◌, not, ◌&&◌, if◌then◌else◌, u8, u16,
}
use libn2t.Lwip.Pbuf.{Pbuf}

-- The bytes copied, whose number is the result.
unfoldable pub copy_loop : List Pbuf → ℕ → ℕ → List ℕ
copy_loop [] len offset = []
copy_loop (p ∷ next) len offset =
    let skipped = copy_loop next len (offset - p.len) in
    let n : ℕ = if ltb len (p.len - offset) then len else p.len - offset in
    let rest = copy_loop next (len - n) 0 in
    if len == 0
    then []
    else if not (offset == 0) && leb p.len offset
    then skipped
    else take n (drop offset p.payload) ++ rest

unfoldable pub pbuf_copy_partial : List Pbuf → ℕ → ℕ → Option (List ℕ)
unfolding copy_loop
pbuf_copy_partial [] len offset = none
pbuf_copy_partial (p ∷ next) len offset = some (copy_loop (p ∷ next) len offset)

-- The chain from the pbuf on that holds the byte at an offset, and the offset into that pbuf.
unfoldable pub pbuf_skip : List Pbuf → ℕ → List Pbuf × ℕ
pbuf_skip [] offset = ([], offset)
pbuf_skip (q ∷ next) offset =
    let rest = pbuf_skip next (offset - q.len) in
    if leb q.len offset then rest else (q ∷ next, offset)

-- The chain, changed from that pbuf on.
unfoldable pub change_from : (List Pbuf → ℕ → List Pbuf) → List Pbuf → ℕ → List Pbuf
change_from f [] offset = []
change_from f (q ∷ next) offset =
    let rest = change_from f next (offset - q.len) in
    if leb q.len offset then q ∷ rest else f (q ∷ next) offset

unfoldable pub take_loop : List Pbuf → List ℕ → ℕ → Option (List Pbuf)
take_loop [] dat left = if left == 0 then some [] else none
take_loop (p ∷ next) dat left =
    let n : ℕ = if ltb p.len left then p.len else left in
    let rest = take_loop next (drop n dat) (left - n) in
    if left == 0 then some (p ∷ next) else elim rest [
      | none ↦ none
      | some written ↦ some (record p { payload = take n dat ++ drop n p.payload } ∷ written)
    ]

unfoldable pub pbuf_take : List Pbuf → List ℕ → ℕ → Option (List Pbuf)
unfolding take_loop
pbuf_take [] dat len = none
pbuf_take (p ∷ next) dat len = if ltb p.tot_len len then none else take_loop (p ∷ next) dat len

unfoldable pub pbuf_try_get_at : List Pbuf → ℕ → Option ℕ
unfolding pbuf_skip
pbuf_try_get_at p offset =
    let found = pbuf_skip p offset in
    elim found.0 [
      | [] ↦ none
      | q ∷ next ↦ if ltb found.1 q.len then some (u8 (get_or q.payload found.1 0)) else none
    ]

unfoldable pub pbuf_get_at : List Pbuf → ℕ → ℕ
unfolding pbuf_try_get_at
pbuf_get_at p offset = elim (pbuf_try_get_at p offset) [ none ↦ 0 | some b ↦ b ]

abbrev pub set_at : List ℕ → ℕ → ℕ → List ℕ
set_at xs n v = take n xs ++ v ∷ drop (suc n) xs

abbrev pub put_first : ℕ → List Pbuf → ℕ → List Pbuf
put_first v [] offset = []
put_first v (q ∷ next) offset =
    if ltb offset q.len then record q { payload = set_at q.payload offset v } ∷ next else q ∷ next

unfoldable pub pbuf_put_at : List Pbuf → ℕ → ℕ → List Pbuf
unfolding change_from
pbuf_put_at p offset v = change_from (put_first v) p offset

-- 0 if the bytes are the same, the number of the first that differs, or 0xffff.
unfoldable pub compare_loop : List Pbuf → ℕ → List ℕ → ℕ → ℕ
unfolding pbuf_get_at
compare_loop q start [] i = 0
compare_loop q start (b ∷ s2) i =
    let rest = compare_loop q start s2 (suc i) in
    if pbuf_get_at q (u16 (start + i)) == b then rest else (if ltb i 65535 then suc i else 65535)

unfoldable pub pbuf_memcmp : List Pbuf → ℕ → List ℕ → ℕ
unfolding pbuf_skip compare_loop
pbuf_memcmp [] offset s2 = 65535
pbuf_memcmp (p ∷ next) offset s2 =
    if ltb p.tot_len (offset + length s2)
    then 65535
    else (let found = pbuf_skip (p ∷ next) offset in compare_loop found.0 found.1 s2 0)

-- `rounds` starting places from i on are tried.
unfoldable pub find_loop : List Pbuf → List ℕ → ℕ → ℕ → ℕ
unfolding pbuf_memcmp
find_loop p mem ℕ.zero i = 65535
find_loop p mem (suc rounds) i =
    let rest = find_loop p mem rounds (suc i) in if pbuf_memcmp p i mem == 0 then i else rest

unfoldable pub pbuf_memfind : List Pbuf → List ℕ → ℕ → ℕ
unfolding find_loop
pbuf_memfind [] mem start = 65535
pbuf_memfind (p ∷ next) mem start =
    if ltb p.tot_len (length mem + start)
    then 65535
    else find_loop (p ∷ next) mem (suc (p.tot_len - length mem) - start) start
