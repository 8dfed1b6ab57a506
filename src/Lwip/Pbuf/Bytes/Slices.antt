-- ===== src/Lwip/Pbuf/Bytes/Slices.antt =====
-- Reading and writing a chain is reading and writing the bytes that it holds, however they are split
-- over its pbufs.
use libn2t.Common.{
  ℕ, ◌-◌, ◌≡◌, ◌≤◌, ◌≢◌, refl, sym, ap, ◌∙◌, List, [], ◌∷◌, ◌++◌, none, some, arith, append_assoc,
  append-nil, length, take, drop, get_or, length-append, length-take, length-drop, take-append_le,
  take-append_ge, drop-append_le, drop-append_ge, drop-take, take-join, take-take_le, take-nil,
  drop-nil, get_or-append_lt, get_or-append_ge, get_or-take, ltb, if◌then◌else◌, u8, inl, inr,
  Option-cases,
}
use libn2t.Lwip.Pbuf.Alloc.{first_len, first_front, first_ref}
use libn2t.Lwip.Pbuf.{Pbuf, content, total, IsPacket}
use libn2t.Lwip.Pbuf.Bytes.{
  copy_loop, pbuf_copy_partial, take_loop, pbuf_take, pbuf_skip, pbuf_try_get_at,
}

pub length-content : (p : List Pbuf) → IsPacket p → length (content p) ≡ total p
unfolding content total
length-content [] h = refl
length-content (p ∷ next) (t, small, fits, held, h) = omega (
  arith,
  length-append (take p.len p.payload) (content next),
  length-take p.len p.payload fits,
  length-content next h,
)

-- What a copy takes of one pbuf and of the rest.
module _ (xs ys : List ℕ) (k offset : ℕ) (fits : k ≤ length xs) where
  slice_front :
      offset ≤ k → drop offset (take k xs ++ ys) ≡ take (k - offset) (drop offset xs) ++ ys
  slice_front h =
      drop-append_le offset (take k xs) ys (omega (arith, length-take k xs fits))
      ∙ ap (λ l. l ++ ys) (drop-take offset k xs)

  length-slice : offset ≤ k → length (take (k - offset) (drop offset xs)) ≡ k - offset
  length-slice h = length-take (k - offset) (drop offset xs) (omega (arith, length-drop offset xs))

  slice_short :
      (len : ℕ)
      → offset ≤ k
      → len ≤ k - offset
      → take len (drop offset (take k xs ++ ys)) ≡ take len (drop offset xs)
  slice_short len h g =
      ap (take len) (slice_front h)
      ∙ take-append_le len (take (k - offset) (drop offset xs)) ys (omega (arith, length-slice h))
      ∙ take-take_le len (k - offset) (drop offset xs) g

  slice_long :
      (len : ℕ)
      → offset ≤ k
      → k - offset ≤ len
      → take len (drop offset (take k xs ++ ys))
        ≡ take (k - offset) (drop offset xs) ++ take (len - (k - offset)) ys
  slice_long len h g =
      ap (take len) (slice_front h)
      ∙ take-append_ge len (take (k - offset) (drop offset xs)) ys (omega (arith, length-slice h))
      ∙ ap (λ n. take (k - offset) (drop offset xs) ++ take (len - n) ys) (length-slice h)

  slice_behind : k ≤ offset → drop offset (take k xs ++ ys) ≡ drop (offset - k) ys
  slice_behind h =
      drop-append_ge offset (take k xs) ys (omega (arith, length-take k xs fits))
      ∙ ap (λ n. drop (offset - n) ys) (length-take k xs fits)

copy_loop_lem :
    (p : List Pbuf) (len offset : ℕ)
    → IsPacket p
    → copy_loop p len offset ≡ take len (drop offset (content p))
unfolding copy_loop content
copy_loop_lem [] len offset h = sym (ap (take len) (drop-nil offset) ∙ take-nil len)
copy_loop_lem (p ∷ next) len offset (t, small, fits, held, h) = ground (
  arith,
  slice_short p.payload (content next) p.len offset fits len,
  slice_long p.payload (content next) p.len offset fits len,
  slice_behind p.payload (content next) p.len offset fits,
  copy_loop_lem next len (offset - p.len) h,
  copy_loop_lem next (len - len) 0 h,
  copy_loop_lem next (len - (p.len - offset)) 0 h,
  append-nil (take len (drop offset p.payload)),
)

-- A copy out of a packet gives the bytes from an offset on, as many as are asked for and there are,
-- and fewer only at the end of the packet.
pub pbuf_copy_partial_lem :
    (p : Pbuf) (next : List Pbuf) (len offset : ℕ)
    → IsPacket (p ∷ next)
    → pbuf_copy_partial (p ∷ next) len offset ≡ some (take len (drop offset (content (p ∷ next))))
unfolding pbuf_copy_partial
pbuf_copy_partial_lem p next len offset h = ap some (copy_loop_lem (p ∷ next) len offset h)

-- The chain with the first bytes of a string over its own.
overwrite : List Pbuf → List ℕ → ℕ → List Pbuf
overwrite [] dat left = []
overwrite (p ∷ next) dat left =
    let n : ℕ = if ltb p.len left then p.len else left in
    record p { payload = take n dat ++ drop n p.payload } ∷ overwrite next (drop n dat) (left - n)

overwrite-zero : (p : List Pbuf) (dat : List ℕ) → overwrite p dat 0 ≡ p
unfolding overwrite
overwrite-zero [] dat = refl
overwrite-zero (p ∷ next) dat = ground (arith, overwrite-zero next dat)

take_loop_lem :
    (p : List Pbuf) (dat : List ℕ) (left : ℕ)
    → IsPacket p
    → left ≤ total p
    → take_loop p dat left ≡ some (overwrite p dat left)
unfolding take_loop overwrite total
take_loop_lem [] dat left h k = ground arith
take_loop_lem (p ∷ next) dat left (t, small, fits, held, h) k = ground (
  arith,
  overwrite-zero (p ∷ next) dat,
  take_loop_lem next (drop p.len dat) (left - p.len) h,
  take_loop_lem next (drop left dat) (left - left) h,
)

total-overwrite : (p : List Pbuf) (dat : List ℕ) (left : ℕ) → total (overwrite p dat left) ≡ total p
unfolding overwrite total
total-overwrite [] dat left = refl
total-overwrite (p ∷ next) dat left = omega (
  arith,
  total-overwrite next (drop p.len dat) (left - p.len),
  total-overwrite next (drop (if ltb p.len left then p.len else left) dat)
      (left - (if ltb p.len left then p.len else left)),
)

IsPacket-overwrite :
    (p : List Pbuf) (dat : List ℕ) (left : ℕ)
    → IsPacket p
    → left ≤ length dat
    → IsPacket (overwrite p dat left)
unfolding overwrite
IsPacket-overwrite [] dat left h k = tt
IsPacket-overwrite (p ∷ next) dat left (t, small, fits, held, h) k = ground (
  arith,
  total-overwrite next (drop p.len dat) (left - p.len),
  total-overwrite next (drop left dat) (left - left),
  IsPacket-overwrite next (drop p.len dat) (left - p.len) h,
  IsPacket-overwrite next (drop left dat) (left - left) h,
  length-drop p.len dat,
  length-drop left dat,
  length-append (take p.len dat) (drop p.len p.payload),
  length-append (take left dat) (drop left p.payload),
  length-take p.len dat,
  length-take left dat,
  length-drop p.len p.payload,
  length-drop left p.payload,
)

-- The bytes of one pbuf that is written over to its end, or in part.
write_all :
    (k : ℕ) (dat xs : List ℕ) → k ≤ length dat → take k (take k dat ++ drop k xs) ≡ take k dat
write_all k dat xs h =
    take-append_le k (take k dat) (drop k xs) (omega (arith, length-take k dat h))
    ∙ take-take_le k k dat (omega arith)

write_part :
    (k n : ℕ) (dat xs : List ℕ)
    → n ≤ length dat
    → n ≤ k
    → take k (take n dat ++ drop n xs) ≡ take n dat ++ take (k - n) (drop n xs)
write_part k n dat xs h g =
    take-append_ge k (take n dat) (drop n xs) (omega (arith, length-take n dat h))
    ∙ ap (λ m. take n dat ++ take (k - m) (drop n xs)) (length-take n dat h)

content-overwrite :
    (p : List Pbuf) (dat : List ℕ) (left : ℕ)
    → IsPacket p
    → left ≤ length dat
    → left ≤ total p
    → content (overwrite p dat left) ≡ take left dat ++ drop left (content p)
unfolding overwrite content total
content-overwrite [] dat left h k g = let e : left ≡ 0 = omega arith in rw e refl
content-overwrite (p ∷ next) dat left (t, small, fits, held, h) k g = ground (
  arith,
  write_all p.len dat p.payload,
  write_part p.len left dat p.payload,
  content-overwrite next (drop p.len dat) (left - p.len) h,
  overwrite-zero next (drop left dat),
  length-drop p.len dat,
  take-join p.len left dat,
  slice_behind p.payload (content next) p.len left fits,
  slice_front p.payload (content next) p.len left fits,
  append_assoc (take p.len dat) (take (left - p.len) (drop p.len dat))
      (drop (left - p.len) (content next)),
  append_assoc (take left dat) (take (p.len - left) (drop left p.payload)) (content next),
)

-- A write of the first `len` bytes of a string into a packet that is long enough meets no failed
-- assertion; the chain is a packet of the same length still, which holds those bytes and behind
-- them the bytes that it held there before.
pub pbuf_take_lem :
    (p : List Pbuf) (dat : List ℕ) (len : ℕ)
    → IsPacket p
    → p ≢ []
    → len ≤ total p
    → len ≤ length dat
    → (q : List Pbuf) × (pbuf_take p dat len ≡ some q)
      × IsPacket q
      × (total q ≡ total p)
      × (content q ≡ take len dat ++ drop len (content p))
unfolding pbuf_take total
pbuf_take_lem [] dat len h ne k g = absurd (ne refl)
pbuf_take_lem (p ∷ next) dat len h ne k g = (
  overwrite (p ∷ next) dat len,
  ground (arith, take_loop_lem (p ∷ next) dat len h),
  IsPacket-overwrite (p ∷ next) dat len h g,
  total-overwrite (p ∷ next) dat len,
  content-overwrite (p ∷ next) dat len h g k,
)

-- Writing changes nothing of the first pbuf but its bytes.
pub pbuf_take-first :
    (p : List Pbuf) (dat : List ℕ) (len : ℕ) (q : List Pbuf)
    → pbuf_take p dat len ≡ some q
    → (first_len q ≡ first_len p) × (first_front q ≡ first_front p) × (first_ref q ≡ first_ref p)
unfolding pbuf_take take_loop
pbuf_take-first [] dat len q e = ground arith
pbuf_take-first (p ∷ next) dat len q e =
    let n : ℕ = if ltb p.len len then p.len else len in
    elim (Option-cases (take_loop next (drop n dat) (len - n))) [
      | inl failed ↦ ground arith
      | inr (written, rest) ↦ ground arith
    ]

-- A single byte is read as it stands in the packet, and nothing is read behind its end.
pub pbuf_try_get_at_lem :
    (p : List Pbuf) (offset : ℕ)
    → IsPacket p
    → pbuf_try_get_at p offset
      ≡ (if ltb offset (total p) then some (u8 (get_or (content p) offset 0)) else none)
unfolding pbuf_try_get_at pbuf_skip total content
pbuf_try_get_at_lem [] offset h = ground arith
pbuf_try_get_at_lem (p ∷ next) offset (t, small, fits, held, h) = ground (
  arith,
  pbuf_try_get_at_lem next (offset - p.len) h,
  get_or-append_lt offset (take p.len p.payload) (content next) 0,
  get_or-append_ge offset (take p.len p.payload) (content next) 0,
  get_or-take p.len offset p.payload 0,
  length-take p.len p.payload fits,
)
