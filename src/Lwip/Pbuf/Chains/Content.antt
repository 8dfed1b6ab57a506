-- ===== src/Lwip/Pbuf/Chains/Content.antt =====
-- Cutting and joining chains of packets: the bytes that they hold, and that the chains stay packets.
use libn2t.Common.{
  ℕ, ◌+◌, ◌-◌, ◌≡◌, ◌≢◌, ◌<◌, ◌≤◌, refl, sym, ap, ◌∙◌, inl, inr, true, false, List, [], ◌∷◌, ◌++◌,
  some, arith, append_assoc, append-nil, take, length-take, take-append_le, take-append_ge,
  take-take_le, take-nil, take-all, Bool-cases, ltb, leb, ◌==◌, if◌then◌else◌, u8,
}
use libn2t.Lwip.Pbuf.{Pbuf, content, total, IsPacket, free_loop}
use libn2t.Lwip.Pbuf.Bytes.Slices.{length-content}
use libn2t.Lwip.Pbuf.Chains.{realloc_loop, pbuf_realloc, head_tot_len, cat_loop, pbuf_cat}

-- A packet can be freed.
free_loop-total : (p : List Pbuf) → IsPacket p → (r : ℕ × List Pbuf) × (free_loop p ≡ some r)
unfolding free_loop
free_loop-total [] h = ((0, []), refl)
free_loop-total (p ∷ next) (t, small, fits, held, h) =
    let (r, e) = free_loop-total next h in
    (
      (
        if p.ref == 1 then u8 (r.0 + 1) else 0,
        if p.ref == 1 then r.1 else record p { ref = p.ref - 1 } ∷ next,
      ),
      ground arith,
    )

-- What `pbuf_realloc` leaves of a packet.
shrunk : ℕ → List Pbuf → List Pbuf
shrunk rem_len [] = []
shrunk rem_len (q ∷ next) =
    let rest = shrunk (rem_len - q.len) next in
    if ltb q.len rem_len
    then record q { tot_len = rem_len } ∷ rest
    else record q { len = rem_len; tot_len = rem_len } ∷ []

realloc_loop_lem :
    (p : List Pbuf) (shrink rem_len : ℕ)
    → IsPacket p
    → p ≢ []
    → rem_len + shrink ≡ total p
    → realloc_loop shrink rem_len p ≡ some (shrunk rem_len p)
unfolding realloc_loop shrunk total
realloc_loop_lem [] shrink rem_len h ne k = absurd (ne refl)
realloc_loop_lem (p ∷ []) shrink rem_len (t, small, fits, held, h) ne k = ground arith
realloc_loop_lem (p ∷ q ∷ next) shrink rem_len (t, small, fits, held, h) ne k =
    let (r, e) = free_loop-total (q ∷ next) h in
    ground (arith, realloc_loop_lem (q ∷ next) shrink (rem_len - p.len) h (λ f. ground arith))

total-shrunk :
    (p : List Pbuf) (rem_len : ℕ) → rem_len ≤ total p → total (shrunk rem_len p) ≡ rem_len
unfolding shrunk total
total-shrunk [] rem_len h = ground arith
total-shrunk (p ∷ next) rem_len h = ground (arith, total-shrunk next (rem_len - p.len))

IsPacket-shrunk :
    (p : List Pbuf) (rem_len : ℕ)
    → IsPacket p
    → rem_len ≤ total p
    → rem_len < 65536
    → IsPacket (shrunk rem_len p)
unfolding shrunk total
IsPacket-shrunk [] rem_len h k small' = tt
IsPacket-shrunk (p ∷ next) rem_len (t, small, fits, held, h) k small' =
    ground (arith, IsPacket-shrunk next (rem_len - p.len) h, total-shrunk next (rem_len - p.len))

content-shrunk :
    (p : List Pbuf) (rem_len : ℕ)
    → IsPacket p
    → content (shrunk rem_len p) ≡ take rem_len (content p)
unfolding shrunk content
content-shrunk [] rem_len h = sym (take-nil rem_len)
content-shrunk (p ∷ next) rem_len (t, small, fits, held, h) = ground (
  arith,
  content-shrunk next (rem_len - p.len) h,
  take-append_le rem_len (take p.len p.payload) (content next),
  take-append_ge rem_len (take p.len p.payload) (content next),
  length-take p.len p.payload fits,
  take-take_le rem_len p.len p.payload,
  append-nil (take rem_len p.payload),
)

-- Shortening a packet meets no failed assertion; what is left is a packet of the new length that
-- holds the first bytes.
pub pbuf_realloc_lem :
    (p : List Pbuf) (new_len : ℕ)
    → IsPacket p
    → p ≢ []
    → new_len ≤ total p
    → (q : List Pbuf) × (pbuf_realloc p new_len ≡ some q)
      × IsPacket q
      × (total q ≡ new_len)
      × (content q ≡ take new_len (content p))
pbuf_realloc_lem [] new_len h ne k = absurd (ne refl)
pbuf_realloc_lem (p ∷ next) new_len h ne k = elim (Bool-cases (leb p.tot_len new_len)) [
  | inl e ↦ (
    p ∷ next,
    unfold pbuf_realloc in ground arith,
    h,
    whole e,
    sym (
        take-all new_len (content (p ∷ next))
          (omega (arith, length-content (p ∷ next) h, whole e))),
  )
  | inr e ↦ (
    shrunk new_len (p ∷ next),
    unfold pbuf_realloc in
        ground (arith, realloc_loop_lem (p ∷ next) (p.tot_len - new_len) new_len h ne (fits e)),
    IsPacket-shrunk (p ∷ next) new_len h k (short e),
    total-shrunk (p ∷ next) new_len k,
    content-shrunk (p ∷ next) new_len h,
  )
]
  where
    whole : leb p.tot_len new_len ≡ true → total (p ∷ next) ≡ new_len
    whole e = unfold total in ground (arith, k)

    fits : leb p.tot_len new_len ≡ false → new_len + (p.tot_len - new_len) ≡ total (p ∷ next)
    fits e = unfold total in ground arith

    short : leb p.tot_len new_len ≡ false → new_len < 65536
    short e = ground arith

-- What `pbuf_cat` makes of the first chain.
longer : ℕ → List Pbuf → List Pbuf
longer n [] = []
longer n (p ∷ next) = record p { tot_len = p.tot_len + n } ∷ longer n next

head-total : (t : List Pbuf) → IsPacket t → head_tot_len t ≡ total t
unfolding total
head-total [] h = refl
head-total (p ∷ t) (e, small, fits, held, h) = e

cat_loop_lem :
    (h t : List Pbuf)
    → IsPacket h
    → IsPacket t
    → h ≢ []
    → total h + total t < 65536
    → cat_loop h t ≡ some (longer (total t) h ++ t)
unfolding cat_loop longer total
cat_loop_lem [] t hp tp ne k = absurd (ne refl)
cat_loop_lem (p ∷ []) t (e, small, fits, held, hp) tp ne k = ground (arith, head-total t tp)
cat_loop_lem (p ∷ q ∷ next) t (e, small, fits, held, hp) tp ne k =
    ground (arith, head-total t tp, cat_loop_lem (q ∷ next) t hp tp (λ f. ground arith))

IsPacket-cat :
    (h t : List Pbuf)
    → IsPacket h
    → IsPacket t
    → total h + total t < 65536
    → IsPacket (longer (total t) h ++ t) × (total (longer (total t) h ++ t) ≡ total h + total t)
unfolding longer total
IsPacket-cat [] t hp tp k = (tp, omega arith)
IsPacket-cat (p ∷ next) t (e, small, fits, held, hp) tp k =
    ground (arith, IsPacket-cat next t hp tp)

content-cat : (n : ℕ) (h t : List Pbuf) → content (longer n h ++ t) ≡ content h ++ content t
unfolding longer content
content-cat n [] t = refl
content-cat n (p ∷ next) t =
    ap (λ l. take p.len p.payload ++ l) (content-cat n next t)
    ∙ sym (append_assoc (take p.len p.payload) (content next) (content t))

-- Two packets whose lengths together have 16 bits are joined with no failed assertion, to a packet
-- that holds the bytes of the first and then those of the second.
pub pbuf_cat_lem :
    (h t : List Pbuf)
    → IsPacket h
    → IsPacket t
    → h ≢ []
    → t ≢ []
    → total h + total t < 65536
    → (q : List Pbuf) × (pbuf_cat h t ≡ some q)
      × IsPacket q
      × (total q ≡ total h + total t)
      × (content q ≡ content h ++ content t)
unfolding pbuf_cat
pbuf_cat_lem [] t hp tp hn tn k = absurd (hn refl)
pbuf_cat_lem (p ∷ h) [] hp tp hn tn k = absurd (tn refl)
pbuf_cat_lem (p ∷ h) (q ∷ t) hp tp hn tn k = (
  longer (total (q ∷ t)) (p ∷ h) ++ q ∷ t,
  cat_loop_lem (p ∷ h) (q ∷ t) hp tp hn k,
  (IsPacket-cat (p ∷ h) (q ∷ t) hp tp k).0,
  (IsPacket-cat (p ∷ h) (q ∷ t) hp tp k).1,
  content-cat (total (q ∷ t)) (p ∷ h) (q ∷ t),
)
