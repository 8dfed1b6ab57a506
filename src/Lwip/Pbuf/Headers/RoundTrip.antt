-- ===== src/Lwip/Pbuf/Headers/RoundTrip.antt =====
-- Hiding a header and showing it again.
use libn2t.Common.{
  ℕ, ◌-◌, ◌≡◌, ◌<◌, ◌≤◌, true, false, List, ◌∷◌, ◌++◌, some, length, take, drop, take-append_eq,
  drop-append_ge, drop-append_le, take-append-drop, drop-take, length-append, length-take,
  length-drop, arith,
}
use libn2t.Lwip.Pbuf.{Pbuf, content, total, IsPacket}
use libn2t.Lwip.Pbuf.Headers.{is_contiguous, move_back, pbuf_add_header, pbuf_remove_header}

-- The first pbuf of a packet with n bytes of its payload moved to the front.
unfoldable pub hidden : ℕ → Pbuf → Pbuf
hidden n p = record p {
  front = p.front ++ take n p.payload;
  payload = drop n p.payload;
  len = p.len - n;
  tot_len = p.tot_len - n;
}

module _ (p : Pbuf) (next : List Pbuf) (n : ℕ) (packet : IsPacket (p ∷ next)) (some_bytes : 0 < n)
    (small : n ≤ p.len) where
  fits : p.len ≤ length p.payload
  fits = unfold total in packet.2

  len_le : p.len ≤ p.tot_len
  len_le = omega (arith, packet.0)

  pub remove_lem : pbuf_remove_header (p ∷ next) n ≡ some (false, hidden n p ∷ next)
  unfolding pbuf_remove_header hidden
  remove_lem = ground (arith, len_le, packet.1, packet.0)

  pub hidden-IsPacket : IsPacket (hidden n p ∷ next)
  unfolding hidden
  hidden-IsPacket =
      ground (arith, packet.0, packet.1, fits, packet.3, packet.4, length-drop n p.payload)

  pub content-hidden : content (hidden n p ∷ next) ≡ drop n (content (p ∷ next))
  unfolding content hidden
  content-hidden = ground (
    arith,
    drop-append_le n (take p.len p.payload) (content next),
    length-take p.len p.payload fits,
    drop-take n p.len p.payload,
  )

  back : move_back n (hidden n p) ≡ p
  unfolding move_back hidden
  back = ground (
    arith,
    len_le,
    packet.1,
    length-append p.front (take n p.payload),
    length-take n p.payload,
    fits,
    take-append_eq (length p.front) p.front (take n p.payload),
    drop-append_ge (length p.front) p.front (take n p.payload),
    take-append-drop n p.payload,
  )

  add_lem :
      is_contiguous p.type_internal ≡ true
      → pbuf_add_header (hidden n p ∷ next) n ≡ some (false, p ∷ next)
  unfolding pbuf_add_header hidden
  add_lem c = ground (
    arith,
    back,
    len_le,
    packet.0,
    packet.1,
    length-append p.front (take n p.payload),
    length-take n p.payload,
    fits,
  )

  -- Hiding some bytes at the front of a packet, no more than its first pbuf holds, meets no failed
  -- assertion and leaves a packet that holds the others; if the pbuf has its memory in one block
  -- with its structure, adding a header of that size then gives back the packet as it was.
  pub pbuf_add_header-pbuf_remove_header :
      (q : List Pbuf) × (pbuf_remove_header (p ∷ next) n ≡ some (false, q))
      × IsPacket q
      × (content q ≡ drop n (content (p ∷ next)))
      × (is_contiguous p.type_internal ≡ true → pbuf_add_header q n ≡ some (false, p ∷ next))
  pbuf_add_header-pbuf_remove_header =
      (hidden n p ∷ next, remove_lem, hidden-IsPacket, content-hidden, add_lem)
