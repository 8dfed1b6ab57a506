-- ===== src/Lwip/Ip/Front.antt =====
-- A header of IP in front of the first pbuf.
use libn2t.Common.{
  ℕ, ◌+◌, ◌-◌, ◌≡◌, ◌<◌, ◌≤◌, ap, ◌∙◌, true, false, List, ◌∷◌, ◌++◌, some, length, take, drop,
  drop-append_ge, length-drop, length-append, take-append_ge, append_assoc, arith, ltb, ◌==◌, u16,
}
use libn2t.Lwip.Pbuf.{Pbuf, content, IsPacket}
use libn2t.Lwip.Pbuf.Headers.{is_contiguous, move_back, pbuf_add_header}

-- The first pbuf with a header of n bytes in front of its memory.
unfoldable pub with_front : ℕ → List ℕ → Pbuf → Pbuf
with_front n header p = record (move_back n p) { payload = header ++ p.payload }

module _ (n : ℕ) (header : List ℕ) (head : Pbuf) (next : List Pbuf) (size : length header ≡ n)
    (packet : IsPacket (head ∷ next)) (small : head.tot_len + n < 65536)
    (room : n ≤ length head.front) where
  len_le : head.len ≤ head.tot_len
  len_le = omega (arith, packet.0)

  pub with_front-IsPacket : IsPacket (with_front n header head ∷ next)
  unfolding with_front move_back
  with_front-IsPacket = (
    omega (arith, packet.0, small),
    omega arith,
    omega (arith, size, packet.2, length-append header head.payload),
    packet.3,
    packet.4,
  )

  pub with_front-len : (with_front n header head).len ≡ head.len + n
  unfolding with_front move_back
  with_front-len = omega (arith, len_le, small)

  pub content-with_front :
      content (with_front n header head ∷ next) ≡ header ++ content (head ∷ next)
  unfolding content with_front move_back
  content-with_front =
      ap (λ l. l ++ content next)
        (take-append_ge (u16 (head.len + n)) header head.payload
            (omega (arith, size, len_le, small))
          ∙ ap (λ k. header ++ take k head.payload) {x = u16 (head.len + n) - length header}
              {y = head.len} (omega (arith, size, len_le, small)))
      ∙ append_assoc header (take head.len head.payload) (content next)

module _ (n : ℕ) (positive : 0 < n) (head : Pbuf) (next : List Pbuf)
    (packet : IsPacket (head ∷ next)) (small : head.tot_len + n < 65536)
    (room : n ≤ length head.front) (contiguous : is_contiguous head.type_internal ≡ true)
    (one : head.ref ≡ 1) where
  pub payload-move_back : drop n (move_back n head).payload ≡ head.payload
  unfolding move_back
  payload-move_back =
      drop-append_ge n (drop (length head.front - n) head.front) head.payload
        (omega (arith, room, length-drop (length head.front - n) head.front))
      ∙ ap (λ k. drop k head.payload) {x = n - length (drop (length head.front - n) head.front)}
          {y = 0} (omega (arith, room, length-drop (length head.front - n) head.front))

  pub added : pbuf_add_header (head ∷ next) n ≡ some (false, move_back n head ∷ next)
  unfolding pbuf_add_header
  added = ground (arith, contiguous)

  pub once : (head.ref == 1) ≡ true
  once = ground (arith, one)

  pub moved-tot_len : (move_back n head).tot_len ≡ head.tot_len + n
  unfolding move_back
  moved-tot_len = omega (arith, small)

  pub moved-long : ltb (move_back n head).len n ≡ false
  unfolding move_back
  moved-long = ground (arith, small, packet.0)
