-- ===== src/Lwip/Pbuf/Headers.antt =====
-- The functions of pbuf.c that move the payload pointer over a header. The size is a `size_t`.
pub mod RoundTrip
use libn2t.Common.{
  ℕ, ◌+◌, ◌-◌, ◌≡◌, ◌<◌, ◌≤◌, refl, sym, ap, ◌∙◌, Bool, true, false, List, [], ◌∷◌, ◌++◌, Option,
  none, some, length, take, drop, ltb, leb, ◌==◌, if◌then◌else◌, u16, arith, append_assoc,
  length-append,
}
use libn2t.Lwip.Pbuf.{Pbuf, PbufType, ram, rom, reference, pool, content, total, IsPacket}

-- Whether the structure and its memory are one block.
abbrev pub is_contiguous : PbufType → Bool
is_contiguous ram = true
is_contiguous pool = true
is_contiguous rom = false
is_contiguous reference = false

-- Moving the pointer back by n takes the last n bytes of the memory in front.
unfoldable pub move_back : ℕ → Pbuf → Pbuf
move_back n p = record p {
  front = take (length p.front - n) p.front;
  payload = drop (length p.front - n) p.front ++ p.payload;
  len = u16 (p.len + n);
  tot_len = u16 (p.tot_len + n);
}

-- Whether it failed, which the source returns as 1, and the chain. `none` is an assertion that
-- fails, or, where the move is forced, memory that is not the pbuf's.
unfoldable pub pbuf_add_header_impl : List Pbuf → ℕ → Bool → Option (Bool × List Pbuf)
unfolding move_back
pbuf_add_header_impl [] n force = none
pbuf_add_header_impl (p ∷ next) n force =
    if ltb 65535 n
    then some (true, p ∷ next)
    else if n == 0
    then some (false, p ∷ next)
    else if ltb (u16 (n + p.tot_len)) n
    then some (true, p ∷ next)
    else if is_contiguous p.type_internal
    then (if ltb (length p.front) n
        then some (true, p ∷ next)
        else some (false, move_back n p ∷ next))
    else if force
    then (if ltb (length p.front) n then none else some (false, move_back n p ∷ next))
    else some (true, p ∷ next)

unfoldable pub pbuf_add_header : List Pbuf → ℕ → Option (Bool × List Pbuf)
unfolding pbuf_add_header_impl
pbuf_add_header p n = pbuf_add_header_impl p n false

unfoldable pub pbuf_add_header_force : List Pbuf → ℕ → Option (Bool × List Pbuf)
unfolding pbuf_add_header_impl
pbuf_add_header_force p n = pbuf_add_header_impl p n true

unfoldable pub pbuf_remove_header : List Pbuf → ℕ → Option (Bool × List Pbuf)
pbuf_remove_header [] n = none
pbuf_remove_header (p ∷ next) n =
    if ltb 65535 n
    then some (true, p ∷ next)
    else if n == 0
    then some (false, p ∷ next)
    else if ltb p.len n
    then none
    else some (
      false,
      record p {
        front = p.front ++ take n p.payload;
        payload = drop n p.payload;
        len = p.len - n;
        tot_len = u16 (p.tot_len + 65536 - n);
      }
          ∷ next,
    )
