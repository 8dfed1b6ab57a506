-- ===== src/Lwip/Checksum.antt =====
-- src/lwip/src/core/inet_chksum.c: the checksum of the Internet, on a machine whose words have their
-- low byte first. Whether the memory of a pbuf starts at an odd address is an argument.
pub mod Sum
pub mod Chain
pub mod Pseudo
use libn2t.Common.{
  ℕ, ◌+◌, ◌-◌, ◌*◌, ◌/◌, ◌%◌, Bool, true, false, not, List, [], ◌∷◌, take, ◌==◌, if◌then◌else◌, u16,
  u32,
}
use libn2t.Lwip.Addresses.{IpAddr, is_v6}
use libn2t.Lwip.Pbuf.{Pbuf}

-- FOLD_U32T, SWAP_BYTES_IN_WORD, and `lwip_htons`, which swaps the bytes.
abbrev pub fold : ℕ → ℕ
fold x = x / 65536 + x % 65536

abbrev pub swap_bytes : ℕ → ℕ
swap_bytes w = w % 256 * 256 + w / 256 % 256

-- The bulk of the memory, in words, and the byte that is left over.
unfoldable pub add_words : ℕ → List ℕ → ℕ
add_words sum [] = sum
add_words sum (a ∷ []) = sum
add_words sum (a ∷ b ∷ rest) = add_words (u32 (sum + (a + b * 256))) rest

abbrev pub last_byte : List ℕ → ℕ
last_byte [] = 0
last_byte (a ∷ []) = a
last_byte (a ∷ b ∷ rest) = last_byte rest

-- At an odd address, the first byte is the high one of the last word.
unfoldable pub lwip_standard_chksum : Bool → List ℕ → ℕ
unfolding add_words
lwip_standard_chksum false bytes = u16 (fold (fold (u32 (add_words 0 bytes + last_byte bytes))))
lwip_standard_chksum true [] = 0
lwip_standard_chksum true (a ∷ rest) =
    u16 (swap_bytes (fold (fold (u32 (add_words 0 rest + (a * 256 + last_byte rest))))))

-- The memory in use of a pbuf.
abbrev pub used : Pbuf → List ℕ
used q = take q.len q.payload

-- Whether the sum is swapped at the end, and the sum.
unfoldable pub chain_loop : (Pbuf → Bool) → Bool → ℕ → List Pbuf → Bool × ℕ
unfolding lwip_standard_chksum
chain_loop odd swapped acc [] = (swapped, acc)
chain_loop odd swapped acc (q ∷ next) =
    let sum = fold (u32 (acc + lwip_standard_chksum (odd q) (used q))) in
    chain_loop odd (if q.len % 2 == 0 then swapped else not swapped)
      (if q.len % 2 == 0 then sum else swap_bytes sum) next

abbrev pub swap_back : Bool × ℕ → ℕ
swap_back (swapped, acc) = if swapped then swap_bytes acc else acc

unfoldable pub inet_cksum_pseudo_base : (Pbuf → Bool) → List Pbuf → ℕ → ℕ → ℕ → ℕ
unfolding chain_loop
inet_cksum_pseudo_base odd p proto proto_len acc =
    65535
    - fold (
        fold (
          u32 (
            u32 (swap_back (chain_loop odd false acc p) + swap_bytes proto)
            + swap_bytes proto_len)))
      % 65536

-- The 16 bits at a place of an address in network order, as the machine reads them.
abbrev pub half : ℕ → ℕ → ℕ
half addr place = swap_bytes (addr / place % 65536)

abbrev pub halves_v4 : ℕ → ℕ
halves_v4 a = half a 65536 + half a 1

unfoldable pub inet_chksum_pseudo : (Pbuf → Bool) → List Pbuf → ℕ → ℕ → ℕ → ℕ → ℕ
unfolding inet_cksum_pseudo_base
inet_chksum_pseudo odd p proto proto_len src dest =
    inet_cksum_pseudo_base odd p proto proto_len
      (fold (fold (u32 (halves_v4 src + halves_v4 dest))))

-- One of the four words of an address.
abbrev pub word_v6 : ℕ → ℕ → ℕ
word_v6 a place = halves_v4 (a / place % 4294967296)

abbrev pub halves_v6 : ℕ → ℕ
halves_v6 a =
    word_v6 a 79228162514264337593543950336
    + word_v6 a 18446744073709551616
    + word_v6 a 4294967296
    + word_v6 a 1

unfoldable pub ip6_chksum_pseudo : (Pbuf → Bool) → List Pbuf → ℕ → ℕ → ℕ → ℕ → ℕ
unfolding inet_cksum_pseudo_base
ip6_chksum_pseudo odd p proto proto_len src dest =
    inet_cksum_pseudo_base odd p proto proto_len
      (fold (fold (u32 (halves_v6 src + halves_v6 dest))))

unfoldable pub ip_chksum_pseudo : (Pbuf → Bool) → List Pbuf → ℕ → ℕ → IpAddr → IpAddr → ℕ
unfolding inet_chksum_pseudo ip6_chksum_pseudo
ip_chksum_pseudo odd p proto proto_len src dest =
    if is_v6 dest
    then ip6_chksum_pseudo odd p proto proto_len src.addr dest.addr
    else inet_chksum_pseudo odd p proto proto_len src.addr dest.addr

unfoldable pub inet_chksum : Bool → List ℕ → ℕ
unfolding lwip_standard_chksum
inet_chksum odd bytes = 65535 - lwip_standard_chksum odd bytes

unfoldable pub inet_chksum_pbuf : (Pbuf → Bool) → List Pbuf → ℕ
unfolding chain_loop
inet_chksum_pbuf odd p = 65535 - swap_back (chain_loop odd false 0 p) % 65536
