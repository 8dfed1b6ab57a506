-- ===== src/Lwip/Ip6/Extension.antt =====
-- The extension headers of IPv6 that a packet may have in front of its datagram, as RFC 8200 and
-- RFC 6275 define them: the ones that are skipped.
use libn2t.Common.{
  ℕ, ◌+◌, ◌-◌, ◌/◌, ◌%◌, ◌≡◌, ◌<◌, ◌≤◌, ◌⊎◌, Bool, true, false, List, [], ◌∷◌, ◌++◌, All, length,
}

-- An option: one byte of padding, or a type, a length and a value.
pub data Opt : Type 0 where
  pad1 : Opt
  tlv : ℕ → List ℕ → Opt

-- With the options; with the type, the segments left and the data; with the identification of a
-- packet in one fragment.
pub data Extension : Type 0 where
  hop_by_hop : List Opt → Extension
  destination : List Opt → Extension
  routing : ℕ → ℕ → List ℕ → Extension
  atomic : List ℕ → Extension

abbrev pub opt_bytes : Opt → List ℕ
opt_bytes pad1 = 0 ∷ []
opt_bytes (tlv type value) = type ∷ length value ∷ value

abbrev pub opts_bytes : List Opt → List ℕ
opts_bytes [] = []
opts_bytes (o ∷ os) = opt_bytes o ++ opts_bytes os

abbrev pub number : Extension → ℕ
number (hop_by_hop os) = 0
number (destination os) = 60
number (routing type left content) = 43
number (atomic id) = 44

abbrev pub body : Extension → List ℕ
body (hop_by_hop os) = opts_bytes os
body (destination os) = opts_bytes os
body (routing type left content) = type ∷ left ∷ content
body (atomic id) = 0 ∷ 0 ∷ id

-- The number of what follows, and the length in units of eight bytes after the first eight.
abbrev pub ext_bytes : ℕ → Extension → List ℕ
ext_bytes next e = next ∷ ((2 + length (body e)) / 8 - 1) ∷ body e

-- The headers in front of UDP, and the number of the first.
abbrev pub first_number : List Extension → ℕ
first_number [] = 17
first_number (e ∷ es) = number e

abbrev pub exts_bytes : List Extension → List ℕ
exts_bytes [] = []
exts_bytes (e ∷ es) = ext_bytes (first_number es) e ++ exts_bytes es

-- Options to skip: the highest two bits of the type say so, or it is one of the known ones, the jumbo
-- payload or, in a destination header, the home address.
abbrev pub IsPassed : Bool → Opt → Type 0
IsPassed dest_header pad1 = Unit
IsPassed dest_header (tlv type value) =
    (0 < type) × ((type < 64) ⊎ ((type ≡ 194) ⊎ ((dest_header ≡ true) × (type ≡ 201))))

-- A routing header with segments left is skipped if it is of type 2 or 3 and has an even length.
abbrev pub IsSkipped : Extension → Type 0
IsSkipped (hop_by_hop os) = All (IsPassed false) os
IsSkipped (destination os) = All (IsPassed true) os
IsSkipped (routing type left content) =
    (left ≡ 0)
    ⊎ (((type ≡ 2) ⊎ (type ≡ 3)) × (((2 + length (type ∷ left ∷ content)) / 8 - 1) % 2 ≡ 0))
IsSkipped (atomic id) = length id ≡ 4

-- Headers that are skipped, with lengths that fit their field; only the first is a hop-by-hop one.
abbrev pub AreSkipped : List Extension → Type 0
AreSkipped [] = Unit
AreSkipped (e ∷ es) =
    IsSkipped e
    × ((2 + length (body e)) % 8 ≡ 0)
    × (2 + length (body e) ≤ 2048)
    × (0 < first_number es)
    × AreSkipped es
