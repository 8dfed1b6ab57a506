-- ===== src/Utils/Socks5/Decode.antt =====
-- What `socks5_to_addrport` accepts, and that the writer gives back what it read.
use libn2t.Common.{
  ℕ, zero, suc, ◌+◌, ◌*◌, ◌<◌, ◌≤◌, ◌≡◌, refl, sym, ap, ◌∙◌, ◌++◌, List, [], ◌∷◌, ◌⊎◌, ◌↔◌, inl,
  inr, map, none, some, arith, length, take, get_or, All, u8, take-split, length-map, length-take,
  All-take, All-get_or,
}
use libn2t.Utils.Socks5.{
  AddressApi, AddressLaws, dotted, hex_text, byte_at, address_bytes, addrport_to_socks5,
  socks5_to_addrport,
}
use libn2t.Utils.Socks5.RoundTrip.{map-u8, address_bytes_v4, address_bytes_v6}

-- The reader gives up exactly when neither an IPv4 address (type byte 1 and at least 7 bytes) nor
-- an IPv6 address (type byte 4 and at least 19 bytes) stands at the front; an empty string counts
-- as type byte 0.
pub socks5_to_addrport-none :
    (s : List ℕ)
    → (socks5_to_addrport s ≡ none)
      ↔ ((get_or s 0 0 ≡ 1 → length s < 7) × (get_or s 0 0 ≡ 4 → length s < 19))
unfolding socks5_to_addrport
socks5_to_addrport-none [] = (λ h. (λ e. omega arith, λ e. omega arith), λ h. refl)
socks5_to_addrport-none (b ∷ s) = (λ h. (λ e. ground arith, λ e. ground arith), λ h. ground arith)

-- On success the count is that of the address type and lies within the string, and the port has
-- 16 bits.
pub socks5_to_addrport_bounds :
    (s : List ℕ) {n port : ℕ} {addr : List ℕ}
    → socks5_to_addrport s ≡ some (n, addr, port)
    → (n ≤ length s)
      × (port < 65536)
      × ((get_or s 0 0 ≡ 1) × (n ≡ 7) ⊎ (get_or s 0 0 ≡ 4) × (n ≡ 19))
unfolding socks5_to_addrport
socks5_to_addrport_bounds s h = ground arith

length-hex_text :
    (k : ℕ) (bs : List ℕ) → length bs ≡ suc k + suc k → suc (length (hex_text bs)) ≡ 5 * suc k
unfolding hex_text
length-hex_text k [] h = absurd (omega arith)
length-hex_text k (a ∷ []) h = absurd (omega arith)
length-hex_text zero (a ∷ b ∷ []) h = refl
length-hex_text (suc k) (a ∷ b ∷ []) h = absurd (omega arith)
length-hex_text zero (a ∷ b ∷ c ∷ bs) h = absurd (omega arith)
length-hex_text (suc k) (a ∷ b ∷ c ∷ bs) h = omega (arith, length-hex_text k (c ∷ bs) (omega arith))

-- What a successful read says of the bytes behind the type byte.
read_cases :
    (b : ℕ) (s : List ℕ) {n port : ℕ} {addr : List ℕ}
    → socks5_to_addrport (b ∷ s) ≡ some (n, addr, port)
    → (b ≡ 1)
        × (6 ≤ length s)
        × (n ≡ 7)
        × (addr ≡ dotted (byte_at s 0) (byte_at s 1) (byte_at s 2) (byte_at s 3))
        × (port ≡ byte_at s 4 * 256 + byte_at s 5)
      ⊎ (b ≡ 4)
        × (18 ≤ length s)
        × (n ≡ 19)
        × (addr ≡ hex_text (map u8 (take 16 s)))
        × (port ≡ byte_at s 16 * 256 + byte_at s 17)
unfolding socks5_to_addrport
read_cases b s h = ground arith

-- The text of an IPv6 address, with its terminating NUL, fills `char t[40]` and no more.
pub socks5_to_addrport_buffer :
    (s : List ℕ) {port : ℕ} {addr : List ℕ}
    → socks5_to_addrport s ≡ some (19, addr, port)
    → length addr + 1 ≡ 40
socks5_to_addrport_buffer [] h = unfold socks5_to_addrport in ground arith
socks5_to_addrport_buffer (b ∷ s) h = elim (read_cases b s h) [
  | inl v4 ↦ absurd (omega (arith, v4.2))
  | inr v6 ↦ rw v6.3 (
      omega (
        arith,
        length-hex_text 7 (map u8 (take 16 s))
            (length-map u8 (take 16 s) ∙ length-take 16 s (omega (arith, v6.1))),
      ))
]

byte_at_range : (s : List ℕ) (i : ℕ) → All (λ b. b < 256) s → byte_at s i ≡ get_or s i 0
byte_at_range s i h =
    let lt : get_or s i 0 < 256 = All-get_or (λ b. b < 256) i s 0 (omega arith) h in omega arith

take_six :
    (s : List ℕ)
    → 6 ≤ length s
    → take 6 s
      ≡ get_or s 0 0 ∷ get_or s 1 0 ∷ get_or s 2 0 ∷ get_or s 3 0 ∷ get_or s 4 0 ∷ get_or s 5 0 ∷ []
take_six s h =
    rw (take-split 4 s 0 h, take-split 2 s 0 (omega arith), take-split 0 s 0 (omega arith)) refl

module _ (api : AddressApi) (laws : AddressLaws api) where
  write_lem :
      (addr : List ℕ) (y : api.Address) (e : List ℕ) (hi lo : ℕ)
      → api.from_string addr ≡ some y
      → address_bytes api y ≡ e
      → hi < 256
      → lo < 256
      → addrport_to_socks5 api addr (hi * 256 + lo) ≡ some (e ++ hi ∷ lo ∷ [])
  unfolding addrport_to_socks5
  write_lem addr y e hi lo h k hh hl = rw (h, addrport_to_socks5, k) (ground arith)

  write_v4 :
      (s : List ℕ)
      → All (λ b. b < 256) s
      → 6 ≤ length s
      → addrport_to_socks5 api
          (dotted (byte_at s 0) (byte_at s 1) (byte_at s 2) (byte_at s 3))
          (byte_at s 4 * 256 + byte_at s 5)
        ≡ some (take 7 (1 ∷ s))
  write_v4 s h n =
      let (y, parse, v, bs) =
        laws.v4_text (byte_at s 0) (byte_at s 1) (byte_at s 2) (byte_at s 3) (omega arith)
          (omega arith) (omega arith) (omega arith) in
      write_lem _ y _ (byte_at s 4) (byte_at s 5) parse
        (address_bytes_v4 api laws y v ∙ ap (◌∷◌ 1) bs) (omega arith) (omega arith)
      ∙ ap (λ t. some (1 ∷ t)) (same_bytes ∙ sym (take_six s n))
    where
      same_bytes :
          byte_at s 0 ∷ byte_at s 1 ∷ byte_at s 2 ∷ byte_at s 3 ∷ byte_at s 4 ∷ byte_at s 5 ∷ []
          ≡ get_or s 0 0
            ∷ get_or s 1 0
            ∷ get_or s 2 0
            ∷ get_or s 3 0
            ∷ get_or s 4 0
            ∷ get_or s 5 0
            ∷ []
      same_bytes = cc (
        byte_at_range s 0 h,
        byte_at_range s 1 h,
        byte_at_range s 2 h,
        byte_at_range s 3 h,
        byte_at_range s 4 h,
        byte_at_range s 5 h,
      )

  write_v6 :
      (s : List ℕ)
      → All (λ b. b < 256) s
      → 18 ≤ length s
      → addrport_to_socks5 api (hex_text (map u8 (take 16 s))) (byte_at s 16 * 256 + byte_at s 17)
        ≡ some (take 19 (4 ∷ s))
  write_v6 s h n =
      let range : All (λ b. b < 256) (take 16 s) = All-take (λ b. b < 256) 16 s h in
      let (y, parse, v, bs) = laws.v6_text (take 16 s) (length-take 16 s (omega arith)) range in
      write_lem _ y _ (byte_at s 16) (byte_at s 17) (rw (map-u8 (take 16 s) range) parse)
        (address_bytes_v6 api laws y v ∙ ap (◌∷◌ 4) bs) (omega arith) (omega arith)
      ∙ ap (λ t. some (4 ∷ t))
          (rw (byte_at_range s 16 h, byte_at_range s 17 h) (sym (take-split 16 s 0 n)))

  -- For a string of bytes that the reader accepts, writing the address and the port that were read
  -- gives back the bytes that were read.
  pub addrport_to_socks5-socks5_to_addrport :
      (s : List ℕ) {n port : ℕ} {addr : List ℕ}
      → All (λ b. b < 256) s
      → socks5_to_addrport s ≡ some (n, addr, port)
      → addrport_to_socks5 api addr port ≡ some (take n s)
  addrport_to_socks5-socks5_to_addrport [] h e = unfold socks5_to_addrport in ground arith
  addrport_to_socks5-socks5_to_addrport (b ∷ s) h e = elim (read_cases b s e) [
    | inl (b1, long, n, text, p) ↦ rw (b1, n, text, p) (write_v4 s h.1 long)
    | inr (b4, long, n, text, p) ↦ rw (b4, n, text, p) (write_v6 s h.1 long)
  ]
