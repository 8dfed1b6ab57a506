-- ===== src/Utils/Socks5.antt =====
-- `Utils::addrport_to_socks5` and `Utils::socks5_to_addrport` of src/n2t/utils.cpp, and the part of
-- boost::asio::ip::address that they and their callers use.
pub mod RoundTrip
pub mod Decode
use libn2t.Common.{
  ℕ, ◌+◌, ◌*◌, ◌/◌, ◌%◌, ◌<◌, ◌≡◌, ◌++◌, Bool, true, false, List, [], ◌∷◌, map, Option, none, some,
  length, get_or, take, drop, All, ltb, ◌==◌, if◌then◌else◌, u8,
}
use libn2t.Utils.Text.{to_string, hex_digit}

-- boost::asio::ip::address: `from_string` throws (`none`) on a text that is no address.
pub record AddressApi : Type 1 where
  pub Address : Type 0
  pub from_string : List ℕ → Option Address
  pub is_v4 : Address → Bool
  pub v4_bytes : Address → List ℕ
  pub v6_bytes : Address → List ℕ

-- Decimal bytes with dots between them.
abbrev pub dotted : ℕ → ℕ → ℕ → ℕ → List ℕ
dotted a b c d = to_string a ++ b'.' ∷ (to_string b ++ b'.' ∷ (to_string c ++ b'.' ∷ to_string d))

-- The text of the format "%02x%02x:%02x%02x:…" for a list of bytes.
unfoldable pub hex_text : List ℕ → List ℕ
hex_text [] = []
hex_text (a ∷ []) = hex_digit (a / 16) ∷ hex_digit (a % 16) ∷ []
hex_text (a ∷ b ∷ []) =
    hex_digit (a / 16) ∷ hex_digit (a % 16) ∷ hex_digit (b / 16) ∷ hex_digit (b % 16) ∷ []
hex_text (a ∷ b ∷ c ∷ rest) =
    hex_digit (a / 16)
    ∷ hex_digit (a % 16)
    ∷ hex_digit (b / 16)
    ∷ hex_digit (b % 16)
    ∷ b':'
    ∷ hex_text (c ∷ rest)

-- What the library relies on: the arrays have 4 and 16 bytes, and a text in either of the two
-- formats is read as the address with those bytes.
pub record AddressLaws (api : AddressApi) : Type 0 where
  pub v4_length : (x : api.Address) → length (api.v4_bytes x) ≡ 4
  pub v6_length : (x : api.Address) → length (api.v6_bytes x) ≡ 16
  pub v4_range : (x : api.Address) → All (λ b. b < 256) (api.v4_bytes x)
  pub v6_range : (x : api.Address) → All (λ b. b < 256) (api.v6_bytes x)
  pub v4_text :
      (a b c d : ℕ)
      → a < 256
      → b < 256
      → c < 256
      → d < 256
      → (x : api.Address) × (api.from_string (dotted a b c d) ≡ some x)
        × (api.is_v4 x ≡ true)
        × (api.v4_bytes x ≡ a ∷ b ∷ c ∷ d ∷ [])
  pub v6_text :
      (bs : List ℕ)
      → length bs ≡ 16
      → All (λ b. b < 256) bs
      → (x : api.Address) × (api.from_string (hex_text bs) ≡ some x)
        × (api.is_v4 x ≡ false)
        × (api.v6_bytes x ≡ bs)

-- The type byte and the bytes of an address.
unfoldable pub address_bytes : (api : AddressApi) → api.Address → List ℕ
address_bytes api a =
    if api.is_v4 a then 1 ∷ take 4 (api.v4_bytes a) else 4 ∷ take 16 (api.v6_bytes a)

-- `none` is the exception of `from_string`.
unfoldable pub addrport_to_socks5 : AddressApi → List ℕ → ℕ → Option (List ℕ)
unfolding address_bytes
addrport_to_socks5 api addr port = elim (api.from_string addr) [
  | none ↦ none
  | some a ↦ some (address_bytes api a ++ u8 (port / 256) ∷ u8 (port % 256) ∷ [])
]

-- The byte at a position, as a uint8_t.
abbrev pub byte_at : List ℕ → ℕ → ℕ
byte_at s i = u8 (get_or s i 0)

-- The number of bytes read with the address and the port; `none` stands for the result -1.
unfoldable pub socks5_to_addrport : List ℕ → Option (ℕ × List ℕ × ℕ)
socks5_to_addrport s =
    if length s == 0
    then none
    else if get_or s 0 0 == 1
    then (if ltb (length s) 7
        then none
        else some (
          7,
          dotted (byte_at s 1) (byte_at s 2) (byte_at s 3) (byte_at s 4),
          byte_at s 5 * 256 + byte_at s 6,
        ))
    else if get_or s 0 0 == 4
    then (if ltb (length s) 19
        then none
        else some (19, hex_text (map u8 (take 16 (drop 1 s))), byte_at s 17 * 256 + byte_at s 18))
    else none
