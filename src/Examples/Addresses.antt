-- ===== src/Examples/Addresses.antt =====
-- An address parser for the two text formats that the library writes, to show that what is assumed
-- of boost::asio::ip::address can be met.
use libn2t.Common.{
  ℕ, zero, suc, ◌+◌, ◌-◌, ◌*◌, ◌/◌, ◌%◌, ◌<◌, ◌≡◌, refl, ap, ap₂, ◌∙◌, Bool, true, false, List, [],
  ◌∷◌, ◌++◌, map, Option, none, some, arith, length, length-map, All, ltb, ◌==◌, if◌then◌else◌, u8,
}
use libn2t.Utils.Text.{to_string, hex_digit}
use libn2t.Utils.Socks5.{AddressApi, AddressLaws, dotted, hex_text}
use libn2t.Utils.Socks5.RoundTrip.{map-u8}

-- An address is its four bytes or its sixteen.
pub data TextAddress : Type 0 where
  four : ℕ → ℕ → ℕ → ℕ → TextAddress
  six : List ℕ → TextAddress

unfoldable pub pad : ℕ → List ℕ → List ℕ
pad zero bs = []
pad (suc n) [] = 0 ∷ pad n []
pad (suc n) (b ∷ bs) = b ∷ pad n bs

abbrev pub hex_value : ℕ → ℕ
hex_value c = if ltb c 58 then c - 48 else c - 87

abbrev pub hex_pair : ℕ → ℕ → ℕ
hex_pair a b = hex_value a * 16 + hex_value b

unfoldable pub unhex : List ℕ → List ℕ
unhex (a ∷ b ∷ c ∷ d ∷ e ∷ rest) = hex_pair a b ∷ hex_pair c d ∷ unhex rest
unhex (a ∷ b ∷ c ∷ d ∷ []) = hex_pair a b ∷ hex_pair c d ∷ []
unhex _ = []

unfoldable pub scan : ℕ → List ℕ → List ℕ
scan acc [] = acc ∷ []
scan acc (c ∷ cs) = elim (c == b'.') [
  | true ↦ acc ∷ scan 0 cs
  | false ↦ scan (acc * 10 + (c - 48)) cs
]

unfoldable pub has_colon : List ℕ → Bool
has_colon [] = false
has_colon (c ∷ cs) = let rest = has_colon cs in (if c == b':' then true else rest)

unfoldable pub of_parts : List ℕ → Option TextAddress
of_parts (a ∷ b ∷ c ∷ d ∷ []) = some (four a b c d)
of_parts _ = none

unfoldable pub parse : List ℕ → Option TextAddress
unfolding unhex scan has_colon of_parts
parse text = if has_colon text then some (six (unhex text)) else of_parts (scan 0 text)

abbrev pub is_four : TextAddress → Bool
is_four (four a b c d) = true
is_four (six bs) = false

abbrev pub four_bytes : TextAddress → List ℕ
four_bytes (four a b c d) = u8 a ∷ u8 b ∷ u8 c ∷ u8 d ∷ []
four_bytes (six bs) = 0 ∷ 0 ∷ 0 ∷ 0 ∷ []

unfoldable pub six_bytes : TextAddress → List ℕ
unfolding pad
six_bytes (four a b c d) = map u8 (pad 16 [])
six_bytes (six bs) = map u8 (pad 16 bs)

unfoldable pub text_api : AddressApi
unfolding parse six_bytes
text_api = record {
  Address = TextAddress;
  from_string = parse;
  is_v4 = is_four;
  v4_bytes = four_bytes;
  v6_bytes = six_bytes;
}

-- The address 1.2.3.4.
unfoldable pub four_address : text_api.Address
unfolding text_api
four_address = four 1 2 3 4

length-pad : (n : ℕ) (bs : List ℕ) → length (pad n bs) ≡ n
unfolding pad
length-pad zero bs = refl
length-pad (suc n) [] = ap suc (length-pad n [])
length-pad (suc n) (b ∷ bs) = ap suc (length-pad n bs)

pad_lem : (n : ℕ) (bs : List ℕ) → length bs ≡ n → pad n bs ≡ bs
unfolding pad
pad_lem zero [] h = refl
pad_lem zero (b ∷ bs) h = absurd (omega arith)
pad_lem (suc n) [] h = absurd (omega arith)
pad_lem (suc n) (b ∷ bs) h = ap (◌∷◌ b) (pad_lem n bs (omega arith))

u8_range : (bs : List ℕ) → All (λ b. b < 256) (map u8 bs)
u8_range [] = tt
u8_range (b ∷ bs) = (omega arith, u8_range bs)

scan-to_string :
    (n : ℕ) (rest : List ℕ) → n < 256 → scan 0 (to_string n ++ b'.' ∷ rest) ≡ n ∷ scan 0 rest
unfolding scan to_string
scan-to_string n rest h = ground arith

scan-to_string_end : (n : ℕ) → n < 256 → scan 0 (to_string n) ≡ n ∷ []
unfolding scan to_string
scan-to_string_end n h = ground arith

has_colon-to_string :
    (n : ℕ) (rest : List ℕ) → n < 256 → has_colon (to_string n ++ rest) ≡ has_colon rest
unfolding has_colon to_string
has_colon-to_string n rest h = ground arith

hex_pair_lem : (x : ℕ) → x < 256 → hex_pair (hex_digit (x / 16)) (hex_digit (x % 16)) ≡ x
hex_pair_lem x h = ground arith

unhex-hex_text :
    (k : ℕ) (bs : List ℕ)
    → length bs ≡ suc k + suc k
    → All (λ b. b < 256) bs
    → unhex (hex_text bs) ≡ bs
unfolding unhex hex_text
unhex-hex_text k [] n h = absurd (omega arith)
unhex-hex_text k (a ∷ []) n h = absurd (omega arith)
unhex-hex_text zero (a ∷ b ∷ []) n h =
    ap₂ (λ x y. x ∷ y ∷ []) (hex_pair_lem a h.0) (hex_pair_lem b h.1.0)
unhex-hex_text (suc k) (a ∷ b ∷ []) n h = absurd (omega arith)
unhex-hex_text zero (a ∷ b ∷ c ∷ bs) n h = absurd (omega arith)
unhex-hex_text (suc k) (a ∷ b ∷ c ∷ bs) n h =
    ap₂ (λ x l. x ∷ l) (hex_pair_lem a h.0)
      (ap₂ (λ x l. x ∷ l) (hex_pair_lem b h.1.0) (unhex-hex_text k (c ∷ bs) (omega arith) h.1.1))

or_true : (b x : Bool) → x ≡ true → (if b then true else x) ≡ true
or_true true x h = refl
or_true false x h = h

has_colon-hex_text :
    (k : ℕ) (bs : List ℕ) → length bs ≡ suc (suc (suc k)) → has_colon (hex_text bs) ≡ true
unfolding has_colon hex_text
has_colon-hex_text k [] h = absurd (omega arith)
has_colon-hex_text k (a ∷ []) h = absurd (omega arith)
has_colon-hex_text k (a ∷ b ∷ []) h = absurd (omega arith)
has_colon-hex_text k (a ∷ b ∷ c ∷ bs) h = or_true (hex_digit (a / 16) == 58) _ (
    or_true (hex_digit (a % 16) == 58) _
      (or_true (hex_digit (b / 16) == 58) _ (or_true (hex_digit (b % 16) == 58) _ refl)))

no_colon : (n : ℕ) → n < 256 → has_colon (to_string n) ≡ false
unfolding has_colon to_string
no_colon n h = ground arith

no_colon-dotted :
    (a b c d : ℕ) → a < 256 → b < 256 → c < 256 → d < 256 → has_colon (dotted a b c d) ≡ false
no_colon-dotted a b c d ha hb hc hd =
    has_colon-to_string a _ ha
    ∙ dot (to_string b ++ b'.' ∷ (to_string c ++ b'.' ∷ to_string d))
    ∙ has_colon-to_string b _ hb
    ∙ dot (to_string c ++ b'.' ∷ to_string d)
    ∙ has_colon-to_string c _ hc
    ∙ dot (to_string d)
    ∙ no_colon d hd
  where
    dot : (l : List ℕ) → has_colon (b'.' ∷ l) ≡ has_colon l
    dot l = unfold has_colon in refl

scan-dotted :
    (a b c d : ℕ)
    → a < 256
    → b < 256
    → c < 256
    → d < 256
    → scan 0 (dotted a b c d) ≡ a ∷ b ∷ c ∷ d ∷ []
scan-dotted a b c d ha hb hc hd =
    scan-to_string a _ ha
    ∙ ap (◌∷◌ a) (
        scan-to_string b _ hb
        ∙ ap (◌∷◌ b) (scan-to_string c _ hc ∙ ap (◌∷◌ c) (scan-to_string_end d hd)))

parse-dotted :
    (a b c d : ℕ)
    → a < 256
    → b < 256
    → c < 256
    → d < 256
    → parse (dotted a b c d) ≡ some (four a b c d)
parse-dotted a b c d ha hb hc hd =
    unfold parse in rw (no_colon-dotted a b c d ha hb hc hd, scan-dotted a b c d ha hb hc hd) refl

length-four_bytes : (x : TextAddress) → length (four_bytes x) ≡ 4
length-four_bytes (four a b c d) = refl
length-four_bytes (six bs) = refl

length-six_bytes : (x : TextAddress) → length (six_bytes x) ≡ 16
unfolding six_bytes
length-six_bytes (four a b c d) = refl
length-six_bytes (six bs) = length-map u8 (pad 16 bs) ∙ length-pad 16 bs

four_bytes_range : (x : TextAddress) → All (λ b. b < 256) (four_bytes x)
four_bytes_range (four a b c d) = omega arith
four_bytes_range (six bs) = omega arith

six_bytes_range : (x : TextAddress) → All (λ b. b < 256) (six_bytes x)
unfolding six_bytes
six_bytes_range (four a b c d) = u8_range (pad 16 [])
six_bytes_range (six bs) = u8_range (pad 16 bs)

parse-hex_text :
    (bs : List ℕ) → length bs ≡ 16 → All (λ b. b < 256) bs → parse (hex_text bs) ≡ some (six bs)
parse-hex_text bs n h =
    unfold parse in rw (has_colon-hex_text 13 bs n, unhex-hex_text 7 bs n h) refl

pub text_laws : AddressLaws text_api
unfolding text_api
text_laws = record {
  v4_length = length-four_bytes;
  v6_length = length-six_bytes;
  v4_range = four_bytes_range;
  v6_range = six_bytes_range;
  v4_text =
      λ a b c d ha hb hc hd. (four a b c d, parse-dotted a b c d ha hb hc hd, refl, ground arith);
  v6_text = λ bs n h. (six bs, parse-hex_text bs n h, refl, rw (pad_lem 16 bs n) (map-u8 bs h));
}
