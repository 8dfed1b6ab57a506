-- ===== src/Utils/Socks5/RoundTrip.antt =====
-- What `addrport_to_socks5` writes, `socks5_to_addrport` reads back.
use mathlib.Core.Bool.{false≢true}
use libn2t.Common.{
  ℕ, suc, ◌/◌, ◌%◌, ◌<◌, ◌≡◌, refl, sym, ap, ◌∙◌, ◌++◌, true, false, List, [], ◌∷◌, map, some,
  append_assoc, arith, inl, inr, length, All, length-append, take-append_eq, get_or-append,
  take-all, Bool-cases, u8,
}
use libn2t.Utils.Socks5.{
  AddressApi, AddressLaws, dotted, hex_text, address_bytes, addrport_to_socks5, socks5_to_addrport,
}

pub map-u8 : (bs : List ℕ) → All (λ b. b < 256) bs → map u8 bs ≡ bs
map-u8 [] h = refl
map-u8 (b ∷ bs) h = ground (arith, map-u8 bs)

read_v4 :
    (bs : List ℕ) (port : ℕ) (rest : List ℕ)
    → length bs ≡ 4
    → All (λ b. b < 256) bs
    → port < 65536
    → (a b c d : ℕ) × (bs ≡ a ∷ b ∷ c ∷ d ∷ [])
      × (a < 256)
      × (b < 256)
      × (c < 256)
      × (d < 256)
      × (socks5_to_addrport (1 ∷ (bs ++ u8 (port / 256) ∷ u8 (port % 256) ∷ rest))
          ≡ some (7, dotted a b c d, port))
unfolding socks5_to_addrport
read_v4 (a ∷ b ∷ c ∷ d ∷ []) port rest n h p =
    (a, b, c, d, refl, h.0, h.1.0, h.1.1.0, h.1.1.1.0, ground arith)
read_v4 [] port rest n h p = absurd (omega arith)
read_v4 (a ∷ []) port rest n h p = absurd (omega arith)
read_v4 (a ∷ b ∷ []) port rest n h p = absurd (omega arith)
read_v4 (a ∷ b ∷ c ∷ []) port rest n h p = absurd (omega arith)
read_v4 (a ∷ b ∷ c ∷ d ∷ e ∷ bs) port rest n h p = absurd (omega arith)

read_v6 :
    (bs : List ℕ) (port : ℕ) (rest : List ℕ)
    → length bs ≡ 16
    → All (λ b. b < 256) bs
    → port < 65536
    → socks5_to_addrport (4 ∷ (bs ++ u8 (port / 256) ∷ u8 (port % 256) ∷ rest))
      ≡ some (19, hex_text bs, port)
unfolding socks5_to_addrport
read_v6 bs port rest n h p = ground (
  arith,
  length-append bs (u8 (port / 256) ∷ u8 (port % 256) ∷ rest),
  take-append_eq 16 bs (u8 (port / 256) ∷ u8 (port % 256) ∷ rest) n,
  get_or-append 16 bs (u8 (port / 256)) (u8 (port % 256)) rest 0 n,
  map-u8 bs h,
)

-- Two addresses of one family with the same bytes.
abbrev pub SameAddress : (api : AddressApi) → api.Address → api.Address → Type 0
SameAddress api x y =
    (api.is_v4 x ≡ api.is_v4 y)
    × (api.is_v4 x ≡ true → api.v4_bytes x ≡ api.v4_bytes y)
    × (api.is_v4 x ≡ false → api.v6_bytes x ≡ api.v6_bytes y)

append_cons_pair :
    (xs : List ℕ) (a b : ℕ) (ys : List ℕ) → (xs ++ a ∷ b ∷ []) ++ ys ≡ xs ++ a ∷ b ∷ ys
append_cons_pair xs a b ys = append_assoc xs (a ∷ b ∷ []) ys

length_with_port :
    (bs : List ℕ) (hi lo : ℕ) {n : ℕ}
    → length bs ≡ n
    → suc (suc (suc n)) ≡ suc (length (bs ++ hi ∷ lo ∷ []))
length_with_port bs hi lo h = omega (arith, length-append bs (hi ∷ lo ∷ []))

module _ (api : AddressApi) (laws : AddressLaws api) where
  -- What the reader makes of the bytes written for an address.
  abbrev pub Reads : api.Address → ℕ → List ℕ → List ℕ → Type 0
  Reads x port e rest =
      (addr : List ℕ) × (y : api.Address) × (socks5_to_addrport (e ++ rest)
        ≡ some (length e, addr, port))
      × (api.from_string addr ≡ some y)
      × SameAddress api x y

  read_address_v4 :
      (x : api.Address) (port : ℕ) (rest : List ℕ)
      → port < 65536
      → api.is_v4 x ≡ true
      → Reads x port (1 ∷ (api.v4_bytes x ++ u8 (port / 256) ∷ u8 (port % 256) ∷ [])) rest
  read_address_v4 x port rest p e =
      let (a, b, c, d, bs, ha, hb, hc, hd, read) =
        read_v4 (api.v4_bytes x) port rest (laws.v4_length x) (laws.v4_range x) p in
      let (y, parse, v, same) = laws.v4_text a b c d ha hb hc hd in
      (
        dotted a b c d,
        y,
        rw (append_cons_pair (api.v4_bytes x) (u8 (port / 256)) (u8 (port % 256)) rest) (
            read
            ∙ ap (λ n. some (n, dotted a b c d, port))
                (length_with_port (api.v4_bytes x) _ _ (laws.v4_length x))),
        parse,
        (e ∙ sym v, (λ _. bs ∙ sym same), λ f. absurd (false≢true (sym f ∙ e))),
      )

  read_address_v6 :
      (x : api.Address) (port : ℕ) (rest : List ℕ)
      → port < 65536
      → api.is_v4 x ≡ false
      → Reads x port (4 ∷ (api.v6_bytes x ++ u8 (port / 256) ∷ u8 (port % 256) ∷ [])) rest
  read_address_v6 x port rest p e =
      let (y, parse, v, same) =
        laws.v6_text (api.v6_bytes x) (laws.v6_length x) (laws.v6_range x) in
      (
        hex_text (api.v6_bytes x),
        y,
        rw (append_cons_pair (api.v6_bytes x) (u8 (port / 256)) (u8 (port % 256)) rest) (
            read_v6 (api.v6_bytes x) port rest (laws.v6_length x) (laws.v6_range x) p
            ∙ ap (λ n. some (n, hex_text (api.v6_bytes x), port))
                (length_with_port (api.v6_bytes x) _ _ (laws.v6_length x))),
        parse,
        (e ∙ sym v, (λ t. absurd (false≢true (sym e ∙ t))), λ _. sym same),
      )

  pub address_bytes_v4 :
      (x : api.Address) → api.is_v4 x ≡ true → address_bytes api x ≡ 1 ∷ api.v4_bytes x
  unfolding address_bytes
  address_bytes_v4 x e = rw (e, take-all 4 (api.v4_bytes x) (omega (arith, laws.v4_length x)))

  pub address_bytes_v6 :
      (x : api.Address) → api.is_v4 x ≡ false → address_bytes api x ≡ 4 ∷ api.v6_bytes x
  unfolding address_bytes
  address_bytes_v6 x e = rw (e, take-all 16 (api.v6_bytes x) (omega (arith, laws.v6_length x)))

  read_address :
      (x : api.Address) (port : ℕ) (rest : List ℕ)
      → port < 65536
      → Reads x port (address_bytes api x ++ u8 (port / 256) ∷ u8 (port % 256) ∷ []) rest
  read_address x port rest p = elim (Bool-cases (api.is_v4 x)) [
    | inl e ↦ rw (address_bytes_v4 x e) (read_address_v4 x port rest p e)
    | inr e ↦ rw (address_bytes_v6 x e) (read_address_v6 x port rest p e)
  ]

  -- For a text that the address parser accepts, a port of 16 bits and any bytes behind: the writer
  -- succeeds, and the reader takes back exactly the bytes written, the same port, and a text of an
  -- address of the same family with the same bytes.
  pub socks5_to_addrport-addrport_to_socks5 :
      (addr : List ℕ) (x : api.Address) (port : ℕ) (rest : List ℕ)
      → api.from_string addr ≡ some x
      → port < 65536
      → (e : List ℕ) × (addrport_to_socks5 api addr port ≡ some e) × Reads x port e rest
  unfolding addrport_to_socks5
  socks5_to_addrport-addrport_to_socks5 addr x port rest h p = (
    address_bytes api x ++ u8 (port / 256) ∷ u8 (port % 256) ∷ [],
    rw (h, addrport_to_socks5),
    read_address x port rest p,
  )
