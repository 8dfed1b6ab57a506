-- ===== src/Utils/Pbuf.antt =====
-- `Utils::str_to_pbuf` and `Utils::pbuf_to_str` of src/n2t/utils.cpp. A `pbuf *` is the chain that it
-- points to: NULL is the empty chain, and the pbufs are those of src/lwip/src/core/pbuf.c.
pub mod Pool
pub use libn2t.Lwip.Pbuf.{Pbuf}
use libn2t.Common.{
  ℕ, ◌≡◌, ◌≤◌, ◌<◌, refl, sym, ap, ◌∙◌, inl, inr, Option-cases, List, [], ◌∷◌, ◌++◌, Option, none,
  some, arith, length, take, take-all, u16, append_assoc, append-nil,
}

-- lwIP's allocation of a chain of a total length, and its copy of the first bytes of a buffer.
pub record PbufApi : Type 0 where
  pub pbuf_alloc : ℕ → Option (List Pbuf)
  pub pbuf_take : List Pbuf → List ℕ → ℕ → List Pbuf

append_chain : List ℕ → List Pbuf → List ℕ
append_chain str [] = str
append_chain str (p ∷ next) = append_chain (str ++ take p.len p.payload) next

unfoldable pub pbuf_to_str : List Pbuf → List ℕ
unfolding append_chain
pbuf_to_str p = append_chain [] p

-- A chain of the requested length holds the bytes that are copied into it.
pub record PbufLaws (api : PbufApi) : Type 0 where
  pub take_lem :
      (n : ℕ) (buf : List ℕ) (p : List Pbuf)
      → api.pbuf_alloc n ≡ some p
      → n < 65536
      → n ≤ length buf
      → pbuf_to_str (api.pbuf_take p buf n) ≡ take n buf

-- The length is cast to 16 bits; `none` is NULL.
unfoldable pub str_to_pbuf : PbufApi → List ℕ → Option (List Pbuf)
str_to_pbuf api str = elim (api.pbuf_alloc (u16 (length str))) [
  | none ↦ none
  | some p ↦ some (api.pbuf_take p str (u16 (length str)))
]

append_chain_lem : (str : List ℕ) (p : List Pbuf) → append_chain str p ≡ str ++ append_chain [] p
unfolding append_chain
append_chain_lem str [] = sym (append-nil str)
append_chain_lem str (p ∷ next) =
    append_chain_lem (str ++ take p.len p.payload) next
    ∙ append_assoc str (take p.len p.payload) (append_chain [] next)
    ∙ ap (◌++◌ str) (sym (append_chain_lem (take p.len p.payload) next))

-- The text of a chain is that of its first part and that of the rest.
pub pbuf_to_str-append : (p q : List Pbuf) → pbuf_to_str (p ++ q) ≡ pbuf_to_str p ++ pbuf_to_str q
unfolding pbuf_to_str
pbuf_to_str-append [] q = refl
pbuf_to_str-append (x ∷ p) q =
    append_chain_lem (take x.len x.payload) (p ++ q)
    ∙ ap (◌++◌ (take x.len x.payload)) (pbuf_to_str-append p q)
    ∙ sym (append_assoc (take x.len x.payload) (append_chain [] p) (append_chain [] q))
    ∙ ap (λ t. t ++ append_chain [] q) (sym (append_chain_lem (take x.len x.payload) p))

-- A packet that goes into a buffer and comes out again is cut to its length modulo 2 ^ 16; a packet
-- of fewer than 2 ^ 16 bytes comes out whole.
pub pbuf_to_str-str_to_pbuf :
    (api : PbufApi)
    → PbufLaws api
    → (str : List ℕ) {p : List Pbuf} → str_to_pbuf api str ≡ some p
    → (pbuf_to_str p ≡ take (u16 (length str)) str) × (length str < 65536 → pbuf_to_str p ≡ str)
unfolding str_to_pbuf
pbuf_to_str-str_to_pbuf api laws str h = elim (Option-cases (api.pbuf_alloc (u16 (length str)))) [
  | inl e ↦ ground arith
  | inr (q, e) ↦ (
    ground (arith, laws.take_lem (u16 (length str)) str q e (omega arith) (omega arith)),
    λ small. ground (
      arith,
      laws.take_lem (u16 (length str)) str q e (omega arith) (omega arith),
      take-all (u16 (length str)) str (omega arith),
    ),
  )
]
