-- ===== src/Utils/Pbuf/Pool.antt =====
-- lwIP's pool of pbufs as what `str_to_pbuf` relies on.
use libn2t.Common.{
  ℕ, ◌*◌, ◌≡◌, ◌≢◌, ◌≤◌, refl, ap, ◌∙◌, inl, inr, List, [], ◌∷◌, ◌++◌, none, some, arith,
  append-nil, length, take, take-all, sym, ◌<◌, drop-all, Option-cases, u16,
}
use libn2t.Lwip.Pbuf.{Memory, pool, content, IsPacket, pbuf_alloc}
use libn2t.Lwip.Pbuf.Alloc.{
  AreElements, pbuf_alloc_lem, first_len, first_front, first_ref, pbuf_alloc-first_len,
  pbuf_alloc-first_front,
}
use libn2t.Lwip.Pbuf.Bytes.{pbuf_take}
use libn2t.Lwip.Pbuf.Bytes.Slices.{length-content, pbuf_take_lem, pbuf_take-first}
use libn2t.Utils.Pbuf.{
  Pbuf, PbufApi, PbufLaws, append_chain, append_chain_lem, pbuf_to_str, str_to_pbuf,
  pbuf_to_str-str_to_pbuf,
}

-- A write that an assertion ends leaves no chain to go on with.
unfoldable pub pool_api : Memory → PbufApi
pool_api m = record {
  pbuf_alloc = λ n. elim (pbuf_alloc 0 n pool m) [ none ↦ none | some (p, left) ↦ some p ];
  pbuf_take = λ p buf n. elim (pbuf_take p buf n) [ none ↦ [] | some q ↦ q ];
}

pub pbuf_to_str-content : (p : List Pbuf) → pbuf_to_str p ≡ content p
unfolding pbuf_to_str append_chain content
pbuf_to_str-content [] = refl
pbuf_to_str-content (p ∷ next) =
    append_chain_lem (take p.len p.payload) next
    ∙ ap (λ l. take p.len p.payload ++ l) (pbuf_to_str-content next)

module _ (m : Memory) (elements : AreElements m.pool) where
  pool_take :
      (n : ℕ) (buf : List ℕ) (p : List Pbuf) (left : Memory)
      → pbuf_alloc 0 n pool m ≡ some (p, left)
      → n < 65536
      → n ≤ length buf
      → (q : List Pbuf) × (pbuf_take p buf n ≡ some q) × (content q ≡ take n buf)
  pool_take n buf p left e small long =
      let (packet, len, ne) = (pbuf_alloc_lem 0 n m (omega arith) small elements).0 p left e in
      let (q, wrote, keeps, same, bytes) = pbuf_take_lem p buf n packet ne (omega arith) long in
      (
        q,
        wrote,
        bytes
            ∙ ap (λ l. take n buf ++ l)
                (drop-all n (content p) (omega (arith, length-content p packet)))
            ∙ append-nil (take n buf),
      )

  -- What the two fields of `pool_api` give.
  api_alloc :
      (n : ℕ) (p : List Pbuf)
      → (pool_api m).pbuf_alloc n ≡ some p
      → (left : Memory) × (pbuf_alloc 0 n pool m ≡ some (p, left))
  unfolding pool_api
  api_alloc n p e = elim (Option-cases (pbuf_alloc 0 n pool m)) [
    | inl failed ↦ absurd (ground arith)
    | inr ((p', left), given) ↦ (left, ground arith)
  ]

  api_alloc-none : (n : ℕ) → (pool_api m).pbuf_alloc n ≡ none → pbuf_alloc 0 n pool m ≡ none
  unfolding pool_api
  api_alloc-none n e = ground arith

  api_take :
      (n : ℕ) (buf : List ℕ) (p q : List Pbuf)
      → pbuf_take p buf n ≡ some q
      → (pool_api m).pbuf_take p buf n ≡ q
  unfolding pool_api
  api_take n buf p q e = ground arith

  -- The pool of lwIP meets what `str_to_pbuf` relies on.
  pub pool_api-PbufLaws : PbufLaws (pool_api m)
  pool_api-PbufLaws = record {
    take_lem = λ n buf p e small long.
        (let (left, given) = api_alloc n p e in
          let (q, wrote, bytes) = pool_take n buf p left given small long in
          ap pbuf_to_str (api_take n buf p q wrote) ∙ pbuf_to_str-content q ∙ bytes);
  }

  alloc_failed :
      (str : List ℕ)
      → str_to_pbuf (pool_api m) str ≡ none
      → (pool_api m).pbuf_alloc (u16 (length str)) ≡ none
  unfolding str_to_pbuf
  alloc_failed str h = ground arith

  -- As long as the elements left in the pool have more bytes than the packet, a packet of fewer than
  -- 2 ^ 16 bytes goes into a chain of pbufs, with no failed assertion, and is read out of it whole.
  pub str_to_pbuf-pool :
      (str : List ℕ)
      → length str < 65536
      → length str < 1516 * length m.pool
      → (p : List Pbuf) × (str_to_pbuf (pool_api m) str ≡ some p) × (pbuf_to_str p ≡ str)
  str_to_pbuf-pool str small enough = elim (Option-cases (str_to_pbuf (pool_api m) str)) [
    | inl failed ↦ absurd (given failed)
    | inr (p, e) ↦ (p, e, (pbuf_to_str-str_to_pbuf (pool_api m) pool_api-PbufLaws str e).1 small)
  ]
    where
      given : str_to_pbuf (pool_api m) str ≢ none
      given failed =
          (pbuf_alloc_lem 0 (u16 (length str)) m (omega arith) (omega arith) elements).1
            (omega arith) (api_alloc-none (u16 (length str)) (alloc_failed str failed))

  -- What the chain is: a packet whose first pbuf holds as many bytes as an element of the pool has,
  -- with no room in front and one reference.
  pub str_to_pbuf-IsPacket :
      (str : List ℕ) (p : List Pbuf) (k : ℕ)
      → length str < 65536
      → str_to_pbuf (pool_api m) str ≡ some p
      → k ≤ length str
      → k ≤ 1516
      → IsPacket p
        × (content p ≡ str)
        × (k ≤ first_len p)
        × (first_front p ≡ [])
        × (first_ref p ≡ 1)
  unfolding str_to_pbuf
  str_to_pbuf-IsPacket str p k small e h h' =
      elim (Option-cases ((pool_api m).pbuf_alloc (u16 (length str)))) [
        | inl failed ↦ absurd (ground arith)
        | inr (p', given') ↦
            let (left, given) = api_alloc (u16 (length str)) p' given' in
            let (packet, len, ne) =
              (pbuf_alloc_lem 0 (u16 (length str)) m (omega arith) (omega arith) elements).0 p' left
                given in
            let (q, wrote, packet', same, bytes) =
              pbuf_take_lem p' str (u16 (length str)) packet ne (omega (arith, len))
                (omega arith) in
            let (len_same, front_same, ref_same) =
              pbuf_take-first p' str (u16 (length str)) q wrote in
            let (front, ref) = pbuf_alloc-first_front (u16 (length str)) m p' left given in
            let is : q ≡ p = ground (arith, api_take (u16 (length str)) str p' q wrote) in
            rw (sym is) (
              packet',
              bytes
                  ∙ ap (λ l. take (u16 (length str)) str ++ l)
                      (drop-all (u16 (length str)) (content p')
                        (omega (arith, len, length-content p' packet)))
                  ∙ append-nil (take (u16 (length str)) str)
                  ∙ take-all (u16 (length str)) str (omega arith),
              rw len_same (
                  pbuf_alloc-first_len (u16 (length str)) k m p' left given (omega arith)
                    (omega arith) h'),
              front_same ∙ front,
              ref_same ∙ ref,
            )
      ]
