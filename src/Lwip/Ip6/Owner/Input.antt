-- ===== src/Lwip/Ip6/Owner/Input.antt =====
-- `ip6_input` returns for every packet.
use libn2t.Common.{
  ℕ, suc, ◌+◌, ◌-◌, ◌/◌, ◌≡◌, ◌≢◌, ◌≤◌, inl, inr, ◌∙◌, Bool, true, false, List, [], ◌∷◌, Option,
  none, some, ltb, leb, ◌||◌, ◌==◌, u16, arith, Bool-cases, Option-cases,
}
use libn2t.Lwip.Addresses.{Netif}
use libn2t.Lwip.Pbuf.{Pbuf, total, IsPacket, pbuf_free}
use libn2t.Lwip.Pbuf.Alloc.{first_len}
use libn2t.Lwip.Pbuf.Headers.{is_contiguous}
use libn2t.Lwip.Pbuf.Chains.{head_tot_len, pbuf_realloc, realloc_loop}
use libn2t.Lwip.Pbuf.Chains.Content.{pbuf_realloc_lem}
use libn2t.Lwip.Udp.{Udp}
use libn2t.Lwip.Udp.Input.{byte, word}
use libn2t.Lwip.Ip.{IpCall}
use libn2t.Lwip.Ip6.{address6}
use libn2t.Lwip.Ip6.Input.{from_header, refused_addresses, unspecified, ip6_input}
use libn2t.Lwip.Ip6.Ending.{has_memory}
use libn2t.Lwip.Ip6.Owner.{Returns, IsOwned, freed}
use libn2t.Lwip.Ip6.Owner.Rounds.{IsFragmentBehind, from_header-Returns}

-- The first pbuf of a packet that is cut to 40 bytes or more.
loop-first :
    (p : Pbuf) (next : List Pbuf) (shrink n : ℕ) (q : List Pbuf)
    → realloc_loop shrink n (p ∷ next) ≡ some q
    → 40 ≤ n
    → 40 ≤ p.len
    → (has_memory q ≡ is_contiguous p.type_internal) × (40 ≤ first_len q)
unfolding realloc_loop
loop-first p [] shrink n q e h k = ground arith
loop-first p (r ∷ more) shrink n q e h k = ground (
  arith,
  Option-cases (realloc_loop shrink (n - p.len) (r ∷ more)),
  Option-cases (pbuf_free (r ∷ more)),
)

realloc-first :
    (p : Pbuf) (next : List Pbuf) (n : ℕ) (q : List Pbuf)
    → pbuf_realloc (p ∷ next) n ≡ some q
    → 40 ≤ n
    → 40 ≤ p.len
    → (has_memory q ≡ is_contiguous p.type_internal) × (40 ≤ first_len q)
unfolding pbuf_realloc
realloc-first p next n q e h k = elim (Bool-cases (leb p.tot_len n)) [
  | inl whole ↦ ground arith
  | inr cut ↦ loop-first p next (p.tot_len - n) n q (ground arith) h k
]

-- The packet, cut to its length, is a fragment.
abbrev pub IsFragmentOf : List Pbuf → Type 0
IsFragmentOf p =
    (q : List Pbuf) × (pbuf_realloc p (u16 (40 + word p 4)) ≡ some q)
    × IsFragmentBehind (address6 p 24) q

kept_cut :
    (p q : List Pbuf) (r : Option (List IpCall × Udp))
    → pbuf_realloc p (u16 (40 + word p 4)) ≡ some q
    → Returns (IsFragmentBehind (address6 p 24) q) r
    → Returns (IsFragmentOf p) r
kept_cut p q r cut (calls, t, e, inl (part, nobody)) = (calls, t, e, inl ((q, cut, part), nobody))
kept_cut p q r cut (calls, t, e, inr owned) = (calls, t, e, inr owned)

module _ (odd : Pbuf → Bool) (ip6_reass : ℕ → List Pbuf → Option (List Pbuf)) (rounds : ℕ)
    (netif : Netif) where
  steps-Returns :
      (Reason : Type 0) (p q : List Pbuf) (s : Udp)
      → (ltb (first_len p) 40 || ltb (head_tot_len p) (40 + word p 4)) ≡ false
      → pbuf_realloc p (u16 (40 + word p 4)) ≡ some q
      → Returns Reason (from_header odd ip6_reass rounds netif (address6 p 8) (address6 p 24) q s)
      → Returns Reason (ip6_input odd ip6_reass rounds netif p s)
  unfolding ip6_input
  steps-Returns Reason p q s fits cut next = elim (Bool-cases (byte p 0 / 16 == 6)) [
    | inr other ↦ rw other (freed Reason p s)
    | inl six ↦ elim (Bool-cases (refused_addresses (address6 p 8) (address6 p 24))) [
      | inl refused ↦ rw six (rw fits (rw cut (rw refused (freed Reason q s))))
      | inr fine ↦ elim (Bool-cases (unspecified (address6 p 8) (address6 p 24))) [
        | inl nobody ↦ rw six (rw fits (rw cut (rw fine (rw nobody (freed Reason q s)))))
        | inr somebody ↦ rw six (rw fits (rw cut (rw fine (rw somebody (next)))))
      ]
    ]
  ]

  short-Returns :
      (Reason : Type 0) (p : List Pbuf) (s : Udp)
      → (ltb (first_len p) 40 || ltb (head_tot_len p) (40 + word p 4)) ≡ true
      → Returns Reason (ip6_input odd ip6_reass rounds netif p s)
  unfolding ip6_input
  short-Returns Reason p s short = elim (Bool-cases (byte p 0 / 16 == 6)) [
    | inr other ↦ rw other (freed Reason p s)
    | inl six ↦ rw six (rw short (freed Reason p s))
  ]

module _ (head : Pbuf) (next : List Pbuf) (packet : IsPacket (head ∷ next))
    (fits : (ltb head.len 40 || ltb head.tot_len (40 + word (head ∷ next) 4)) ≡ false) where
  first_long : 40 ≤ head.len
  first_long = ground (arith, fits)

  whole : 40 + word (head ∷ next) 4 ≤ head.tot_len
  whole = ground (arith, fits)

  at_least : 40 ≤ u16 (40 + word (head ∷ next) 4)
  at_least = omega (arith, whole, packet.1)

  enough : u16 (40 + word (head ∷ next) 4) ≤ total (head ∷ next)
  unfolding total
  enough = omega (arith, whole, packet.1, packet.0)

-- `ip6_input` returns, and what it does with the packet has one of the forms of `Returns`.
ip6_input-Returns :
    (odd : Pbuf → Bool) (ip6_reass : ℕ → List Pbuf → Option (List Pbuf)) (rounds : ℕ)
    (netif : Netif) (head : Pbuf) (next : List Pbuf) (s : Udp)
    → ((len : ℕ) (p : List Pbuf) → ip6_reass len p ≡ none)
    → IsPacket (head ∷ next)
    → is_contiguous head.type_internal ≡ true
    → Returns
        (IsFragmentOf (head ∷ next))
        (ip6_input odd ip6_reass (suc rounds) netif (head ∷ next) s)
ip6_input-Returns odd ip6_reass rounds netif head next s kept packet memory =
    elim (Bool-cases
      (ltb (first_len (head ∷ next)) 40 || ltb head.tot_len (40 + word (head ∷ next) 4))) [
        | inl short ↦
            short-Returns odd ip6_reass (suc rounds) netif (IsFragmentOf (head ∷ next))
              (head ∷ next) s short
        | inr fits ↦
            let (q, cut, packet', size, bytes) =
              pbuf_realloc_lem (head ∷ next) (u16 (40 + word (head ∷ next) 4)) packet
                (λ e. ground arith) (enough head next packet fits) in
            let (memory', long) =
              realloc-first head next (u16 (40 + word (head ∷ next) 4)) q cut
                (at_least head next packet fits) (first_long head next packet fits) in
            steps-Returns odd ip6_reass (suc rounds) netif (IsFragmentOf (head ∷ next))
              (head ∷ next) q s fits cut
              (kept_cut (head ∷ next) q _ cut (
                from_header-Returns odd ip6_reass rounds kept netif (address6 (head ∷ next) 8)
                  (address6 (head ∷ next) 24) q s packet' (memory' ∙ memory) long))
      ]

-- What is owned, a call is made for.
IsOwned-calls : (calls : List IpCall) → IsOwned calls → calls ≢ []
IsOwned-calls calls (inl (q, inl e)) none_made = ground arith
IsOwned-calls calls (inl (q, inr (c, e))) none_made = ground arith
IsOwned-calls calls (inr (inl (cs, e))) none_made = ground arith
IsOwned-calls calls (inr (inr (inl (ip, q, e)))) none_made = ground arith
IsOwned-calls calls (inr (inr (inr (ip, q, e)))) none_made = ground arith

-- As long as `ip6_reass` keeps each fragment that it gets, `ip6_input` returns for every packet whose
-- first pbuf has its memory behind its structure, however its bytes are chosen, and no
-- assertion fails, neither in the walk over its headers nor in UDP; and only for a fragment, which
-- `ip6_reass` has, is no call made.
pub ip6_input_lem :
    (odd : Pbuf → Bool) (ip6_reass : ℕ → List Pbuf → Option (List Pbuf)) (rounds : ℕ)
    (netif : Netif) (head : Pbuf) (next : List Pbuf) (s : Udp)
    → ((len : ℕ) (p : List Pbuf) → ip6_reass len p ≡ none)
    → IsPacket (head ∷ next)
    → is_contiguous head.type_internal ≡ true
    → (calls : List IpCall) × (t : Udp) × (ip6_input odd ip6_reass
          (suc rounds)
          netif
          (head ∷ next)
          s
        ≡ some (calls, t))
      × (calls ≡ [] → IsFragmentOf (head ∷ next))
ip6_input_lem odd ip6_reass rounds netif head next s kept packet memory =
    let (calls, t, e, which) =
      ip6_input-Returns odd ip6_reass rounds netif head next s kept packet memory in
    (
      calls,
      t,
      e,
      λ none_made. elim which [
        | inl (part, nobody) ↦ part
        | inr owned ↦ absurd (IsOwned-calls calls owned none_made)
      ],
    )
