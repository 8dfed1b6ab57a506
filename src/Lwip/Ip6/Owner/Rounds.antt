-- ===== src/Lwip/Ip6/Owner/Rounds.antt =====
-- The owner of a packet whose fixed header is right.
use libn2t.Common.{
  ℕ, suc, ◌≡◌, ◌≤◌, ◌⊎◌, inl, inr, refl, ◌∙◌, Bool, true, List, [], ◌∷◌, Option, none, some, arith,
}
use libn2t.Lwip.Addresses.{IpAddr, Netif}
use libn2t.Lwip.Pbuf.{Pbuf, IsPacket}
use libn2t.Lwip.Pbuf.Alloc.{first_len}
use libn2t.Lwip.Pbuf.Headers.RoundTrip.{hidden, remove_lem, hidden-IsPacket}
use libn2t.Lwip.Udp.{Udp}
use libn2t.Lwip.Udp.Input.{byte, word}
use libn2t.Lwip.Ip6.{Walk, Outcome, options_done, dropped, fragment, headers, fixed_header}
use libn2t.Lwip.Ip6.Input.{walk, from_header}
use libn2t.Lwip.Ip6.Headers.{at_header}
use libn2t.Lwip.Ip6.Ending.{Discards, has_memory, After, IsStart}
use libn2t.Lwip.Ip6.Ending.Loop.{headers-Ends}
use libn2t.Lwip.Ip6.Owner.{Returns, upper_layer-Returns}

-- The walk comes to a fragment.
abbrev pub IsFragment : IpAddr → Walk → Type 0
IsFragment dest w = (v : Walk) × (headers (suc (first_len w.chain)) dest w ≡ some (fragment v))

abbrev pub IsFragmentBehind : IpAddr → List Pbuf → Type 0
IsFragmentBehind dest p = (w : Walk) × (fixed_header p ≡ some w) × IsFragment dest w

-- What the walk leaves if `ip6_reass` keeps what it gets.
abbrev IsLeft : IpAddr → Walk → Outcome → Type 0
IsLeft dest w (options_done v) = IsPacket v.chain × (has_memory v.chain ≡ true)
IsLeft dest w (dropped calls) =
    (IsFragment dest w × (calls ≡ [])) ⊎ ((q : List Pbuf) × Discards q calls)
IsLeft dest w (fragment v) = ⊥

module _ (odd : Pbuf → Bool) (ip6_reass : ℕ → List Pbuf → Option (List Pbuf)) (rounds : ℕ)
    (kept : (len : ℕ) (p : List Pbuf) → ip6_reass len p ≡ none) where
  walk_step :
      (dest : IpAddr) (w : Walk) (o : Outcome)
      → has_memory w.chain ≡ true
      → headers (suc (first_len w.chain)) dest w ≡ some o
      → After 0 w o
      → (u : Outcome) × (walk odd ip6_reass (suc rounds) dest w ≡ some u) × IsLeft dest w u
  unfolding walk
  walk_step dest w (options_done v) memory e (n, least, (packet, len, bytes, tot, kind)) =
      (options_done v, rw (e, walk) refl, (packet, kind ∙ memory))
  walk_step dest w (dropped calls) memory e (n, q, packet, bytes, discards) =
      (dropped calls, rw (e, walk) refl, inr (q, discards))
  walk_step dest w (fragment v) memory e after =
      (dropped [], rw (e, walk) (rw (kept v.hlen_tot v.chain) refl), inl ((v, e), refl))

  walk-IsLeft :
      (dest : IpAddr) (w : Walk)
      → IsStart w
      → has_memory w.chain ≡ true
      → (u : Outcome) × (walk odd ip6_reass (suc rounds) dest w ≡ some u) × IsLeft dest w u
  walk-IsLeft dest w start memory =
      let (o, e, after) = headers-Ends dest (suc (first_len w.chain)) w start (omega arith) in
      walk_step dest w o memory e after

  module _ (netif : Netif) (src dest : IpAddr) where
    from_walk :
        (Reason : Type 0) (p : List Pbuf) (w : Walk) (u : Outcome) (s : Udp)
        → fixed_header p ≡ some w
        → walk odd ip6_reass (suc rounds) dest w ≡ some u
        → IsLeft dest w u
        → (IsFragment dest w → Reason)
        → Returns Reason (from_header odd ip6_reass (suc rounds) netif src dest p s)
    unfolding from_header
    from_walk Reason p w (options_done v) s fixed run (packet, memory) why =
        rw (fixed, from_header)
          (rw run (upper_layer-Returns odd ip6_reass netif src dest Reason v s packet memory))
    from_walk Reason p w (dropped calls) s fixed run (inl (part, nobody)) why =
        rw (fixed, from_header) (rw run (calls, s, refl, inl (why part, nobody)))
    from_walk Reason p w (dropped calls) s fixed run (inr discards) why =
        rw (fixed, from_header) (rw run (calls, s, refl, inr (inl discards)))
    from_walk Reason p w (fragment v) s fixed run left why = absurd left

    pub from_header-Returns :
        (p : List Pbuf) (s : Udp)
        → IsPacket p
        → has_memory p ≡ true
        → 40 ≤ first_len p
        → Returns
            (IsFragmentBehind dest p)
            (from_header odd ip6_reass (suc rounds) netif src dest p s)
    from_header-Returns [] s packet memory long = absurd (omega (arith, long))
    from_header-Returns (head ∷ next) s packet memory long =
        let w : Walk =
          at_header (word (head ∷ next) 4) (byte (head ∷ next) 6) (byte (head ∷ next) 6) 40
            (hidden 40 head) next in
        let (u, run, left) =
          walk-IsLeft dest w
            (
              hidden-IsPacket head next 40 packet (omega arith) long,
              unfold hidden in omega (arith, packet.0, packet.1),
            )
            (unfold hidden in memory) in
        let fixed : fixed_header (head ∷ next) ≡ some w =
          rw (remove_lem head next 40 packet (omega arith) long, fixed_header) refl in
        from_walk (IsFragmentBehind dest (head ∷ next)) (head ∷ next) w u s fixed run left
          (λ part. (w, fixed, part))
