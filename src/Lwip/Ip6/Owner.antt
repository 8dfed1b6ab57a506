-- ===== src/Lwip/Ip6/Owner.antt =====
-- `ip6_input` returns for every packet: from the upper layer on.
pub mod Rounds
pub mod Input
use libn2t.Common.{
  ℕ, zero, suc, ◌+◌, ◌-◌, ◌/◌, ◌≡◌, ◌≢◌, ◌<◌, ◌≤◌, ◌⊎◌, inl, inr, refl, sym, ap, ◌∙◌, Bool, true,
  false, not, List, [], ◌∷◌, Option, none, some, ltb, leb, ◌||◌, ◌==◌, if◌then◌else◌, u16, arith,
  Bool-cases, Option-cases,
}
use libn2t.Lwip.Addresses.{IpAddr, ip_addr_ismulticast, Netif}
use libn2t.Lwip.Pbuf.{Pbuf, content, total, IsPacket, pbuf_free}
use libn2t.Lwip.Pbuf.Alloc.{first_len}
use libn2t.Lwip.Pbuf.Headers.{is_contiguous, pbuf_add_header_force, pbuf_remove_header}
use libn2t.Lwip.Pbuf.Headers.RoundTrip.{hidden, remove_lem, hidden-IsPacket}
use libn2t.Lwip.Pbuf.Chains.{head_tot_len, pbuf_realloc, realloc_loop}
use libn2t.Lwip.Pbuf.Chains.Content.{pbuf_realloc_lem}
use libn2t.Lwip.Udp.{Udp}
use libn2t.Lwip.Udp.Input.{IpData, UdpCall, byte, word, udp_input}
use libn2t.Lwip.Udp.Input.Returning.{force_total, udp_input_total}
use libn2t.Lwip.Udp.Output.Exchange.{udp_chksum}
use libn2t.Lwip.Ip.{header, IpCall, free, udp, tcp_input, icmp6_input, icmp6_param_problem}
use libn2t.Lwip.Ip6.{
  address6, Walk, Outcome, options_done, dropped, fragment, headers, fixed_header,
}
use libn2t.Lwip.Ip6.Input.{
  walk, ip_data, upper_layer, from_header, refused_addresses, unspecified, ip6_input,
}
use libn2t.Lwip.Ip6.Headers.{at_header}
use libn2t.Lwip.Ip6.Ending.{Discards, has_memory, After, IsStart}
use libn2t.Lwip.Ip6.Ending.Loop.{headers-Ends}

-- A chain is freed, perhaps after a report, or UDP, TCP or ICMPv6 gets it.
abbrev pub IsOwned : List IpCall → Type 0
IsOwned calls =
    ((q : List Pbuf) × Discards q calls)
    ⊎ (((cs : List UdpCall) × (calls ≡ udp cs ∷ []))
        ⊎ (((ip : IpData) × (q : List Pbuf) × (calls ≡ tcp_input ip q ∷ []))
            ⊎ ((ip : IpData) × (q : List Pbuf) × (calls ≡ icmp6_input ip q ∷ []))))

-- The call returns, and either the chain has one owner, or it is kept for a reason, with no call.
abbrev pub Returns : Type 0 → Option (List IpCall × Udp) → Type 0
Returns Reason r =
    (calls : List IpCall) × (t : Udp) × (r ≡ some (calls, t))
    × ((Reason × (calls ≡ [])) ⊎ IsOwned calls)

pub freed : (Reason : Type 0) (q : List Pbuf) (s : Udp) → Returns Reason (some (free q ∷ [], s))
freed Reason q s = (free q ∷ [], s, refl, inr (inl (q, inl refl)))

module _ (odd : Pbuf → Bool) (ip6_reass : ℕ → List Pbuf → Option (List Pbuf)) (netif : Netif)
    (src dest : IpAddr) where
  udp-Returns :
      (w : Walk) (s : Udp)
      → IsPacket w.chain
      → has_memory w.chain ≡ true
      → (r : List UdpCall × Udp) × (udp_input
            (udp_chksum odd)
            (ip_data odd ip6_reass netif src dest w)
            w.chain
            s
          ≡ some r)
  udp-Returns w s packet memory = go w.chain packet memory
    where
      go :
          (p : List Pbuf)
          → IsPacket p
          → has_memory p ≡ true
          → (r : List UdpCall × Udp) × (udp_input
                (udp_chksum odd)
                (ip_data odd ip6_reass netif src dest w)
                p
                s
              ≡ some r)
      go [] packet memory = absurd (ground arith)
      go (head ∷ next) packet memory =
          udp_input_total (udp_chksum odd) (ip_data odd ip6_reass netif src dest w) head next s
            packet memory

  back-Returns :
      (p : List Pbuf) (n : ℕ)
      → has_memory p ≡ true
      → (r : Bool × List Pbuf) × (pbuf_add_header_force p n ≡ some r)
  back-Returns [] n memory = absurd (ground arith)
  back-Returns (head ∷ next) n memory = force_total head next n memory

  pub upper_layer-Returns :
      (Reason : Type 0) (w : Walk) (s : Udp)
      → IsPacket w.chain
      → has_memory w.chain ≡ true
      → Returns Reason (upper_layer odd ip6_reass netif src dest w s)
  unfolding upper_layer
  upper_layer-Returns Reason w s packet memory = elim (Bool-cases (w.nexth == 59)) [
    | inl nothing ↦ rw nothing (freed Reason w.chain s)
    | inr a ↦ elim (Bool-cases (w.nexth == 17)) [
      | inl to_udp ↦
          let ((cs, t), e) = udp-Returns w s packet memory in
          rw a (rw to_udp (rw e (udp cs ∷ [], t, refl, inr (inr (inl (cs, refl))))))
      | inr b ↦ elim (Bool-cases (w.nexth == 6)) [
        | inl to_tcp ↦ rw a (rw b (rw to_tcp (_, s, refl, inr (inr (inr (inl (_, _, refl)))))))
        | inr c ↦ elim (Bool-cases (w.nexth == 58)) [
          | inl to_icmp ↦
              rw a (rw b (rw c (rw to_icmp (_, s, refl, inr (inr (inr (inr (_, _, refl))))))))
          | inr d ↦
              let ((failed, q), e) = back-Returns w.chain w.hlen_tot memory in
              elim (Bool-cases (ip_addr_ismulticast dest || w.first == 58)) [
                | inl silent ↦ rw a (rw b (rw c (rw d (rw e (rw silent (freed Reason q s))))))
                | inr reported ↦ rw a (
                    rw b (
                      rw c (
                        rw d (rw e (rw reported (_, s, refl, inr (inl (q, inr (header, refl)))))))))
              ]
        ]
      ]
    ]
  ]
