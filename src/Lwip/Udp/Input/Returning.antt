-- ===== src/Lwip/Udp/Input/Returning.antt =====
-- `udp_input` returns for every packet whose first pbuf has its memory behind its structure.
use libn2t.Common.{
  ℕ, ◌+◌, ◌≡◌, ◌≤◌, inl, inr, refl, Bool, true, false, not, List, [], ◌∷◌, Option, none, some, ltb,
  if◌then◌else◌, arith, Option-cases,
}
use libn2t.Lwip.Addresses.{IpAddr, ip_addr_isbroadcast}
use libn2t.Lwip.Pbuf.{Pbuf, IsPacket}
use libn2t.Lwip.Pbuf.Headers.{is_contiguous, pbuf_remove_header, pbuf_add_header_force}
use libn2t.Lwip.Pbuf.Headers.RoundTrip.{hidden, remove_lem}
use libn2t.Lwip.Udp.{Udp}
use libn2t.Lwip.Udp.Input.{
  IpData, UdpCall, free, word, find_pcb, for_us, hand_over, checksum_fails, udp_input,
}

pub force_total :
    (p : Pbuf) (next : List Pbuf) (n : ℕ)
    → is_contiguous p.type_internal ≡ true
    → (r : Bool × List Pbuf) × (pbuf_add_header_force (p ∷ next) n ≡ some r)
unfolding pbuf_add_header_force
force_total p next n contiguous = elim (Option-cases (pbuf_add_header_force (p ∷ next) n)) [
  | inl failed ↦ absurd (ground (arith, contiguous))
  | inr r ↦ r
]

hand_over_total :
    (found : Option ℕ) (src : ℕ) (ip : IpData) (broadcast : Bool) (p : Pbuf) (next : List Pbuf)
    (s : Udp)
    → is_contiguous p.type_internal ≡ true
    → (calls : List UdpCall) × (hand_over found src ip broadcast (p ∷ next) s ≡ some calls)
hand_over_total (some i) src ip broadcast p next s contiguous =
    elim (Option-cases (hand_over (some i) src ip broadcast (p ∷ next) s)) [
      | inl failed ↦ absurd (ground (arith, Option-cases (s.pcb i).recv))
      | inr r ↦ r
    ]
hand_over_total none src ip broadcast p next s contiguous =
    let (r, e) = force_total p next (ip.header_tot_len + 8) contiguous in
    elim (Option-cases (hand_over none src ip broadcast (p ∷ next) s)) [
      | inl failed ↦ absurd (ground (arith, e))
      | inr r ↦ r
    ]

-- What is left of the function once the control block is found.
tail_total :
    (short other wrong : Bool) (x y z : List UdpCall × Udp) (t : Udp)
    (checked : Option (List UdpCall))
    → (short ≡ false → (calls : List UdpCall) × (checked ≡ some calls))
    → (r : List UdpCall × Udp) × ((if short
          then some x
          else if other
          then some y
          else if wrong
          then some z
          else elim checked [ none ↦ none | some calls ↦ some (calls, t) ])
        ≡ some r)
tail_total true other wrong x y z t checked h = (x, refl)
tail_total false true wrong x y z t checked h = (y, refl)
tail_total false false true x y z t checked h = (z, refl)
tail_total false false false x y z t checked h = let (calls, e) = h refl in ((calls, t), rw e refl)

not_short : (n : ℕ) → ltb n 8 ≡ false → 8 ≤ n
not_short n e = ground arith

-- If the packet is too short, or not for this host, or its checksum is wrong, it is freed; else it is
-- handed over.
pub udp_input_total :
    (sum : List Pbuf → IpAddr → IpAddr → ℕ) (ip : IpData) (head : Pbuf) (next : List Pbuf) (s : Udp)
    → IsPacket (head ∷ next)
    → is_contiguous head.type_internal ≡ true
    → (r : List UdpCall × Udp) × (udp_input sum ip (head ∷ next) s ≡ some r)
unfolding udp_input hidden
udp_input_total sum ip head next s packet contiguous =
    let p : List Pbuf = head ∷ next in
    let broadcast = ip_addr_isbroadcast ip.dest ip.netif in
    let found = find_pcb (word p 0) (word p 2) ip broadcast s.udp_pcbs s in
    let pcb : Option ℕ = elim found.0 [ none ↦ found.1 | some i ↦ some i ] in
    tail_total (ltb head.len 8) (not (for_us pcb ip)) (checksum_fails sum ip p) (free p ∷ [], s)
      (free p ∷ [], found.2) (free p ∷ [], found.2) found.2
      (elim (pbuf_remove_header p 8) [
        | none ↦ none
        | some (true, q) ↦ none
        | some (false, q) ↦ hand_over pcb (word p 0) ip broadcast q found.2
      ])
      (λ long.
        rw (remove_lem head next 8 packet (omega arith) (not_short head.len long))
          (hand_over_total pcb (word p 0) ip broadcast (hidden 8 head) next found.2 contiguous))
