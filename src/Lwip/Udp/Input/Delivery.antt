-- ===== src/Lwip/Udp/Input/Delivery.antt =====
-- A datagram goes to the first control block, which takes its port.
use libn2t.Common.{
  ℕ, ◌≡◌, ◌≤◌, refl, ap, ◌∙◌, ==_iff, inl, inr, Bool, false, ◌&&◌, List, [], ◌∷◌, Option, none,
  some, arith, drop, ltb, ◌==◌, if◌then◌else◌, Bool-cases,
}
use libn2t.Lwip.Addresses.{IpAddr, ip_addr_isbroadcast}
use libn2t.Lwip.Pbuf.{Pbuf, content, IsPacket}
use libn2t.Lwip.Pbuf.Headers.{pbuf_remove_header}
use libn2t.Lwip.Pbuf.Headers.RoundTrip.{pbuf_add_header-pbuf_remove_header}
use libn2t.Lwip.Udp.{UdpPcb, Udp, set}
use libn2t.Lwip.Udp.Input.{
  IpData, call_recv, word, udp_input_local_match, match_remote, find_pcb, hand_over, checksum_fails,
  udp_input,
}

set-same : (i : ℕ) (p : UdpPcb) (s : Udp) → (set i p s).pcb i ≡ p
set-same i p s = ground arith

local_port-same : (p : UdpPcb) (dest : ℕ) → p.local_port ≡ dest → p ≡ record p { local_port = dest }
local_port-same p dest e = ap (λ n. record p { local_port = n }) e

-- The turn of the loop finds the first control block and leaves it with the port of the datagram.
find_pcb-first :
    (src dest : ℕ) (ip : IpData) (broadcast : Bool) (i : ℕ) (rest : List ℕ) (s : Udp)
    → (uncon : Option ℕ) × (t : Udp) × (find_pcb src dest ip broadcast (i ∷ rest) s
        ≡ (some i, uncon, t))
      × (t.pcb i ≡ record (s.pcb i) { local_port = dest })
      × (t.udp_pcbs ≡ s.udp_pcbs)
      × (t.udp_port ≡ s.udp_port)
unfolding find_pcb
find_pcb-first src dest ip broadcast i rest s =
    let p = s.pcb i in
    let next = set i (record p { local_port = dest }) s in
    elim (Bool-cases (p.local_port == dest && udp_input_local_match p ip broadcast)) [
      | inl same ↦ elim (Bool-cases (match_remote p src ip.src)) [
        | inl far ↦ (
          if p.connected then none else some i,
          s,
          rw same (rw far refl),
          local_port-same p dest ((==_iff p.local_port dest).0 (ground arith)),
          refl,
          refl,
        )
        | inr other ↦ (
          if p.connected then none else some i,
          next,
          rw same (rw other refl),
          set-same i (record p { local_port = dest }) s,
          refl,
          refl,
        )
      ]
      | inr other ↦
          (none, next, rw other refl, set-same i (record p { local_port = dest }) s, refl, refl)
    ]

hand_over-recv :
    (i f src : ℕ) (ip : IpData) (broadcast : Bool) (q : List Pbuf) (t : Udp)
    → (t.pcb i).recv ≡ some f
    → hand_over (some i) src ip broadcast q t
      ≡ some (call_recv f (t.pcb i).recv_arg i q ip.src src ∷ [])
hand_over-recv i f src ip broadcast q t e = rw (e, hand_over) refl

-- What the steps give together.
udp_input-steps :
    (ip_chksum_pseudo : List Pbuf → IpAddr → IpAddr → ℕ) (ip : IpData) (head : Pbuf)
    (next q : List Pbuf) (s t : Udp) (i f : ℕ) (uncon : Option ℕ)
    → ltb head.len 8 ≡ false
    → checksum_fails ip_chksum_pseudo ip (head ∷ next) ≡ false
    → find_pcb
        (word (head ∷ next) 0)
        (word (head ∷ next) 2)
        ip
        (ip_addr_isbroadcast ip.dest ip.netif)
        s.udp_pcbs
        s
      ≡ (some i, uncon, t)
    → pbuf_remove_header (head ∷ next) 8 ≡ some (false, q)
    → (t.pcb i).recv ≡ some f
    → udp_input ip_chksum_pseudo ip (head ∷ next) s
      ≡ some (call_recv f (t.pcb i).recv_arg i q ip.src (word (head ∷ next) 0) ∷ [], t)
unfolding udp_input
udp_input-steps ip_chksum_pseudo ip head next q s t i f uncon long right found removed registered =
    rw long (
      rw found (
        rw right (
          rw removed (
            rw found (
              rw
                (hand_over-recv i f (word (head ∷ next) 0) ip (ip_addr_isbroadcast ip.dest ip.netif)
                  q t registered)
                (rw found refl))))))

find_pcb-listed :
    (src dest : ℕ) (ip : IpData) (broadcast : Bool) (i : ℕ) (rest is : List ℕ) (s : Udp)
    → is ≡ i ∷ rest
    → (uncon : Option ℕ) × (t : Udp) × (find_pcb src dest ip broadcast is s ≡ (some i, uncon, t))
      × (t.pcb i ≡ record (s.pcb i) { local_port = dest })
      × (t.udp_pcbs ≡ s.udp_pcbs)
      × (t.udp_port ≡ s.udp_port)
find_pcb-listed src dest ip broadcast i rest is s listed =
    rw listed (find_pcb-first src dest ip broadcast i rest s)

pub long_enough : (n : ℕ) → 8 ≤ n → ltb n 8 ≡ false
long_enough n h = ground arith

-- A datagram whose UDP header is in its first pbuf and whose checksum, if it has one, is right, is
-- given to the function of the first control block, whatever port and addresses the block has and
-- whatever blocks come after it, with the bytes after the header, the source address and the source
-- port; the block then has the destination port, and its other members are as before.
pub udp_input_lem :
    (ip_chksum_pseudo : List Pbuf → IpAddr → IpAddr → ℕ) (ip : IpData) (head : Pbuf)
    (next : List Pbuf) (s : Udp) (i f : ℕ) (rest : List ℕ)
    → IsPacket (head ∷ next)
    → 8 ≤ head.len
    → checksum_fails ip_chksum_pseudo ip (head ∷ next) ≡ false
    → s.udp_pcbs ≡ i ∷ rest
    → (s.pcb i).recv ≡ some f
    → (q : List Pbuf) × (t : Udp) × (udp_input ip_chksum_pseudo ip (head ∷ next) s
        ≡ some (call_recv f (s.pcb i).recv_arg i q ip.src (word (head ∷ next) 0) ∷ [], t))
      × IsPacket q
      × (content q ≡ drop 8 (content (head ∷ next)))
      × (t.pcb i ≡ record (s.pcb i) { local_port = word (head ∷ next) 2 })
      × (t.udp_pcbs ≡ s.udp_pcbs)
udp_input_lem ip_chksum_pseudo ip head next s i f rest packet long right listed registered =
    let (uncon, t, found, block, pcbs, port) =
      find_pcb-listed (word (head ∷ next) 0) (word (head ∷ next) 2) ip
        (ip_addr_isbroadcast ip.dest ip.netif) i rest s.udp_pcbs s listed in
    let (q, removed, packet', bytes, back) =
      pbuf_add_header-pbuf_remove_header head next 8 packet (omega arith) long in
    let calls =
      udp_input-steps ip_chksum_pseudo ip head next q s t i f uncon (long_enough head.len long)
        right found removed (ap (λ p. p.recv) block ∙ registered) in
    (
      q,
      t,
      calls
          ∙ ap (λ a. some (call_recv f a i q ip.src (word (head ∷ next) 0) ∷ [], t))
              (ap (λ p. p.recv_arg) block),
      packet',
      bytes,
      block,
      pcbs,
    )
