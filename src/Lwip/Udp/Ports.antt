-- ===== src/Lwip/Udp/Ports.antt =====
-- The search for a free port ends with a free port of the range, or with none.
use libn2t.Common.{
  ℕ, zero, suc, ◌+◌, ◌-◌, ◌%◌, ◌≡◌, ◌≢◌, ◌<◌, ◌≤◌, refl, ◌⊎◌, inl, inr, true, false, List, [], ◌∷◌,
  Option, some, arith, ltb, ◌==◌, Bool-cases,
}
use libn2t.Lwip.Udp.{udp_init, UdpPcb, Udp, next_port, port_taken, udp_new_port}

-- The ports that `UDP_LOCAL_PORT_RANGE_START` and `UDP_LOCAL_PORT_RANGE_END` delimit.
abbrev pub IsLocal : ℕ → Type 0
IsLocal port = (49152 ≤ port) × (port ≤ 65535)

-- The search starts at a port of the range.
udp_init-IsLocal : (random : ℕ) (s : Udp) → IsLocal (udp_init random s).udp_port
unfolding udp_init
udp_init-IsLocal random s = ground arith

-- No control block on the list has the port.
abbrev pub IsFree : ℕ → (ℕ → UdpPcb) → List ℕ → Type 0
IsFree port pcb [] = Unit {0}
IsFree port pcb (i ∷ rest) = ((pcb i).local_port ≢ port) × IsFree port pcb rest

port_taken-IsFree :
    (port : ℕ) (pcb : ℕ → UdpPcb) (is : List ℕ)
    → port_taken port pcb is ≡ false
    → IsFree port pcb is
port_taken-IsFree port pcb [] h = tt
port_taken-IsFree port pcb (i ∷ rest) h = ground (arith, port_taken-IsFree port pcb rest)

-- How many ports are tried before this one.
abbrev distance : ℕ → ℕ → ℕ
distance from port = (port + 16383 - from) % 16384

-- The ports of the range that the last n rounds have tried are taken.
abbrev AreTaken : ℕ → Udp → Type 0
AreTaken n s =
    (port : ℕ)
    → IsLocal port
    → 16384 ≤ distance s.udp_port port + n
    → port_taken port s.pcb s.udp_pcbs ≡ true

AreTaken-next :
    (n : ℕ) (s : Udp)
    → IsLocal s.udp_port
    → AreTaken n s
    → port_taken (next_port s.udp_port) s.pcb s.udp_pcbs ≡ true
    → AreTaken (suc n) (record s { udp_port = next_port s.udp_port })
AreTaken-next n s h before taken port local far = elim (Bool-cases (port == next_port s.udp_port)) [
  | inl same ↦ ground (arith, taken)
  | inr other ↦ before port local (ground arith)
]

-- The search from a port of the range ends with another port of the range, and changes nothing else.
abbrev IsFound : Option (ℕ × Udp) → Udp → Type 0
IsFound r s =
    (port q : ℕ) × (r ≡ some (port, record s { udp_port = q }))
    × IsLocal q
    × (((port ≡ 0) × ((p : ℕ) → IsLocal p → port_taken p s.pcb s.udp_pcbs ≡ true))
        ⊎ (IsLocal port × IsFree port s.pcb s.udp_pcbs))

next_port-IsLocal : (port : ℕ) → IsLocal port → IsLocal (next_port port)
next_port-IsLocal port h = ground arith

search :
    (fuel n : ℕ) (s : Udp)
    → IsLocal s.udp_port
    → AreTaken n s
    → 16384 < fuel + n
    → n < 16384
    → IsFound (udp_new_port fuel n s) s
unfolding udp_new_port
search zero n s h before k m = absurd (omega arith)
search (suc fuel) n s h before k m =
    let port = next_port s.udp_port in
    let t : Udp = record s { udp_port = port } in
    let local = next_port-IsLocal s.udp_port h in
    elim (Bool-cases (port_taken port s.pcb s.udp_pcbs)) [
      | inl taken ↦
          let now = AreTaken-next n s h before taken in
          elim (Bool-cases (ltb 16383 (suc n))) [
            | inl last ↦
                (0, port, rw taken (rw last refl), local, inl (refl, λ p l. now p l (ground arith)))
            | inr more ↦
                let (found, q, e, stays, which) =
                  search fuel (suc n) t local now (omega arith) (ground arith) in
                (found, q, rw taken (rw more e), stays, which)
          ]
      | inr free ↦ (
        port,
        port,
        rw free refl,
        local,
        inr (local, port_taken-IsFree port s.pcb s.udp_pcbs free),
      )
    ]

-- From a port of the local range, 49152 to 65535, the search ends within 16385 rounds, having moved
-- only the port at which it goes on, which stays in the range; it finds a port of the range that no
-- listed control block has, or no port if every port of the range is taken.
pub udp_new_port_lem :
    (s : Udp)
    → IsLocal s.udp_port
    → (port q : ℕ) × (udp_new_port 16385 0 s ≡ some (port, record s { udp_port = q }))
      × IsLocal q
      × (((port ≡ 0) × ((p : ℕ) → IsLocal p → port_taken p s.pcb s.udp_pcbs ≡ true))
          ⊎ (IsLocal port × IsFree port s.pcb s.udp_pcbs))
udp_new_port_lem s h =
    search 16385 0 s h (λ port local far. absurd (omega arith)) (omega arith) (omega arith)
