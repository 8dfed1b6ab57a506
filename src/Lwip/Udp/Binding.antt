-- ===== src/Lwip/Udp/Binding.antt =====
-- No two listed control blocks stand in each other's way.
use libn2t.Common.{
  ℕ, zero, suc, ◌≡◌, ◌≢◌, refl, sym, ==_iff, ◌∙◌, ◌⊎◌, inl, inr, Bool, true, false, not, ◌&&◌, ◌||◌,
  List, [], ◌∷◌, Option, some, arith, ◌==◌, if◌then◌else◌, Bool-cases,
}
use libn2t.Lwip.Addresses.{IpType, v4, v6, any_type, same_type, IpAddr, ip_addr_isany, ip_addr_cmp}
use libn2t.Lwip.Udp.{
  UdpErr, ok, in_use, UdpPcb, Udp, is_listed, udp_new_port, port_taken, clashes, bind_at, udp_bind,
}
use libn2t.Lwip.Udp.Ports.{IsLocal, IsFree, udp_new_port_lem}

-- Two control blocks have the same port and addresses of which one may stand for the other, and not
-- both allow that they share it.
abbrev pub conflict : UdpPcb → UdpPcb → Bool
conflict p q =
    (not p.reuseaddr || not q.reuseaddr)
    && (p.local_port == q.local_port
        && (ip_addr_cmp p.local_ip q.local_ip
            || (ip_addr_isany p.local_ip || ip_addr_isany q.local_ip)))

abbrev pub IsExclusive : Udp → Type 0
IsExclusive s =
    (i j : ℕ)
    → is_listed i s.udp_pcbs ≡ true
    → is_listed j s.udp_pcbs ≡ true
    → i ≢ j
    → conflict (s.pcb i) (s.pcb j) ≡ false

same_type-sym : (a b : IpType) → same_type a b ≡ same_type b a
same_type-sym v4 v4 = refl
same_type-sym v4 v6 = refl
same_type-sym v4 any_type = refl
same_type-sym v6 v4 = refl
same_type-sym v6 v6 = refl
same_type-sym v6 any_type = refl
same_type-sym any_type v4 = refl
same_type-sym any_type v6 = refl
same_type-sym any_type any_type = refl

conflict-sym : (p q : UdpPcb) → conflict p q ≡ false → conflict q p ≡ false
conflict-sym p q h = ground (arith, same_type-sym p.local_ip.type q.local_ip.type)

clashes-head :
    (i k port : ℕ) (ip : IpAddr) (s : Udp) (rest : List ℕ)
    → clashes i ip port s (k ∷ rest) ≡ false
    → i ≢ k
    → conflict (record (s.pcb i) { local_ip = ip; local_port = port }) (s.pcb k) ≡ false
clashes-head i k port ip s rest h ne = ground (arith, same_type-sym ip.type (s.pcb k).local_ip.type)

clashes-tail :
    (i k port : ℕ) (ip : IpAddr) (s : Udp) (rest : List ℕ)
    → clashes i ip port s (k ∷ rest) ≡ false
    → clashes i ip port s rest ≡ false
clashes-tail i k port ip s rest h = ground arith

clashes-conflict :
    (i j port : ℕ) (ip : IpAddr) (s : Udp) (is : List ℕ)
    → clashes i ip port s is ≡ false
    → is_listed j is ≡ true
    → i ≢ j
    → conflict (record (s.pcb i) { local_ip = ip; local_port = port }) (s.pcb j) ≡ false
clashes-conflict i j port ip s [] h m ne = absurd (ground arith)
clashes-conflict i j port ip s (k ∷ rest) h m ne = elim (Bool-cases (j == k)) [
  | inl e ↦
      let same = (==_iff j k).0 e in
      rw same (clashes-head i k port ip s rest h (λ e'. ne (e' ∙ sym same)))
  | inr e ↦
      clashes-conflict i j port ip s rest (clashes-tail i k port ip s rest h) (ground arith) ne
]

IsFree-conflict :
    (j port : ℕ) (p : UdpPcb) (pcb : ℕ → UdpPcb) (is : List ℕ)
    → IsFree port pcb is
    → p.local_port ≡ port
    → is_listed j is ≡ true
    → conflict p (pcb j) ≡ false
IsFree-conflict j port p pcb [] h e m = absurd (ground arith)
IsFree-conflict j port p pcb (k ∷ rest) h e m = elim (Bool-cases (j == k)) [
  | inl same ↦ rw ((==_iff j k).0 same) (ground arith)
  | inr other ↦ IsFree-conflict j port p pcb rest h.1 e (ground arith)
]

-- The members of the control block i after it is bound.
abbrev pub bound : ℕ → ℕ → IpAddr → Udp → UdpPcb
bound i port ip s = record (s.pcb i) { local_ip = ip; local_port = port }

was_listed :
    (i a port : ℕ) (ip : IpAddr) (s : Udp)
    → (a == i) ≡ false
    → is_listed a (bind_at i ip port s).udp_pcbs ≡ true
    → is_listed a s.udp_pcbs ≡ true
was_listed i a port ip s ne l = ground arith

now_listed :
    (i port : ℕ) (ip : IpAddr) (s : Udp) → is_listed i (bind_at i ip port s).udp_pcbs ≡ true
now_listed i port ip s = ground arith

-- The control block i gets new members, which stand in the way of no other listed one, and is listed.
bind_at-IsExclusive :
    (i port : ℕ) (ip : IpAddr) (s : Udp)
    → IsExclusive s
    → ((j : ℕ)
        → is_listed j s.udp_pcbs ≡ true
        → i ≢ j
        → conflict (bound i port ip s) (s.pcb j) ≡ false)
    → IsExclusive (bind_at i ip port s)
bind_at-IsExclusive i port ip s h new a b la lb ne = elim (Bool-cases (a == i)) [
  | inl ai ↦ elim (Bool-cases (b == i)) [
    | inl bi ↦ absurd (ne ((==_iff a i).0 ai ∙ sym ((==_iff b i).0 bi)))
    | inr bi ↦
        rw ai (rw bi (new b (was_listed i b port ip s bi lb) (λ e. ne ((==_iff a i).0 ai ∙ e))))
  ]
  | inr ai ↦ elim (Bool-cases (b == i)) [
    | inl bi ↦ rw ai (
        rw bi (
          conflict-sym (bound i port ip s) (s.pcb a)
            (new a (was_listed i a port ip s ai la) (λ e. ne (sym e ∙ sym ((==_iff b i).0 bi))))))
    | inr bi ↦
        rw ai (rw bi (h a b (was_listed i a port ip s ai la) (was_listed i b port ip s bi lb) ne))
  ]
]

-- Why the port is in use: another listed block would stand in the way of this one, or, if no port was
-- asked for, a listed block has each of the local ports.
abbrev pub IsInUse : ℕ → IpAddr → ℕ → Udp → Type 0
IsInUse i ip port s =
    ((port ≢ 0)
      × ((j : ℕ) × (is_listed j s.udp_pcbs ≡ true)
          × (i ≢ j)
          × (conflict (bound i port ip s) (s.pcb j) ≡ true)))
    ⊎ ((port ≡ 0) × ((p : ℕ) → IsLocal p → port_taken p s.pcb s.udp_pcbs ≡ true))

clashes-taken :
    (i port : ℕ) (ip : IpAddr) (s : Udp) (is : List ℕ)
    → clashes i ip port s is ≡ true
    → (j : ℕ) × (is_listed j is ≡ true) × (i ≢ j) × (conflict (bound i port ip s) (s.pcb j) ≡ true)
clashes-taken i port ip s [] h = absurd (ground arith)
clashes-taken i port ip s (k ∷ rest) h = elim (Bool-cases (clashes i ip port s rest)) [
  | inl behind ↦
      let (j, listed, ne, way) = clashes-taken i port ip s rest behind in (j, ground arith, ne, way)
  | inr clear ↦ (
    k,
    ground arith,
    (λ e. ground arith),
    ground (arith, same_type-sym ip.type (s.pcb k).local_ip.type),
  )
]

-- What a call gives: no two control blocks stand in each other's way, and either the block is listed
-- with the address and a port, the one that was asked for if it was not 0, or the call changes
-- neither the list nor a block.
abbrev pub IsBound : ℕ → IpAddr → ℕ → Udp → Option (UdpErr × Udp) → Type 0
IsBound i ip port s r =
    (err : UdpErr) × (t : Udp) × (r ≡ some (err, t))
    × IsExclusive t
    × (((err ≡ ok)
          × (is_listed i t.udp_pcbs ≡ true)
          × ((t.pcb i).local_ip ≡ ip)
          × ((t.pcb i).local_port ≢ 0)
          × ((port ≡ 0) ⊎ ((t.pcb i).local_port ≡ port)))
        ⊎ ((err ≡ in_use) × (t.pcb ≡ s.pcb) × (t.udp_pcbs ≡ s.udp_pcbs) × IsInUse i ip port s))

bind_at-IsBound :
    (i asked port : ℕ) (ip : IpAddr) (s t : Udp) (r : Option (UdpErr × Udp))
    → r ≡ some (ok, bind_at i ip port t)
    → IsExclusive t
    → ((j : ℕ)
        → is_listed j t.udp_pcbs ≡ true
        → i ≢ j
        → conflict (bound i port ip t) (t.pcb j) ≡ false)
    → port ≢ 0
    → (asked ≡ 0) ⊎ (port ≡ asked)
    → IsBound i ip asked s r
bind_at-IsBound i asked port ip s t r e h new ne which = (
  ok,
  bind_at i ip port t,
  e,
  bind_at-IsExclusive i port ip t h new,
  inl (
    refl,
    now_listed i port ip t,
    ground arith,
    ground arith,
    elim which [ inl z ↦ inl z | inr p ↦ inr (ground arith) ],
  ),
)

udp_bind-search :
    (i port : ℕ) (ip : IpAddr) (s t : Udp)
    → udp_new_port 16385 0 s ≡ some (port, t)
    → udp_bind i ip 0 s ≡ (if port == 0 then some (in_use, t) else some (ok, bind_at i ip port t))
unfolding udp_bind
udp_bind-search i port ip s t e = rw (e, udp_bind) refl

IsLocal-not_zero : (port : ℕ) → IsLocal port → (port == 0) ≡ false
IsLocal-not_zero port h = ground arith

-- If the ports at which the search goes on are local ones and no two listed control blocks stand in
-- each other's way, `udp_bind` returns, and again none do; either it succeeds, and the block is listed
-- with the address and a port that is not 0, the one asked for if one was, or it changes neither the
-- list nor a control block, and another listed block stands in the way of the address and the port
-- asked for, or, if none was, each local port is taken.
pub udp_bind_lem :
    (i port : ℕ) (ip : IpAddr) (s : Udp)
    → IsLocal s.udp_port
    → IsExclusive s
    → IsBound i ip port s (udp_bind i ip port s)
unfolding udp_bind
udp_bind_lem i zero ip s local h =
    let (port, q, found, stays, which) = udp_new_port_lem s local in
    let t : Udp = record s { udp_port = q } in
    elim which [
      | inl (none_left, all) ↦ (
        in_use,
        t,
        udp_bind-search i port ip s t found ∙ rw none_left refl,
        h,
        inr (refl, refl, refl, inr (refl, all)),
      )
      | inr (range, free) ↦
          bind_at-IsBound i 0 port ip s t _
            (udp_bind-search i port ip s t found ∙ rw (IsLocal-not_zero port range) refl) h
            (λ j l ne. IsFree-conflict j port (bound i port ip t) t.pcb t.udp_pcbs free refl l)
            (λ e. absurd (omega (arith, e, range.0))) (inl refl)
    ]
udp_bind_lem i (suc n) ip s local h = elim (Bool-cases (clashes i ip (suc n) s s.udp_pcbs)) [
  | inl taken ↦ (
    in_use,
    s,
    rw taken refl,
    h,
    inr (
      refl,
      refl,
      refl,
      inl ((λ e. ground arith), clashes-taken i (suc n) ip s s.udp_pcbs taken),
    ),
  )
  | inr free ↦
      bind_at-IsBound i (suc n) (suc n) ip s s _ (rw free refl) h
        (λ j l ne. clashes-conflict i j (suc n) ip s s.udp_pcbs free l ne) (ground arith) (inr refl)
]
