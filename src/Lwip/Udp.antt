-- ===== src/Lwip/Udp.antt =====
-- src/lwip/src/core/udp.c: the control blocks of UDP. A control block is a number, the pointer; its
-- members are in a store, and `udp_pcbs` is the linked list in order.
pub mod Ports
pub mod Binding
pub mod Input
pub mod Output
use libn2t.Common.{
  ℕ, zero, suc, ◌+◌, ◌%◌, Bool, true, false, not, ◌&&◌, ◌||◌, List, [], ◌∷◌, Option, none, some,
  ltb, ◌==◌, if◌then◌else◌, u16,
}
use libn2t.Lwip.Addresses.{
  IpType, v4, v6, any_type, IpAddr, is_v6, is_any_type, ip_any_type, ip_addr_isany, ip_addr_cmp,
  ip_addr_set_any, Netif,
}

-- The result of an operation: ERR_OK, ERR_MEM, ERR_RTE, ERR_VAL and ERR_USE.
pub data UdpErr : Type 0 where
  ok mem rte val in_use : UdpErr

abbrev pub is_ok : UdpErr → Bool
is_ok ok = true
is_ok _ = false

-- The members; an interface index of 0 is NETIF_NO_INDEX, and the flags are Booleans.
pub record UdpPcb : Type 0 where
  pub local_ip : IpAddr
  pub remote_ip : IpAddr
  pub netif_idx : ℕ
  pub reuseaddr : Bool
  pub tos : ℕ
  pub ttl : ℕ
  pub connected : Bool
  pub multicast_loop : Bool
  pub nochksum : Bool
  pub local_port : ℕ
  pub remote_port : ℕ
  pub mcast_ttl : ℕ
  pub recv : Option ℕ
  pub recv_arg : ℕ

-- `udp_port`, `udp_pcbs` and the control blocks.
pub record Udp : Type 0 where
  pub udp_port : ℕ
  pub udp_pcbs : List ℕ
  pub pcb : ℕ → UdpPcb

abbrev pub set : ℕ → UdpPcb → Udp → Udp
set i p s = record s { pcb = λ j. if j == i then p else s.pcb j }

abbrev pub is_listed : ℕ → List ℕ → Bool
is_listed i [] = false
is_listed i (j ∷ rest) = i == j || is_listed i rest

-- The argument is what LWIP_RAND gives, of which the lowest 14 bits are taken.
unfoldable pub udp_init : ℕ → Udp → Udp
udp_init random s = record s { udp_port = u16 (random % 16384 + 49152) }

-- The port at which the search for a free port goes on.
abbrev pub next_port : ℕ → ℕ
next_port port = if port == 65535 then 49152 else u16 (port + 1)

abbrev pub port_taken : ℕ → (ℕ → UdpPcb) → List ℕ → Bool
port_taken port pcb [] = false
port_taken port pcb (i ∷ rest) = (pcb i).local_port == port || port_taken port pcb rest

-- `n` counts the ports that were taken; the jumps back to `again` recur on fuel. A port of 0 is none.
unfoldable pub udp_new_port : ℕ → ℕ → Udp → Option (ℕ × Udp)
udp_new_port zero n s = none
udp_new_port (suc fuel) n s =
    let port = next_port s.udp_port in
    let t = record s { udp_port = port } in
    let again = udp_new_port fuel (suc n) t in
    if port_taken port t.pcb t.udp_pcbs
    then (if ltb 16383 (suc n) then some (0, t) else again)
    else some (port, t)

-- Whether another control block on the list stands in the way of this one.
abbrev pub clashes : ℕ → IpAddr → ℕ → Udp → List ℕ → Bool
clashes i ipaddr port s [] = false
clashes i ipaddr port s (j ∷ rest) =
    (not (i == j)
      && ((not (s.pcb i).reuseaddr || not (s.pcb j).reuseaddr)
          && ((s.pcb j).local_port == port
              && (ip_addr_cmp (s.pcb j).local_ip ipaddr
                  || (ip_addr_isany ipaddr || ip_addr_isany (s.pcb j).local_ip)))))
    || clashes i ipaddr port s rest

abbrev pub list_pcb : ℕ → Udp → Udp
list_pcb i s = record s { udp_pcbs = if is_listed i s.udp_pcbs then s.udp_pcbs else i ∷ s.udp_pcbs }

abbrev pub bind_at : ℕ → IpAddr → ℕ → Udp → Udp
bind_at i ipaddr port s =
    list_pcb i (set i (record (s.pcb i) { local_ip = ipaddr; local_port = port }) s)

-- 16385 rounds are enough for the search for a port. The address is not NULL.
unfoldable pub udp_bind : ℕ → IpAddr → ℕ → Udp → Option (UdpErr × Udp)
unfolding udp_new_port
udp_bind i ipaddr zero s = elim (udp_new_port 16385 0 s) [
  | none ↦ none
  | some (port, t) ↦ if port == 0 then some (in_use, t) else some (ok, bind_at i ipaddr port t)
]
udp_bind i ipaddr (suc n) s =
    if clashes i ipaddr (suc n) s s.udp_pcbs
    then some (in_use, s)
    else some (ok, bind_at i ipaddr (suc n) s)

-- `none` is NULL.
unfoldable pub udp_bind_netif : ℕ → Option Netif → Udp → Udp
udp_bind_netif i none s = set i (record (s.pcb i) { netif_idx = 0 }) s
udp_bind_netif i (some netif) s = set i (record (s.pcb i) { netif_idx = netif.index }) s

abbrev pub bind_first : ℕ → Udp → Option (UdpErr × Udp)
bind_first i s =
    if (s.pcb i).local_port == 0 then udp_bind i (s.pcb i).local_ip 0 s else some (ok, s)

abbrev pub connect_at : ℕ → IpAddr → ℕ → Udp → Udp
connect_at i ipaddr port s =
    list_pcb i
      (set i (record (s.pcb i) { remote_ip = ipaddr; remote_port = port; connected = true }) s)

unfoldable pub udp_connect : ℕ → IpAddr → ℕ → Udp → Option (UdpErr × Udp)
udp_connect i ipaddr port s = elim (bind_first i s) [
  | none ↦ none
  | some (err, t) ↦ some (err, if is_ok err then connect_at i ipaddr port t else t)
]

unfoldable pub udp_disconnect : ℕ → Udp → Udp
unfolding ip_addr_set_any
udp_disconnect i s =
    let p = s.pcb i in
    let any_ip =
      if is_any_type p.local_ip then ip_any_type else ip_addr_set_any (is_v6 p.remote_ip) in
    set i (record p { remote_ip = any_ip; remote_port = 0; netif_idx = 0; connected = false }) s

unfoldable pub udp_recv : ℕ → Option ℕ → ℕ → Udp → Udp
udp_recv i recv arg s = set i (record (s.pcb i) { recv = recv; recv_arg = arg }) s

abbrev pub unlist : ℕ → List ℕ → List ℕ
unlist i [] = []
unlist i (j ∷ rest) = if i == j then rest else j ∷ unlist i rest

-- The members of a control block that is freed are not read again.
unfoldable pub udp_remove : ℕ → Udp → Udp
udp_remove i s = record s { udp_pcbs = unlist i s.udp_pcbs }

-- UDP_TTL is 255. The argument is what `memp_malloc` returns.
unfoldable pub udp_new : Option ℕ → Udp → Option (ℕ × Udp)
udp_new none s = none
udp_new (some i) s =
    let zeroes : IpAddr = record { type = v4; addr = 0 } in
    some (
      i,
      set i
          (record {
            local_ip = zeroes;
            remote_ip = zeroes;
            netif_idx = 0;
            reuseaddr = false;
            tos = 0;
            ttl = 255;
            connected = false;
            multicast_loop = false;
            nochksum = false;
            local_port = 0;
            remote_port = 0;
            mcast_ttl = 255;
            recv = none;
            recv_arg = 0;
          })
          s,
    )

unfoldable pub udp_new_ip_type : IpType → Option ℕ → Udp → Option (ℕ × Udp)
unfolding udp_new
udp_new_ip_type type place s = elim (udp_new place s) [
  | none ↦ none
  | some (i, t) ↦
      let p = t.pcb i in
      some (
        i,
        set i
            (record p {
              local_ip = record (p.local_ip) { type = type };
              remote_ip = record (p.remote_ip) { type = type };
            })
            t,
      )
]

abbrev pub rebind : IpAddr → IpAddr → UdpPcb → UdpPcb
rebind old_addr new_addr p =
    if ip_addr_cmp p.local_ip old_addr then record p { local_ip = new_addr } else p

unfoldable pub udp_netif_ip_addr_changed : IpAddr → IpAddr → Udp → Udp
udp_netif_ip_addr_changed old_addr new_addr s =
    if not (ip_addr_isany old_addr) && not (ip_addr_isany new_addr)
    then record s {
      pcb = λ i. if is_listed i s.udp_pcbs then rebind old_addr new_addr (s.pcb i) else s.pcb i;
    }
    else s
