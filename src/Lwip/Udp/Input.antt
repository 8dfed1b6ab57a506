-- ===== src/Lwip/Udp/Input.antt =====
-- `udp_input` of udp.c, with the change that the loop over the control blocks is left after its
-- first turn, which gives the block the port of the datagram.
pub mod Delivery
pub mod Returning
use libn2t.Common.{
  ℕ, ◌+◌, ◌*◌, Bool, true, false, not, ◌&&◌, ◌||◌, List, [], ◌∷◌, Option, none, some, get_or, ltb,
  ◌==◌, if◌then◌else◌,
}
use libn2t.Lwip.Addresses.{
  IpAddr, is_any_type, is_v6, same_type, ip_addr_isany, ip_addr_cmp, ip_addr_ismulticast,
  ip_addr_isbroadcast, ip4_addr_netcmp, Netif, has_address,
}
use libn2t.Lwip.Pbuf.{Pbuf}
use libn2t.Lwip.Pbuf.Headers.{pbuf_remove_header, pbuf_add_header_force}
use libn2t.Lwip.Udp.{UdpPcb, Udp, set}

-- What `ip_data` holds of the packet that is being worked on, and its interface.
pub record IpData : Type 0 where
  pub netif : Netif
  pub src : IpAddr
  pub dest : IpAddr
  pub header_tot_len : ℕ

-- `call_recv` calls a function with its argument, the control block, the chain, an address and a port.
pub data UdpCall : Type 0 where
  call_recv : ℕ → ℕ → ℕ → List Pbuf → IpAddr → ℕ → UdpCall
  free : List Pbuf → UdpCall
  port_unreach : Bool → List Pbuf → UdpCall

unfoldable pub udp_input_local_match : UdpPcb → IpData → Bool → Bool
unfolding ip4_addr_netcmp
udp_input_local_match p ip broadcast =
    if not (p.netif_idx == 0) && not (p.netif_idx == ip.netif.index)
    then false
    else if is_any_type p.local_ip
    then true
    else if same_type p.local_ip.type ip.dest.type
    then (if broadcast
        then p.local_ip.addr == 0
          || (ip.dest.addr == 4294967295
              || ip4_addr_netcmp p.local_ip.addr ip.dest.addr ip.netif.netmask)
        else ip_addr_isany p.local_ip || ip_addr_cmp p.local_ip ip.dest)
    else false

-- The header: two bytes each for the source, the destination, the length and the checksum.
abbrev pub byte : List Pbuf → ℕ → ℕ
byte [] i = 0
byte (p ∷ next) i = get_or p.payload i 0

abbrev pub word : List Pbuf → ℕ → ℕ
word p i = byte p i * 256 + byte p (i + 1)

abbrev pub match_remote : UdpPcb → ℕ → IpAddr → Bool
match_remote p src src_ip =
    p.remote_port == src && (ip_addr_isany p.remote_ip || ip_addr_cmp p.remote_ip src_ip)

-- The turn of the loop, in which `prev` and `uncon_pcb` are NULL: the control block that was found,
-- the unconnected one, and the control blocks after it.
unfoldable pub find_pcb : ℕ → ℕ → IpData → Bool → List ℕ → Udp → Option ℕ × Option ℕ × Udp
unfolding udp_input_local_match
find_pcb src dest ip broadcast [] s = (none, none, s)
find_pcb src dest ip broadcast (i ∷ rest) s =
    let p = s.pcb i in
    let next = set i (record p { local_port = dest }) s in
    if p.local_port == dest && udp_input_local_match p ip broadcast
    then (
      some i,
      if p.connected then none else some i,
      if match_remote p src ip.src then s else next,
    )
    else (some i, none, next)

abbrev pub for_us : Option ℕ → IpData → Bool
for_us (some i) ip = true
for_us none ip =
    if is_v6 ip.dest
    then has_address ip.dest.addr ip.netif.ip6_addrs
    else ip.dest.addr == ip.netif.ip4_addr

-- The header is off the chain. Without a control block, the payload goes back to the header of IP;
-- the result of that is not looked at.
abbrev pub hand_over : Option ℕ → ℕ → IpData → Bool → List Pbuf → Udp → Option (List UdpCall)
hand_over (some i) src ip broadcast p s = elim (s.pcb i).recv [
  | none ↦ some (free p ∷ [])
  | some recv ↦ some (call_recv recv (s.pcb i).recv_arg i p ip.src src ∷ [])
]
hand_over none src ip broadcast p s =
    if not broadcast && not (ip_addr_ismulticast ip.dest)
    then elim (pbuf_add_header_force p (ip.header_tot_len + 8)) [
      | none ↦ none
      | some (failed, q) ↦ some (port_unreach (is_v6 ip.dest) q ∷ free q ∷ [])
    ]
    else some (free p ∷ [])

-- `ip_chksum_pseudo` for UDP, of a chain between two addresses; a sum of 0 is right.
module _ (ip_chksum_pseudo : List Pbuf → IpAddr → IpAddr → ℕ) where
  abbrev pub checksum_fails : IpData → List Pbuf → Bool
  checksum_fails ip p = not (word p 6 == 0) && not (ip_chksum_pseudo p ip.src ip.dest == 0)

  -- `none` is an assertion that fails.
  unfoldable pub udp_input : IpData → List Pbuf → Udp → Option (List UdpCall × Udp)
  unfolding find_pcb
  udp_input ip [] s = none
  udp_input ip (head ∷ next) s =
      let p = head ∷ next in
      let broadcast = ip_addr_isbroadcast ip.dest ip.netif in
      let (found, uncon_pcb, t) = find_pcb (word p 0) (word p 2) ip broadcast s.udp_pcbs s in
      let pcb : Option ℕ = elim found [ none ↦ uncon_pcb | some i ↦ some i ] in
      let checked : Option (List UdpCall) = elim (pbuf_remove_header p 8) [
        | none ↦ none
        | some (true, q) ↦ none
        | some (false, q) ↦ hand_over pcb (word p 0) ip broadcast q t
      ] in
      if ltb head.len 8
      then some (free p ∷ [], s)
      else if not (for_us pcb ip)
      then some (free p ∷ [], t)
      else if checksum_fails ip p
      then some (free p ∷ [], t)
      else elim checked [ none ↦ none | some calls ↦ some (calls, t) ]
