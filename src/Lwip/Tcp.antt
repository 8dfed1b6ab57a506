-- ===== src/Lwip/Tcp.antt =====
-- The choice of the control block for a segment in `tcp_input` (src/lwip/src/core/tcp_in.c), with
-- the change that the port of a listener is not compared.
pub mod Choice
use libn2t.Common.{
  ℕ, zero, suc, ◌+◌, Bool, true, false, not, ◌&&◌, ◌||◌, List, [], ◌∷◌, Option, none, some, ◌==◌,
  if◌then◌else◌,
}
use libn2t.Lwip.Addresses.{IpAddr, is_any_type, same_type, ip_addr_isany, ip_addr_cmp}

-- A control block; `id` is the pointer, and the remote members of a listener are not used.
pub record TcpBlock : Type 0 where
  pub id : ℕ
  pub netif_idx : ℕ
  pub local_ip : IpAddr
  pub local_port : ℕ
  pub remote_ip : IpAddr
  pub remote_port : ℕ

-- `tcp_active_pcbs`, `tcp_tw_pcbs` and `tcp_listen_pcbs`.
pub record TcpLists : Type 0 where
  pub active : List TcpBlock
  pub time_wait : List TcpBlock
  pub listening : List TcpBlock

-- The ports and addresses of a segment, and the index of the interface that it came in on.
pub record Segment : Type 0 where
  pub netif_idx : ℕ
  pub src : IpAddr
  pub src_port : ℕ
  pub dest : IpAddr
  pub dest_port : ℕ

-- Who gets the segment.
pub data Target : Type 0 where
  to_active to_time_wait to_listener : TcpBlock → Target
  nobody : Target

abbrev pub on_netif : Segment → TcpBlock → Bool
on_netif seg b = b.netif_idx == 0 || b.netif_idx == seg.netif_idx

abbrev pub is_of : Segment → TcpBlock → Bool
is_of seg b =
    on_netif seg b
    && (b.remote_port == seg.src_port
        && (b.local_port == seg.dest_port
            && (ip_addr_cmp b.remote_ip seg.src && ip_addr_cmp b.local_ip seg.dest)))

-- The first block of the connection, and the others.
unfoldable pub search_active : Segment → List TcpBlock → Option (TcpBlock × List TcpBlock)
search_active seg [] = none
search_active seg (b ∷ rest) =
    let further = search_active seg rest in
    if is_of seg b
    then some (b, rest)
    else elim further [ none ↦ none | some (found, others) ↦ some (found, b ∷ others) ]

unfoldable pub search_time_wait : Segment → List TcpBlock → Option TcpBlock
search_time_wait seg [] = none
search_time_wait seg (b ∷ rest) =
    let further = search_time_wait seg rest in if is_of seg b then some b else further

-- The place of the listener: the first one with the address of the segment, or the last one before
-- the end with any address, which is `any_place` so far.
unfoldable pub listen_loop : Segment → ℕ → Option ℕ → List TcpBlock → Option ℕ
listen_loop seg i any_place [] = any_place
listen_loop seg i any_place (b ∷ rest) =
    let skipped = listen_loop seg (suc i) any_place rest in
    let matched = listen_loop seg (suc i) (some i) rest in
    if not (on_netif seg b)
    then skipped
    else if is_any_type b.local_ip
    then matched
    else if same_type b.local_ip.type seg.dest.type
    then (if ip_addr_cmp b.local_ip seg.dest
        then some i
        else if ip_addr_isany b.local_ip
        then matched
        else skipped)
    else skipped

-- The block at a place, and the others.
unfoldable pub take_out : ℕ → List TcpBlock → Option (TcpBlock × List TcpBlock)
take_out i [] = none
take_out zero (b ∷ rest) = some (b, rest)
take_out (suc i) (b ∷ rest) = elim (take_out i rest) [
  | none ↦ none
  | some (found, others) ↦ some (found, b ∷ others)
]

unfoldable pub choose_listener : Segment → TcpLists → Target × TcpLists
unfolding listen_loop take_out
choose_listener seg s = elim (listen_loop seg 0 none s.listening) [
  | none ↦ (nobody, s)
  | some i ↦ elim (take_out i s.listening) [
    | none ↦ (nobody, s)
    | some (l, others) ↦ (to_listener l, record s { listening = l ∷ others })
  ]
]

unfoldable pub choose : Segment → TcpLists → Target × TcpLists
unfolding search_active search_time_wait choose_listener
choose seg s = elim (search_active seg s.active) [
  | some (b, others) ↦ (to_active b, record s { active = b ∷ others })
  | none ↦ elim (search_time_wait seg s.time_wait) [
    | some b ↦ (to_time_wait b, s)
    | none ↦ choose_listener seg s
  ]
]
