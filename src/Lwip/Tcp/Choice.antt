-- ===== src/Lwip/Tcp/Choice.antt =====
-- Each segment that comes to the choice gets a control block, and the next one of its connection the
-- same.
use libn2t.Common.{
  ◌≡◌, refl, sym, ap, ap₂, arith, ◌∙◌, ◌⊎◌, inl, inr, true, false, List, [], ◌∷◌, ◌++◌, none, some,
  Bool-cases,
}
use libn2t.Lwip.Addresses.{IpType, v4, v6, any_type, IpAddr, same_type, ip_addr_cmp, is_any_type}
use libn2t.Lwip.Tcp.{
  TcpBlock, TcpLists, Segment, to_active, to_time_wait, to_listener, on_netif, is_of, search_active,
  search_time_wait, listen_loop, take_out, choose_listener, choose,
}

-- The block is the connection of the segment: it has its two ends, remote and local, and stands on
-- its interface or on all.
abbrev pub IsConnection : Segment → TcpBlock → Type 0
IsConnection seg b =
    ((b.netif_idx ≡ 0) ⊎ (b.netif_idx ≡ seg.netif_idx))
    × (b.remote_ip ≡ seg.src)
    × (b.remote_port ≡ seg.src_port)
    × (b.local_ip ≡ seg.dest)
    × (b.local_port ≡ seg.dest_port)

same_type→≡ : (a b : IpType) → same_type a b ≡ true → a ≡ b
same_type→≡ v4 v4 h = refl
same_type→≡ v4 v6 h = ground arith
same_type→≡ v4 any_type h = ground arith
same_type→≡ v6 v4 h = ground arith
same_type→≡ v6 v6 h = refl
same_type→≡ v6 any_type h = ground arith
same_type→≡ any_type v4 h = ground arith
same_type→≡ any_type v6 h = ground arith
same_type→≡ any_type any_type h = refl

same_type_refl : (a : IpType) → same_type a a ≡ true
same_type_refl v4 = refl
same_type_refl v6 = refl
same_type_refl any_type = refl

ip_addr_cmp→≡ : (a b : IpAddr) → ip_addr_cmp a b ≡ true → a ≡ b
ip_addr_cmp→≡ a b h =
    let types : same_type a.type b.type ≡ true = ground arith in
    let numbers : a.addr ≡ b.addr = ground arith in
    ap₂ (λ t n. record { type = t; addr = n }) (same_type→≡ a.type b.type types) numbers

ip_addr_cmp_refl : (a : IpAddr) → ip_addr_cmp a a ≡ true
ip_addr_cmp_refl a = ground (arith, same_type_refl a.type)

is_of-IsConnection : (seg : Segment) (b : TcpBlock) → is_of seg b ≡ true → IsConnection seg b
is_of-IsConnection seg b h = (
  ground arith,
  ip_addr_cmp→≡ b.remote_ip seg.src (ground arith),
  ground arith,
  ip_addr_cmp→≡ b.local_ip seg.dest (ground arith),
  ground arith,
)

IsConnection-is_of : (seg : Segment) (b : TcpBlock) → IsConnection seg b → is_of seg b ≡ true
IsConnection-is_of seg b (netif, remote, remote_port, local, local_port) =
    let near : ip_addr_cmp b.local_ip seg.dest ≡ true = rw local (ip_addr_cmp_refl seg.dest) in
    let far : ip_addr_cmp b.remote_ip seg.src ≡ true = rw remote (ip_addr_cmp_refl seg.src) in
    ground arith

not_of : (seg : Segment) (b : TcpBlock) → is_of seg b ≡ false → ¬ IsConnection seg b
not_of seg b h c = ground (arith, IsConnection-is_of seg b c)

-- No block is of the connection.
abbrev pub AreOther : Segment → List TcpBlock → Type 0
AreOther seg [] = Unit {0}
AreOther seg (b ∷ rest) = (¬ IsConnection seg b) × AreOther seg rest

-- The first block of the connection, between others.
abbrev pub IsFirst : Segment → List TcpBlock → List TcpBlock → TcpBlock → List TcpBlock → Type 0
IsFirst seg bs before b after =
    (bs ≡ before ++ b ∷ after) × AreOther seg before × IsConnection seg b

search_active-cases :
    (seg : Segment) (bs : List TcpBlock)
    → ((search_active seg bs ≡ none) × AreOther seg bs)
      ⊎ ((before : List TcpBlock) × (b : TcpBlock) × (after : List TcpBlock) × (search_active seg bs
            ≡ some (b, before ++ after))
          × IsFirst seg bs before b after)
unfolding search_active
search_active-cases seg [] = inl (refl, tt)
search_active-cases seg (b ∷ rest) = elim (Bool-cases (is_of seg b)) [
  | inl same ↦ inr ([], b, rest, rw same refl, (refl, tt, is_of-IsConnection seg b same))
  | inr other ↦ elim (search_active-cases seg rest) [
    | inl (e, others) ↦ inl (rw other (rw e refl), (not_of seg b other, others))
    | inr (before, c, after, e, (split, others, same)) ↦ inr (
      b ∷ before,
      c,
      after,
      rw other (rw e refl),
      (ap (λ l. b ∷ l) split, (not_of seg b other, others), same),
    )
  ]
]

search_time_wait-cases :
    (seg : Segment) (bs : List TcpBlock)
    → ((search_time_wait seg bs ≡ none) × AreOther seg bs)
      ⊎ ((b : TcpBlock) × (search_time_wait seg bs ≡ some b) × IsConnection seg b)
unfolding search_time_wait
search_time_wait-cases seg [] = inl (refl, tt)
search_time_wait-cases seg (b ∷ rest) = elim (Bool-cases (is_of seg b)) [
  | inl same ↦ inr (b, rw same refl, is_of-IsConnection seg b same)
  | inr other ↦ elim (search_time_wait-cases seg rest) [
    | inl (e, others) ↦ inl (rw other e, (not_of seg b other, others))
    | inr (c, e, same) ↦ inr (c, rw other e, same)
  ]
]

choose_listener-alone :
    (seg : Segment) (s : TcpLists) (l : TcpBlock)
    → on_netif seg l ≡ true
    → is_any_type l.local_ip ≡ true
    → choose_listener seg (record s { listening = l ∷ [] })
      ≡ (to_listener l, record s { listening = l ∷ [] })
unfolding choose_listener listen_loop take_out
choose_listener-alone seg s l here any = rw (here, choose_listener) (rw any refl)

choose_listener-single :
    (seg : Segment) (s : TcpLists) (l : TcpBlock)
    → s.listening ≡ l ∷ []
    → on_netif seg l ≡ true
    → is_any_type l.local_ip ≡ true
    → choose_listener seg s ≡ (to_listener l, s)
choose_listener-single seg s l e here any =
    let same : record s { listening = l ∷ [] } ≡ s =
      ap (λ ls. record s { listening = ls }) (sym e) in
    ap (choose_listener seg) (sym same)
    ∙ choose_listener-alone seg s l here any
    ∙ ap (λ t. (to_listener l, t)) same

choose-first :
    (seg : Segment) (s : TcpLists) (b : TcpBlock) (after : List TcpBlock)
    → is_of seg b ≡ true
    → choose seg (record s { active = b ∷ after }) ≡ (to_active b, record s { active = b ∷ after })
unfolding choose search_active
choose-first seg s b after same = rw (same, choose) refl

-- With one listener, for addresses of any type and on the interface of the segment, the choice gives
-- each segment a control block: the first active one with its two addresses and its two ports, on its
-- interface or on all, which is then in front, with the others in their order, and gets the next
-- segment as well; only if there is none, one of its connection in TIME-WAIT; and only if there is
-- none of these either, the listener, whatever the port of the segment.
pub choose_lem :
    (seg : Segment) (s : TcpLists) (l : TcpBlock)
    → s.listening ≡ l ∷ []
    → on_netif seg l ≡ true
    → is_any_type l.local_ip ≡ true
    → ((before : List TcpBlock) × (b : TcpBlock) × (after : List TcpBlock) × IsFirst seg s.active
          before b after
        × (choose seg s ≡ (to_active b, record s { active = b ∷ (before ++ after) }))
        × (choose seg (record s { active = b ∷ (before ++ after) })
            ≡ (to_active b, record s { active = b ∷ (before ++ after) })))
      ⊎ (AreOther seg s.active
          × (((b : TcpBlock) × IsConnection seg b × (choose seg s ≡ (to_time_wait b, s)))
              ⊎ (AreOther seg s.time_wait × (choose seg s ≡ (to_listener l, s)))))
unfolding choose
choose_lem seg s l e here any = elim (search_active-cases seg s.active) [
  | inr (before, b, after, found, first) ↦ inl (
    before,
    b,
    after,
    first,
    rw (found, choose) refl,
    choose-first seg s b (before ++ after) (IsConnection-is_of seg b first.2),
  )
  | inl (not_active, others) ↦ elim (search_time_wait-cases seg s.time_wait) [
    | inr (b, found, same) ↦ inr (others, inl (b, same, rw (not_active, choose) (rw found refl)))
    | inl (not_waiting, quiet) ↦ inr (
      others,
      inr (
        quiet,
        rw (not_active, choose) (rw not_waiting (choose_listener-single seg s l e here any)),
      ),
    )
  ]
]
