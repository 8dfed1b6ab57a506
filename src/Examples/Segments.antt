-- ===== src/Examples/Segments.antt =====
-- Examples of the choice of a control block in src/lwip/src/core/tcp_in.c.
use libn2t.Common.{ℕ, ◌≡◌, refl, ◌⊎◌, List, [], ◌∷◌, ◌++◌}
use libn2t.Lwip.Addresses.{v4, IpAddr, ip_any_type}
use libn2t.Lwip.Tcp.{TcpBlock, TcpLists, Segment, to_active, to_time_wait, to_listener, choose}
use libn2t.Lwip.Tcp.Choice.{IsConnection, AreOther, IsFirst, choose_lem}

abbrev v4_address : ℕ → IpAddr
v4_address a = record { type = v4; addr = a }

-- Connections of two ports of one application to one server.
abbrev connection : ℕ → ℕ → TcpBlock
connection id port = record {
  id = id;
  netif_idx = 1;
  local_ip = v4_address 134744072;
  local_port = 443;
  remote_ip = v4_address 167772162;
  remote_port = port;
}

abbrev listener : TcpBlock
listener = record {
  id = 9;
  netif_idx = 1;
  local_ip = ip_any_type;
  local_port = 14514;
  remote_ip = ip_any_type;
  remote_port = 0;
}

abbrev lists : TcpLists
lists = record {
  active = connection 1 4000 ∷ connection 2 4001 ∷ [];
  time_wait = [];
  listening = listener ∷ [];
}

abbrev segment : Segment
segment = record {
  netif_idx = 1;
  src = v4_address 167772162;
  src_port = 4001;
  dest = v4_address 134744072;
  dest_port = 443;
}

choose_lem_example :
    ((before : List TcpBlock) × (b : TcpBlock) × (after : List TcpBlock) × IsFirst segment
        lists.active before b after
      × (choose segment lists ≡ (to_active b, record lists { active = b ∷ (before ++ after) }))
      × (choose segment (record lists { active = b ∷ (before ++ after) })
          ≡ (to_active b, record lists { active = b ∷ (before ++ after) })))
    ⊎ (AreOther segment lists.active
        × (((b : TcpBlock) × IsConnection segment b
              × (choose segment lists ≡ (to_time_wait b, lists)))
            ⊎ (AreOther segment lists.time_wait
                × (choose segment lists ≡ (to_listener listener, lists)))))
choose_lem_example = choose_lem segment lists listener refl refl refl
