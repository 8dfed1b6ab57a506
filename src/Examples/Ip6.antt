-- ===== src/Examples/Ip6.antt =====
-- An example of the walk over the headers of IPv6.
use libn2t.Common.{ℕ, ◌≡◌, refl, Bool, false, List, [], ◌∷◌, ◌++◌, Option, none, some, arith}
use libn2t.Lwip.Addresses.{v6, IpAddr}
use libn2t.Lwip.Pbuf.{Pbuf, total, IsPacket}
use libn2t.Lwip.Ip6.{Walk, headers}
use libn2t.Lwip.Ip6.Ending.{Ends, IsStart}
use libn2t.Lwip.Ip6.Ending.Loop.{headers-Ends}
use libn2t.Lwip.Checksum.Pseudo.{bytes_v6}
use libn2t.Lwip.Ip6.Input.{ip6_input}
use libn2t.Lwip.Ip6.Owner.Input.{IsFragmentOf, ip6_input_lem}
use libn2t.Lwip.Udp.{Udp}
use libn2t.Lwip.Ip.{IpCall}
use libn2t.Examples.Data.{block}
use libn2t.Examples.Datagrams.{blocks, tun}

-- A header with an option that nobody knows and that asks for a report, in front of UDP.
abbrev behind_header : Walk
behind_header = record {
  plen = 16;
  first = 60;
  nexth = 60;
  hlen_tot = 40;
  chain = block (17 ∷ 0 ∷ 130 ∷ 4 ∷ 1 ∷ 2 ∷ 3 ∷ 4 ∷ 0 ∷ 1 ∷ 0 ∷ 2 ∷ 0 ∷ 8 ∷ 0 ∷ 0 ∷ []) ∷ [];
}

abbrev router : IpAddr
router = record { type = v6; addr = 1 }

behind_header-IsStart : IsStart behind_header
unfolding total
behind_header-IsStart = (omega arith, omega arith)

headers-Ends_example : Ends 0 behind_header (headers 17 router behind_header)
headers-Ends_example = headers-Ends router 17 behind_header behind_header-IsStart (omega arith)

-- The packet that has it, from ::1 to ::1.
abbrev whole_packet : Pbuf
whole_packet = block (
    (96 ∷ 0 ∷ 0 ∷ 0 ∷ 0 ∷ 8 ∷ 60 ∷ 64 ∷ [])
    ++ (bytes_v6 1 ++ (bytes_v6 1 ++ (17 ∷ 0 ∷ 130 ∷ 4 ∷ 1 ∷ 2 ∷ 3 ∷ 4 ∷ []))))

whole_packet-IsPacket : IsPacket (whole_packet ∷ [])
unfolding total
whole_packet-IsPacket = omega arith

abbrev keeps : ℕ → List Pbuf → Option (List Pbuf)
keeps len p = none

abbrev even : Pbuf → Bool
even p = false

ip6_input_lem_example :
    (calls : List IpCall) × (t : Udp) × (ip6_input even keeps 1 tun (whole_packet ∷ []) blocks
      ≡ some (calls, t))
    × (calls ≡ [] → IsFragmentOf (whole_packet ∷ []))
ip6_input_lem_example =
    ip6_input_lem even keeps 0 tun whole_packet [] blocks (λ len p. refl) whole_packet-IsPacket refl
