-- ===== src/Examples/Datagrams.antt =====
-- Examples of src/lwip/src/core/udp.c.
use libn2t.Common.{ℕ, zero, suc, ◌-◌, ◌++◌, ◌≡◌, ◌⊎◌, true, false, List, [], ◌∷◌, some, arith}
use libn2t.Lwip.Addresses.{v4, ip_any_type, Netif}
use libn2t.Lwip.Pbuf.{Pbuf, Memory, content, total, IsPacket}
use libn2t.Lwip.Udp.{UdpErr, ok, UdpPcb, Udp, port_taken, udp_new_port, udp_bind}
use libn2t.Lwip.Udp.Ports.{IsLocal, IsFree, udp_new_port_lem}
use libn2t.Lwip.Udp.Binding.{IsExclusive, IsBound, udp_bind_lem}
use libn2t.Lwip.Udp.Input.{IpData}
use libn2t.Lwip.Udp.Output.{Output}
use libn2t.Lwip.Checksum.Pseudo.{pseudo_header, ip_chksum_pseudo_lem}
use libn2t.Lwip.Checksum.{ip_chksum_pseudo}
use libn2t.Lwip.Checksum.Sum.{reduce, words, AreBytes}
use libn2t.Examples.Data.{block}

-- The control block that the boundary makes.
abbrev pub boundary_pcb : UdpPcb
boundary_pcb = record {
  local_ip = ip_any_type;
  remote_ip = ip_any_type;
  netif_idx = 1;
  reuseaddr = false;
  tos = 0;
  ttl = 255;
  connected = false;
  multicast_loop = false;
  nochksum = false;
  local_port = 14514;
  remote_port = 0;
  mcast_ttl = 255;
  recv = some 7;
  recv_arg = 2;
}

-- ERR_OK of udp.c
abbrev pub granted : UdpErr
granted = ok

abbrev pub blocks : Udp
blocks = record { udp_port = 65535; udp_pcbs = 1 ∷ []; pcb = λ i. boundary_pcb }

abbrev pub tun : Netif
tun = record {
  index = 1;
  ip4_addr = 3232235777;
  netmask = 4294967040;
  has_broadcast = false;
  ip6_addrs = [];
}

-- From 10.0.0.2 to 8.8.8.8.
abbrev passing : IpData
passing = record {
  netif = tun;
  src = record { type = v4; addr = 167772162 };
  dest = record { type = v4; addr = 134744072 };
  header_tot_len = 20;
}

alone : IsExclusive blocks
alone i j li lj ne = absurd (ground arith)

udp_bind_lem_example : IsBound 2 ip_any_type 0 blocks (udp_bind 2 ip_any_type 0 blocks)
udp_bind_lem_example = udp_bind_lem 2 0 ip_any_type blocks (omega arith) alone

udp_new_port_lem_example :
    (port q : ℕ) × (udp_new_port 16385 0 blocks ≡ some (port, record blocks { udp_port = q }))
    × IsLocal q
    × (((port ≡ 0) × ((p : ℕ) → IsLocal p → port_taken p blocks.pcb blocks.udp_pcbs ≡ true))
        ⊎ (IsLocal port × IsFree port blocks.pcb blocks.udp_pcbs))
udp_new_port_lem_example = udp_new_port_lem blocks (omega arith)

abbrev hello : Pbuf
hello = block (104 ∷ 105 ∷ [])

abbrev zeroes : ℕ → List ℕ
zeroes zero = []
zeroes (suc n) = 0 ∷ zeroes n

abbrev heap : Memory
heap = record { pool = []; references = 0; heap = λ n. some (zeroes n) }

-- Two pbufs, the first of which ends in the middle of a word.
abbrev split : List Pbuf
split = record (block (1 ∷ 2 ∷ 3 ∷ [])) { tot_len = 5 } ∷ block (4 ∷ 5 ∷ []) ∷ []

split-IsPacket : IsPacket split
unfolding total
split-IsPacket = omega arith

split-AreBytes : AreBytes (content split)
unfolding content
split-AreBytes = (omega arith, (omega arith, (omega arith, (omega arith, (omega arith, tt)))))

ip_chksum_pseudo_lem_example :
    ip_chksum_pseudo (λ q. true) split 17 5 passing.src passing.dest
    ≡ 65535 - reduce (words (pseudo_header false 17 5 167772162 134744072 ++ content split))
ip_chksum_pseudo_lem_example =
    ip_chksum_pseudo_lem (λ q. true) split 17 5 passing.src passing.dest split-IsPacket
      split-AreBytes (omega arith) (omega arith)
