-- ===== src/Lwip/Ip6/Output.antt =====
-- `ip6_output_if_src` of src/lwip/src/core/ipv6/ip6.c, where the header is not included yet.
pub mod Header
pub mod WellFormed
pub mod Sending
use libn2t.Common.{
  ℕ, ◌+◌, ◌-◌, ◌*◌, ◌/◌, ◌%◌, Bool, true, false, not, ◌&&◌, List, [], ◌∷◌, ◌++◌, Option, none, some,
  drop, ltb, ◌==◌, if◌then◌else◌, u16,
}
use libn2t.Lwip.Pbuf.{Pbuf}
use libn2t.Lwip.Pbuf.Headers.{pbuf_add_header}
use libn2t.Lwip.Udp.Output.{be16}

-- ERR_BUF, or the chain goes to the interface, in one piece or in fragments.
pub data Ip6Output : Type 0 where
  buf : Ip6Output
  output_ip6 : List Pbuf → Ip6Output
  ip6_frag : List Pbuf → Ip6Output

abbrev pub addr_bytes : ℕ → List ℕ
addr_bytes a =
    be16 (a / 5192296858534827628530496329220096)
    ++ (be16 (a / 79228162514264337593543950336)
        ++ (be16 (a / 1208925819614629174706176)
            ++ (be16 (a / 18446744073709551616)
                ++ (be16 (a / 281474976710656)
                    ++ (be16 (a / 4294967296) ++ (be16 (a / 65536) ++ be16 a))))))

-- The version, the traffic class and the flow label 0.
abbrev pub v_tc_fl : ℕ → ℕ
v_tc_fl tc = 6 * 268435456 + tc * 1048576

abbrev pub ip6_header : ℕ → ℕ → ℕ → ℕ → ℕ → ℕ → List ℕ
ip6_header tc plen nexth hl src dest =
    be16 (v_tc_fl tc / 65536)
    ++ (be16 (v_tc_fl tc) ++ (be16 plen ++ (nexth ∷ hl ∷ (addr_bytes src ++ addr_bytes dest))))

-- The last two arguments are the MTU of the interface and what `nd6_get_destination_mtu` returns.
-- `none` is an assertion that fails.
unfoldable pub ip6_output_if_src : List Pbuf → ℕ → ℕ → ℕ → ℕ → ℕ → ℕ → ℕ → Option Ip6Output
ip6_output_if_src [] src dest hl tc nexth mtu dest_mtu = none
ip6_output_if_src (head ∷ next) src dest hl tc nexth mtu dest_mtu =
    if not (head.ref == 1) then none else elim (pbuf_add_header (head ∷ next) 40) [
      | none ↦ none
      | some (true, p) ↦ some buf
      | some (false, []) ↦ none
      | some (false, q ∷ more) ↦
          if ltb q.len 40
          then none
          else let header = ip6_header tc (u16 (q.tot_len - 40)) nexth hl src dest in
            let p = record q { payload = header ++ drop 40 q.payload } ∷ more in
            if not (mtu == 0) && ltb dest_mtu q.tot_len
            then some (ip6_frag p)
            else some (output_ip6 p)
    ]
