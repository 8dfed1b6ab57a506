-- ===== src/Lwip/Ip6.antt =====
-- `ip6_input` of src/lwip/src/core/ipv6/ip6.c. As `ip4_input`, it is changed to go on with the
-- interface that the packet came from, so the search for one is left out. Addresses have no zones.
pub mod Input
pub mod Extension
pub mod Options
pub mod Headers
pub mod Datagram
pub mod Transport
pub mod Ending
pub mod Output
pub mod Owner
pub mod Delivery
use libn2t.Common.{
  ℕ, zero, suc, ◌+◌, ◌-◌, ◌*◌, ◌/◌, ◌%◌, Bool, true, false, not, ◌&&◌, ◌||◌, List, [], ◌∷◌, ◌++◌,
  Option, none, some, ltb, leb, ◌==◌, if◌then◌else◌, u16,
}
use libn2t.Lwip.Addresses.{v6, IpAddr, ip_addr_ismulticast, Netif}
use libn2t.Lwip.Pbuf.{Pbuf}
use libn2t.Lwip.Pbuf.Headers.{pbuf_remove_header, pbuf_add_header_force}
use libn2t.Lwip.Pbuf.Chains.{head_tot_len, pbuf_realloc}
use libn2t.Lwip.Pbuf.Alloc.{first_len}
use libn2t.Lwip.Udp.{Udp}
use libn2t.Lwip.Udp.Input.{IpData, byte, word, udp_input}
use libn2t.Lwip.Udp.Output.Exchange.{udp_chksum}
use libn2t.Lwip.Ip.{
  field, header, option, IpCall, free, udp, tcp_input, icmp6_input, icmp6_param_problem,
}

-- Four bytes, and an address of sixteen.
abbrev pub word32 : List Pbuf → ℕ → ℕ
word32 p i = word p i * 65536 + word p (i + 2)

abbrev pub address6 : List Pbuf → ℕ → IpAddr
address6 p i = record {
  type = v6;
  addr =
      word32 p i * 79228162514264337593543950336
      + word32 p (i + 4) * 18446744073709551616
      + word32 p (i + 8) * 4294967296
      + word32 p (i + 12);
}

abbrev pub ip6_addr_isipv4mappedipv6 : IpAddr → Bool
ip6_addr_isipv4mappedipv6 a = a.addr / 4294967296 == 65535

-- The second word of the address is not compared.
abbrev pub ip6_addr_issolicitednode : IpAddr → Bool
ip6_addr_issolicitednode a =
    a.addr / 79228162514264337593543950336 == 4278321152
    && (a.addr / 4294967296 % 4294967296 == 1 && a.addr / 16777216 % 256 == 255)

-- Where the walk over the headers is: the payload length and the next header of the fixed header, the
-- next header that is to be looked at, the length of the headers behind it, and the chain.
pub record Walk : Type 0 where
  pub plen : ℕ
  pub first : ℕ
  pub nexth : ℕ
  pub hlen_tot : ℕ
  pub chain : List Pbuf

-- The end of the headers, a packet that is dropped, or a fragment for `ip6_reass`.
pub data Outcome : Type 0 where
  options_done : Walk → Outcome
  dropped : List IpCall → Outcome
  fragment : Walk → Outcome

abbrev pub problem_unless_multicast : IpAddr → List Pbuf → List IpCall
problem_unless_multicast dest p =
    if ip_addr_ismulticast dest then free p ∷ [] else icmp6_param_problem option p ∷ free p ∷ []

-- What the highest two bits of the type of an unknown option ask for; `none` is to skip it.
abbrev pub unknown_option : ℕ → IpAddr → List Pbuf → Option (List IpCall)
unknown_option type dest p =
    if type / 64 % 4 == 1
    then some (free p ∷ [])
    else if type / 64 % 4 == 2
    then some (icmp6_param_problem option p ∷ free p ∷ [])
    else if type / 64 % 4 == 3
    then some (problem_unless_multicast dest p)
    else none

-- PAD1, PADN, ROUTER_ALERT, JUMBO and, in a destination header, HOME_ADDRESS.
abbrev pub is_known_option : Bool → ℕ → Bool
is_known_option dest_header type =
    type == 0 || (type == 1 || (type == 5 || (type == 194 || (dest_header && type == 201))))

abbrev pub option_len : List Pbuf → ℕ → ℕ
option_len p opt_offset = if byte p opt_offset == 0 then 1 else 2 + byte p (opt_offset + 1)

-- The options of a header of hlen bytes from an offset on: `some none` if all are passed, `some` and
-- the calls if the packet is dropped; without fuel `none`.
unfoldable pub options : ℕ → Bool → ℕ → ℕ → IpAddr → List Pbuf → Option (Option (List IpCall))
unfolding ip_addr_ismulticast
options zero dest_header hlen opt_offset dest p = none
options (suc fuel) dest_header hlen opt_offset dest p =
    let rest = options fuel dest_header hlen (opt_offset + option_len p opt_offset) dest p in
    if leb hlen opt_offset
    then some none
    else if is_known_option dest_header (byte p opt_offset)
    then rest
    else elim (unknown_option (byte p opt_offset) dest p) [
      | none ↦ rest
      | some calls ↦ some (some calls)
    ]

-- The header is skipped.
abbrev pub skip : ℕ → Walk → Option Outcome
skip hlen w = elim (pbuf_remove_header w.chain hlen) [
  | none ↦ none
  | some (failed, q) ↦ some (
      options_done
        (record w { nexth = byte w.chain 0; hlen_tot = u16 (w.hlen_tot + hlen); chain = q }))
]

abbrev pub ext_len : List Pbuf → ℕ
ext_len p = 8 * (1 + byte p 1)

abbrev pub does_not_fit : List Pbuf → ℕ → Bool
does_not_fit p hlen = ltb (first_len p) 8 || ltb (first_len p) hlen

abbrev pub drop_packet : List Pbuf → Option Outcome
drop_packet p = some (dropped (free p ∷ []))

abbrev pub drop_with : Walk → Option Outcome
drop_with w = some (dropped (icmp6_param_problem field w.chain ∷ free w.chain ∷ []))

-- IP6_NEXTH_HOPBYHOP and IP6_NEXTH_DESTOPTS.
unfoldable pub options_header : Bool → IpAddr → Walk → Option Outcome
unfolding options
options_header dest_header dest w =
    let hlen = ext_len w.chain in
    if does_not_fit w.chain hlen
    then drop_packet w.chain
    else elim (options hlen dest_header hlen 2 dest w.chain) [
      | none ↦ none
      | some none ↦ skip hlen w
      | some (some calls) ↦ some (dropped calls)
    ]

-- IP6_NEXTH_ROUTING: a header with segments left is refused if its length is odd or its type unknown.
unfoldable pub routing_header : Walk → Option Outcome
routing_header w =
    let hlen = ext_len w.chain in
    if does_not_fit w.chain hlen
    then drop_packet w.chain
    else if byte w.chain 3 == 0
    then skip hlen w
    else if byte w.chain 1 % 2 == 1
    then drop_with w
    else if byte w.chain 2 == 2 || byte w.chain 2 == 3
    then skip hlen w
    else drop_with w

-- IP6_NEXTH_FRAGMENT: a packet in one fragment goes on behind the header.
unfoldable pub fragment_header : Walk → Option Outcome
fragment_header w =
    if ltb (first_len w.chain) 8
    then drop_packet w.chain
    else if word w.chain 2 % 2 == 1 && not (w.plen % 8 == 0)
    then drop_with w
    else if word w.chain 2 / 8 == 0 && word w.chain 2 % 2 == 0
    then skip 8 w
    else some (fragment (record w { hlen_tot = u16 (w.hlen_tot + 8) }))

-- A hop-by-hop header behind another header is refused.
abbrev pub refuse_hop_by_hop : Walk → Option Outcome
refuse_hop_by_hop w = some (dropped (icmp6_param_problem header w.chain ∷ free w.chain ∷ []))

abbrev pub one_header : IpAddr → Walk → Option Outcome
one_header dest w =
    if w.nexth == 0
    then options_header false dest w
    else if w.nexth == 60
    then options_header true dest w
    else if w.nexth == 43
    then routing_header w
    else fragment_header w

abbrev pub is_extension : ℕ → Bool
is_extension nexth = nexth == 0 || (nexth == 60 || (nexth == 43 || nexth == 44))

-- The loop over the headers, up to a fragment. `none` is an assertion that fails, or no fuel.
unfoldable pub headers : ℕ → IpAddr → Walk → Option Outcome
unfolding options_header routing_header fragment_header
headers zero dest w = none
headers (suc fuel) dest w =
    if not (is_extension w.nexth) then some (options_done w) else elim (one_header dest w) [
      | none ↦ none
      | some (dropped calls) ↦ some (dropped calls)
      | some (fragment v) ↦ some (fragment v)
      | some (options_done v) ↦ if v.nexth == 0 then refuse_hop_by_hop v else headers fuel dest v
    ]

-- The fixed header is removed.
abbrev pub fixed_header : List Pbuf → Option Walk
fixed_header p = elim (pbuf_remove_header p 40) [
  | none ↦ none
  | some (failed, q) ↦
      some
        (record { plen = word p 4; first = byte p 6; nexth = byte p 6; hlen_tot = 40; chain = q })
]
