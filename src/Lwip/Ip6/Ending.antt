-- ===== src/Lwip/Ip6/Ending.antt =====
-- The loop over the options of an extension header ends, and a header is skipped.
pub mod Header
pub mod Loop
use mathlib.Core.Path.{subst}
use libn2t.Common.{
  ℕ, zero, suc, ◌+◌, ◌-◌, ◌*◌, ◌/◌, ◌%◌, ◌≡◌, ◌<◌, ◌≤◌, ◌⊎◌, inl, inr, refl, sym, ap, ◌∙◌, Bool,
  true, false, not, List, [], ◌∷◌, ◌++◌, Option, none, some, length, drop, drop-drop, arith, ltb,
  leb, ◌==◌, ◌||◌, ◌&&◌, u16, if◌then◌else◌, Bool-cases, Option-cases,
}
use libn2t.Lwip.Addresses.{IpAddr, ip_addr_ismulticast}
use libn2t.Lwip.Pbuf.{Pbuf, content, IsPacket}
use libn2t.Lwip.Pbuf.Alloc.{first_len}
use libn2t.Lwip.Pbuf.Headers.{is_contiguous, pbuf_remove_header}
use libn2t.Lwip.Pbuf.Headers.RoundTrip.{hidden, remove_lem, hidden-IsPacket, content-hidden}
use libn2t.Lwip.Udp.Input.{byte, word}
use libn2t.Lwip.Ip.{Problem, field, header, option, IpCall, free, icmp6_param_problem}
use libn2t.Lwip.Ip6.{
  Walk, Outcome, options_done, dropped, fragment, options, option_len, is_known_option,
  unknown_option, skip, ext_len, does_not_fit, options_header, routing_header, fragment_header,
  one_header, is_extension, headers, refuse_hop_by_hop, problem_unless_multicast,
}

-- A chain is freed, once, and at most reported before that.
abbrev pub Discards : List Pbuf → List IpCall → Type 0
Discards p calls =
    (calls ≡ free p ∷ []) ⊎ ((c : Problem) × (calls ≡ icmp6_param_problem c p ∷ free p ∷ []))

free-Discards : (p : List Pbuf) → Discards p (free p ∷ [])
free-Discards p = inl refl

-- What the loop over the options returns.
abbrev pub AfterOptions : List Pbuf → Option (List IpCall) → Type 0
AfterOptions p none = Unit
AfterOptions p (some calls) = Discards p calls

unknown_option-Discards :
    (type : ℕ) (dest : IpAddr) (p : List Pbuf) → AfterOptions p (unknown_option type dest p)
unknown_option-Discards type dest p = elim (Bool-cases (type / 64 % 4 == 1)) [
  | inl one ↦ rw one (inl refl)
  | inr a ↦ elim (Bool-cases (type / 64 % 4 == 2)) [
    | inl two ↦ rw a (rw two (inr (option, refl)))
    | inr b ↦ elim (Bool-cases (type / 64 % 4 == 3)) [
      | inl three ↦ rw a (rw b (rw three (multicast dest p)))
      | inr c ↦ rw a (rw b (rw c tt))
    ]
  ]
]
  where
    multicast : (dest : IpAddr) (p : List Pbuf) → Discards p (problem_unless_multicast dest p)
    multicast dest p = elim (Bool-cases (ip_addr_ismulticast dest)) [
      | inl m ↦ rw m (inl refl)
      | inr m ↦ rw m (inr (option, refl))
    ]

module _ (dest_header : Bool) (hlen : ℕ) (dest : IpAddr) (p : List Pbuf) where
  options-turn :
      (k off : ℕ)
      → ((r : Option (List IpCall)) × (options (suc k) dest_header hlen off dest p ≡ some r)
          × AfterOptions p r)
        ⊎ ((off < hlen)
            × (options (suc k) dest_header hlen off dest p
                ≡ options k dest_header hlen (off + option_len p off) dest p))
  unfolding options
  options-turn k off = elim (Bool-cases (leb hlen off)) [
    | inl over ↦ inl (none, rw over refl, tt)
    | inr inside ↦ elim (Bool-cases (is_known_option dest_header (byte p off))) [
      | inl known ↦ inr (ground arith, rw inside (rw known refl))
      | inr other ↦ elim (Option-cases (unknown_option (byte p off) dest p)) [
        | inl pass ↦ inr (ground arith, rw inside (rw other (rw pass refl)))
        | inr (calls, e) ↦ inl (
          some calls,
          rw inside (rw other (rw e refl)),
          subst (AfterOptions p) e (unknown_option-Discards (byte p off) dest p),
        )
      ]
    ]
  ]

  pub options-ends :
      (fuel off : ℕ)
      → hlen - off < fuel
      → (r : Option (List IpCall)) × (options fuel dest_header hlen off dest p ≡ some r)
        × AfterOptions p r
  options-ends zero off h = absurd (omega (arith, h))
  options-ends (suc k) off h = elim (options-turn k off) [
    | inl ended ↦ ended
    | inr (inside, step) ↦
        let (r, e, after) = options-ends k (off + option_len p off) (ground arith) in
        (r, step ∙ e, after)
  ]

-- Whether the first pbuf has its memory behind its structure, as those of the pool have.
abbrev pub has_memory : List Pbuf → Bool
has_memory [] = false
has_memory (p ∷ next) = is_contiguous p.type_internal

-- The bytes behind the first `n` are left, with the lengths changed by that and, for the length of the
-- headers, by `more`.
abbrev pub IsBehind : ℕ → ℕ → Walk → Walk → Type 0
IsBehind n more w v =
    IsPacket v.chain
    × (first_len v.chain + n ≡ first_len w.chain)
    × (content v.chain ≡ drop n (content w.chain))
    × (v.hlen_tot ≡ w.hlen_tot + n + more)
    × (has_memory v.chain ≡ has_memory w.chain)

-- Headers of `least` bytes or more are passed, or the chain behind some of them is discarded, or it is
-- left for `ip6_reass`, which has the header of the fragment counted.
abbrev pub After : ℕ → Walk → Outcome → Type 0
After least w (options_done v) = (n : ℕ) × (least ≤ n) × IsBehind n 0 w v
After least w (dropped calls) =
    (n : ℕ) × (q : List Pbuf) × IsPacket q
    × (content q ≡ drop n (content w.chain))
    × Discards q calls
After least w (fragment v) = (n : ℕ) × (8 ≤ first_len v.chain) × IsBehind n 8 w v

abbrev pub Ends : ℕ → Walk → Option Outcome → Type 0
Ends least w r = (o : Outcome) × (r ≡ some o) × After least w o

pub skip-chain :
    (plen first nexth tot hlen : ℕ) (p : List Pbuf)
    → IsPacket p
    → 8 ≤ hlen
    → hlen ≤ first_len p
    → tot + first_len p < 65536
    → Ends 8
        (record { plen = plen; first = first; nexth = nexth; hlen_tot = tot; chain = p })
        (skip hlen
          (record { plen = plen; first = first; nexth = nexth; hlen_tot = tot; chain = p }))
skip-chain plen first nexth tot hlen [] packet long fits small = absurd (omega (arith, fits, long))
skip-chain plen first nexth tot hlen (q ∷ next) packet long fits small =
    let positive : 0 < hlen = omega (arith, long) in
    (
      options_done (record {
        plen = plen;
        first = first;
        nexth = byte (q ∷ next) 0;
        hlen_tot = u16 (tot + hlen);
        chain = hidden hlen q ∷ next;
      }),
      rw (remove_lem q next hlen packet positive fits, skip) refl,
      (
        hlen,
        long,
        (
          hidden-IsPacket q next hlen packet positive fits,
          unfold hidden in omega (arith, fits),
          content-hidden q next hlen packet positive fits,
          omega (arith, small, fits),
          unfold hidden in refl,
        ),
      ),
    )

-- What a packet needs for the walk.
abbrev pub IsStart : Walk → Type 0
IsStart w = IsPacket w.chain × (w.hlen_tot + first_len w.chain < 65536)
