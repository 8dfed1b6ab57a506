-- ===== src/Lwip/Ip6/Ending/Header.antt =====
-- One extension header.
use libn2t.Common.{
  ℕ, ◌+◌, ◌/◌, ◌%◌, ◌≡◌, ◌≤◌, inl, inr, refl, Bool, true, false, not, List, none, some, arith, ltb,
  ◌==◌, ◌||◌, ◌&&◌, u16, Bool-cases,
}
use libn2t.Lwip.Addresses.{IpAddr}
use libn2t.Lwip.Pbuf.Alloc.{first_len}
use libn2t.Lwip.Udp.Input.{byte, word}
use libn2t.Lwip.Ip.{field, IpCall}
use libn2t.Lwip.Ip6.{
  Walk, dropped, fragment, skip, ext_len, does_not_fit, options_header, routing_header,
  fragment_header, one_header,
}
use libn2t.Lwip.Ip6.Ending.{Discards, AfterOptions, options-ends, Ends, skip-chain, IsStart}

module _ (w : Walk) (start : IsStart w) where
  skip-Ends : (hlen : ℕ) → 8 ≤ hlen → hlen ≤ first_len w.chain → Ends 8 w (skip hlen w)
  skip-Ends hlen long fits =
      skip-chain w.plen w.first w.nexth w.hlen_tot hlen w.chain start.0 long fits start.1

  discarded : (calls : List IpCall) → Discards w.chain calls → Ends 8 w (some (dropped calls))
  discarded calls freed = (dropped calls, refl, (0, w.chain, start.0, refl, freed))

  fits_in : (hlen : ℕ) → does_not_fit w.chain hlen ≡ false → hlen ≤ first_len w.chain
  fits_in hlen e = ground arith

  options_header-Ends :
      (dest_header : Bool) (dest : IpAddr) → Ends 8 w (options_header dest_header dest w)
  unfolding options_header
  options_header-Ends dest_header dest =
      elim (Bool-cases (does_not_fit w.chain (ext_len w.chain))) [
        | inl short ↦ rw short (discarded _ (inl refl))
        | inr fits ↦
            let (r, e, after) =
              options-ends dest_header (ext_len w.chain) dest w.chain (ext_len w.chain) 2
                (omega arith) in
            rw fits (
              rw e (
                elim r
                    as (λ r.
                      AfterOptions w.chain r
                      → Ends 8 w (elim r [
                        | none ↦ skip (ext_len w.chain) w
                        | some calls ↦ some (dropped calls)
                      ])) [
                        | none ↦ λ _.
                            skip-Ends (ext_len w.chain) (omega arith)
                              (fits_in (ext_len w.chain) fits)
                        | some calls ↦ λ freed. discarded calls freed
                      ]
                  after))
      ]

  routing_header-Ends : Ends 8 w (routing_header w)
  unfolding routing_header
  routing_header-Ends = elim (Bool-cases (does_not_fit w.chain (ext_len w.chain))) [
    | inl short ↦ rw short (discarded _ (inl refl))
    | inr fits ↦
        let skipped = skip-Ends (ext_len w.chain) (omega arith) (fits_in (ext_len w.chain) fits) in
        let refused = discarded _ (inr (field, refl)) in
        elim (Bool-cases (byte w.chain 3 == 0)) [
          | inl none_left ↦ rw fits (rw none_left skipped)
          | inr left ↦ elim (Bool-cases (byte w.chain 1 % 2 == 1)) [
            | inl odd ↦ rw fits (rw left (rw odd refused))
            | inr even ↦ elim (Bool-cases (byte w.chain 2 == 2 || byte w.chain 2 == 3)) [
              | inl known ↦ rw fits (rw left (rw even (rw known skipped)))
              | inr unknown ↦ rw fits (rw left (rw even (rw unknown refused)))
            ]
          ]
        ]
  ]

  long_first : ltb (first_len w.chain) 8 ≡ false → 8 ≤ first_len w.chain
  long_first e = ground arith

  fragment_header-Ends : Ends 8 w (fragment_header w)
  unfolding fragment_header
  fragment_header-Ends = elim (Bool-cases (ltb (first_len w.chain) 8)) [
    | inl short ↦ rw short (discarded _ (inl refl))
    | inr long ↦ elim (Bool-cases (word w.chain 2 % 2 == 1 && not (w.plen % 8 == 0))) [
      | inl uneven ↦ rw long (rw uneven (discarded _ (inr (field, refl))))
      | inr even ↦ elim (Bool-cases (word w.chain 2 / 8 == 0 && word w.chain 2 % 2 == 0)) [
        | inl whole ↦ rw long (rw even (rw whole (skip-Ends 8 (omega arith) (long_first long))))
        | inr part ↦ rw long (rw even (rw part (held (long_first long))))
      ]
    ]
  ]
    where
      held :
          8 ≤ first_len w.chain
          → Ends 8 w (some (fragment (record w { hlen_tot = u16 (w.hlen_tot + 8) })))
      held fits = (
        fragment (record w { hlen_tot = u16 (w.hlen_tot + 8) }),
        refl,
        (0, fits, (start.0, omega arith, refl, omega (arith, start.1, fits), refl)),
      )

  pub one_header-Ends : (dest : IpAddr) → Ends 8 w (one_header dest w)
  one_header-Ends dest = elim (Bool-cases (w.nexth == 0)) [
    | inl hop ↦ rw hop (options_header-Ends false dest)
    | inr a ↦ elim (Bool-cases (w.nexth == 60)) [
      | inl destination ↦ rw a (rw destination (options_header-Ends true dest))
      | inr b ↦ elim (Bool-cases (w.nexth == 43)) [
        | inl routing ↦ rw a (rw b (rw routing routing_header-Ends))
        | inr c ↦ rw a (rw b (rw c fragment_header-Ends))
      ]
    ]
  ]
