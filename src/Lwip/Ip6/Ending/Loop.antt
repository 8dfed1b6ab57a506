-- ===== src/Lwip/Ip6/Ending/Loop.antt =====
-- The loop over the extension headers ends.
use libn2t.Common.{
  ℕ, zero, suc, ◌+◌, ◌≡◌, ◌<◌, inl, inr, refl, ap, ◌∙◌, true, false, List, [], ◌∷◌, some, drop,
  drop-drop, arith, ◌==◌, if◌then◌else◌, Bool-cases,
}
use libn2t.Lwip.Addresses.{IpAddr}
use libn2t.Lwip.Pbuf.{content}
use libn2t.Lwip.Pbuf.Alloc.{first_len}
use libn2t.Lwip.Ip.{header, IpCall, free, icmp6_param_problem}
use libn2t.Lwip.Ip6.{
  Walk, Outcome, options_done, dropped, fragment, one_header, is_extension, headers,
  refuse_hop_by_hop,
}
use libn2t.Lwip.Ip6.Ending.{IsBehind, After, Ends, IsStart}
use libn2t.Lwip.Ip6.Ending.Header.{one_header-Ends}

-- What comes after one header, seen from in front of it.
behind-After : (n : ℕ) (w v : Walk) (o : Outcome) → IsBehind n 0 w v → After 0 v o → After 0 w o
behind-After n w v (options_done u) (packet, len, bytes, tot, kind) (k, least, behind) = (
  n + k,
  omega arith,
  (
    behind.0,
    omega (arith, len, behind.1),
    behind.2 ∙ ap (drop k) bytes ∙ drop-drop k n (content w.chain),
    omega (arith, tot, behind.3),
    behind.4 ∙ kind,
  ),
)
behind-After n w v (dropped calls) (packet, len, bytes, tot, kind) (k, q, packet', bytes', freed) =
    (n + k, q, packet', bytes' ∙ ap (drop k) bytes ∙ drop-drop k n (content w.chain), freed)
behind-After n w v (fragment u) (packet, len, bytes, tot, kind) (k, long, behind) = (
  n + k,
  long,
  (
    behind.0,
    omega (arith, len, behind.1),
    behind.2 ∙ ap (drop k) bytes ∙ drop-drop k n (content w.chain),
    omega (arith, tot, behind.3),
    behind.4 ∙ kind,
  ),
)

After-weaken : (w : Walk) (o : Outcome) → After 8 w o → After 0 w o
After-weaken w (options_done v) (n, long, behind) = (n, omega arith, behind)
After-weaken w (dropped calls) after = after
After-weaken w (fragment v) after = after

module _ (dest : IpAddr) where
  not_extension :
      (k : ℕ) (w : Walk)
      → is_extension w.nexth ≡ false
      → headers (suc k) dest w ≡ some (options_done w)
  unfolding headers
  not_extension k w e = rw e refl

  behind_header :
      (k : ℕ) (w v : Walk)
      → is_extension w.nexth ≡ true
      → one_header dest w ≡ some (options_done v)
      → headers (suc k) dest w ≡ (if v.nexth == 0 then refuse_hop_by_hop v else headers k dest v)
  unfolding headers
  behind_header k w v extension step = rw extension (rw (step) refl)

  at_drop :
      (k : ℕ) (w : Walk) (calls : List IpCall)
      → is_extension w.nexth ≡ true
      → one_header dest w ≡ some (dropped calls)
      → headers (suc k) dest w ≡ some (dropped calls)
  unfolding headers
  at_drop k w calls extension step = rw extension (rw step refl)

  at_fragment :
      (k : ℕ) (w v : Walk)
      → is_extension w.nexth ≡ true
      → one_header dest w ≡ some (fragment v)
      → headers (suc k) dest w ≡ some (fragment v)
  unfolding headers
  at_fragment k w v extension step = rw extension (rw step refl)

  headers_step :
      (k : ℕ) (w : Walk) (o : Outcome)
      → ((v : Walk) → IsStart v → first_len v.chain < k → Ends 0 v (headers k dest v))
      → IsStart w
      → first_len w.chain < suc k
      → is_extension w.nexth ≡ true
      → one_header dest w ≡ some o
      → After 8 w o
      → Ends 0 w (headers (suc k) dest w)
  headers_step k w (dropped calls) ends start enough extension step after =
      (dropped calls, at_drop k w calls extension step, after)
  headers_step k w (fragment v) ends start enough extension step after =
      (fragment v, at_fragment k w v extension step, after)
  headers_step k w (options_done v) ends start enough extension step
        (n, long, (packet, len, bytes, tot, kind)) =
      elim (Bool-cases (v.nexth == 0)) [
        | inl hop ↦ (
          dropped (icmp6_param_problem header v.chain ∷ free v.chain ∷ []),
          behind_header k w v extension step ∙ rw hop refl,
          (n, v.chain, packet, bytes, inr (header, refl)),
        )
        | inr more ↦
            let (o, e, after) =
              ends v (packet, omega (arith, start.1, len, tot)) (omega (arith, enough, len)) in
            (
              o,
              behind_header k w v extension step ∙ rw more e,
              behind-After n w v o (packet, len, bytes, tot, kind) after,
            )
      ]

  -- For every packet whose headers so far and first pbuf have fewer than 2 ^ 16 bytes together, the loop
  -- over the extension headers ends on each fuel above the length of the first pbuf, and no assertion
  -- fails: either headers were passed, with their bytes taken off the packet and counted; or what is left
  -- of the packet behind some of its bytes is reported at most once and then freed, once; or a fragment
  -- is left, with its own header still on it and counted.
  pub headers-Ends :
      (fuel : ℕ) (w : Walk) → IsStart w → first_len w.chain < fuel → Ends 0 w (headers fuel dest w)
  headers-Ends zero w start enough = absurd (omega (arith, enough))
  headers-Ends (suc k) w start enough = elim (Bool-cases (is_extension w.nexth)) [
    | inr upper ↦ (
      options_done w,
      not_extension k w upper,
      (0, omega arith, (start.0, omega arith, refl, omega arith, refl)),
    )
    | inl extension ↦
        let (o, e, after) = one_header-Ends w start dest in
        headers_step k w o (headers-Ends k) start enough extension e after
  ]
