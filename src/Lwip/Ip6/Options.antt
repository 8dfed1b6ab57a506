-- ===== src/Lwip/Ip6/Options.antt =====
-- The options of an extension header.
use libn2t.Common.{
  ℕ, zero, suc, ◌+◌, ◌≡◌, ◌<◌, ◌≤◌, ◌⊎◌, inl, inr, sym, ap, ◌∙◌, Bool, true, List, [], ◌∷◌, ◌++◌,
  All, none, some, length, length-append, drop, get_or, get_or-drop, drop-drop, drop-append,
  append_assoc, arith,
}
use libn2t.Lwip.Addresses.{IpAddr}
use libn2t.Lwip.Pbuf.{Pbuf, content, IsPacket}
use libn2t.Lwip.Udp.Input.{byte}
use libn2t.Lwip.Ip.Input.{byte-content}
use libn2t.Lwip.Ip6.{is_known_option, unknown_option, option_len, options}
use libn2t.Lwip.Ip6.Extension.{Opt, pad1, tlv, opt_bytes, opts_bytes, IsPassed}

-- A byte of the first pbuf is the first one of the content from there on.
pub byte-drop :
    (p : Pbuf) (next : List Pbuf) (i : ℕ)
    → IsPacket (p ∷ next)
    → i < p.len
    → byte (p ∷ next) i ≡ get_or (drop i (content (p ∷ next))) 0 0
byte-drop p next i packet h = byte-content p next i packet h ∙ get_or-drop i (content (p ∷ next)) 0

options-end :
    (k : ℕ) (dest_header : Bool) (hlen : ℕ) (dest : IpAddr) (p : List Pbuf)
    → options (suc k) dest_header hlen hlen dest p ≡ some none
unfolding options
options-end k dest_header hlen dest p = ground arith

module _ (dest_header : Bool) (hlen : ℕ) (dest : IpAddr) (p : List Pbuf) where
  options_pass :
      (k off : ℕ)
      → off < hlen
      → (is_known_option dest_header (byte p off) ≡ true)
        ⊎ (unknown_option (byte p off) dest p ≡ none)
      → options (suc k) dest_header hlen off dest p
        ≡ options k dest_header hlen (off + option_len p off) dest p
  unfolding options
  options_pass k off h passed = ground arith

passes :
    (dest_header : Bool) (type : ℕ) (dest : IpAddr) (p : List Pbuf)
    → (type < 64) ⊎ ((type ≡ 194) ⊎ ((dest_header ≡ true) × (type ≡ 201)))
    → (is_known_option dest_header type ≡ true) ⊎ (unknown_option type dest p ≡ none)
passes dest_header type dest p (inl h) = inr (ground arith)
passes dest_header type dest p (inr (inl e)) = inl (ground arith)
passes dest_header type dest p (inr (inr (e, f))) = inl (ground arith)

module _ (head : Pbuf) (next : List Pbuf) (packet : IsPacket (head ∷ next)) (dest_header : Bool)
    (hlen : ℕ) (dest : IpAddr) (small : hlen ≤ head.len) where
  -- One option, and the content behind it.
  step :
      (k off : ℕ) (o : Opt) (rest : List ℕ)
      → IsPassed dest_header o
      → off + length (opt_bytes o) ≤ hlen
      → drop off (content (head ∷ next)) ≡ opt_bytes o ++ rest
      → options (suc k) dest_header hlen off dest (head ∷ next)
        ≡ options k dest_header hlen (off + length (opt_bytes o)) dest (head ∷ next)
  step k off pad1 rest passed h e =
      let type : byte (head ∷ next) off ≡ 0 =
        byte-drop head next off packet (omega (arith, h, small)) ∙ ap (λ l. get_or l 0 0) e in
      options_pass dest_header hlen dest (head ∷ next) k off (omega (arith, h))
        (inl (ap (is_known_option dest_header) type))
      ∙ ap (λ n. options k dest_header hlen (off + n) dest (head ∷ next)) (ground (arith, type))
  step k off (tlv type value) rest (positive, passed) h e =
      let type_eq : byte (head ∷ next) off ≡ type =
        byte-drop head next off packet (omega (arith, h, small)) ∙ ap (λ l. get_or l 0 0) e in
      let length_eq : byte (head ∷ next) (off + 1) ≡ length value =
        byte-drop head next (off + 1) packet (omega (arith, h, small))
        ∙ ap (λ l. get_or l 0 0) (sym (drop-drop 1 off (content (head ∷ next))) ∙ ap (drop 1) e) in
      options_pass dest_header hlen dest (head ∷ next) k off (omega (arith, h))
        (rw type_eq (passes dest_header type dest (head ∷ next) passed))
      ∙ ap (λ n. options k dest_header hlen (off + n) dest (head ∷ next))
          (ground (arith, type_eq, length_eq, positive))

  pub options_lem :
      (os : List Opt) (fuel off : ℕ) (rest : List ℕ)
      → All (IsPassed dest_header) os
      → length os < fuel
      → off + length (opts_bytes os) ≡ hlen
      → drop off (content (head ∷ next)) ≡ opts_bytes os ++ rest
      → options fuel dest_header hlen off dest (head ∷ next) ≡ some none
  options_lem os zero off rest passed enough h e = absurd (omega (arith, enough))
  options_lem [] (suc k) off rest passed enough h e =
      ap (λ n. options (suc k) dest_header hlen n dest (head ∷ next)) {x = off} {y = hlen}
        (omega (arith, h))
      ∙ options-end k dest_header hlen dest (head ∷ next)
  options_lem (o ∷ os) (suc k) off rest (passed, others) enough h e =
      let parts = e ∙ append_assoc (opt_bytes o) (opts_bytes os) rest in
      let size = length-append (opt_bytes o) (opts_bytes os) in
      step k off o (opts_bytes os ++ rest) passed (omega (arith, h, size)) parts
      ∙ options_lem os k (off + length (opt_bytes o)) rest others (omega (arith, enough))
          (omega (arith, h, size))
          (sym (drop-drop (length (opt_bytes o)) off (content (head ∷ next)))
            ∙ ap (drop (length (opt_bytes o))) parts
            ∙ drop-append (opt_bytes o) (opts_bytes os ++ rest))
