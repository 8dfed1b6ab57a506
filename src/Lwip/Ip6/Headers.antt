-- ===== src/Lwip/Ip6/Headers.antt =====
-- The walk over extension headers that are skipped.
use libn2t.Common.{
  ℕ, zero, suc, ◌+◌, ◌%◌, ◌≡◌, ◌<◌, ◌≤◌, ◌⊎◌, inl, inr, refl, sym, ap, ◌∙◌, Bool, true, false, List,
  [], ◌∷◌, ◌++◌, All, none, some, length, length-append, drop, get_or, get_or-drop, drop-append,
  append_assoc, arith, u16,
}
use libn2t.Lwip.Addresses.{IpAddr}
use libn2t.Lwip.Pbuf.{Pbuf, content, IsPacket}
use libn2t.Lwip.Pbuf.Alloc.{first_len}
use libn2t.Lwip.Pbuf.Headers.RoundTrip.{hidden, remove_lem, hidden-IsPacket, content-hidden}
use libn2t.Lwip.Udp.Input.{byte, word}
use libn2t.Lwip.Ip6.{
  Walk, options_done, options, skip, ext_len, does_not_fit, options_header, routing_header,
  fragment_header, one_header, is_extension, headers,
}
use libn2t.Lwip.Ip6.Extension.{
  Opt, Extension, pad1, tlv, hop_by_hop, destination, routing, atomic, opts_bytes, number, body,
  ext_bytes, first_number, exts_bytes, IsPassed, IsSkipped, AreSkipped,
}
use libn2t.Lwip.Ip6.Options.{byte-drop, options_lem}

-- Each header as it is skipped, from what its tests say.
options_header-skip :
    (dest_header : Bool) (dest : IpAddr) (w : Walk)
    → does_not_fit w.chain (ext_len w.chain) ≡ false
    → options (ext_len w.chain) dest_header (ext_len w.chain) 2 dest w.chain ≡ some none
    → options_header dest_header dest w ≡ skip (ext_len w.chain) w
unfolding options_header
options_header-skip dest_header dest w fits passed = rw fits (rw passed refl)

routing_header-skip :
    (w : Walk)
    → does_not_fit w.chain (ext_len w.chain) ≡ false
    → (byte w.chain 3 ≡ 0)
      ⊎ (((byte w.chain 2 ≡ 2) ⊎ (byte w.chain 2 ≡ 3)) × (byte w.chain 1 % 2 ≡ 0))
    → routing_header w ≡ skip (ext_len w.chain) w
unfolding routing_header
routing_header-skip w fits (inl none_left) = rw fits (rw none_left refl)
routing_header-skip w fits (inr (type, even)) = rw fits (unfold routing_header in ground arith)

fragment_header-skip :
    (w : Walk) → 8 ≤ first_len w.chain → word w.chain 2 ≡ 0 → fragment_header w ≡ skip 8 w
unfolding fragment_header
fragment_header-skip w fits whole = ground arith

length-opts_bytes : (os : List Opt) → length os ≤ length (opts_bytes os)
length-opts_bytes [] = omega arith
length-opts_bytes (pad1 ∷ os) = omega (arith, length-opts_bytes os)
length-opts_bytes (tlv type value ∷ os) =
    omega (arith, length-opts_bytes os, length-append (type ∷ length value ∷ value) (opts_bytes os))

extension-number : (e : Extension) → is_extension (number e) ≡ true
extension-number (hop_by_hop os) = refl
extension-number (destination os) = refl
extension-number (routing type left content) = refl
extension-number (atomic id) = refl

headers-unfold :
    (k : ℕ) (dest : IpAddr) (w v : Walk)
    → is_extension w.nexth ≡ true
    → one_header dest w ≡ some (options_done v)
    → 0 < v.nexth
    → headers (suc k) dest w ≡ headers k dest v
unfolding headers
headers-unfold k dest w v extension step more = rw extension (rw step (ground (arith, more)))

pub length-exts_bytes : (es : List Extension) → length es ≤ length (exts_bytes es)
length-exts_bytes [] = omega arith
length-exts_bytes (e ∷ es) =
    omega
      (arith, length-exts_bytes es, length-append (ext_bytes (first_number es) e) (exts_bytes es))

module _ (plen first nexth tot : ℕ) (head : Pbuf) (next : List Pbuf) where
  abbrev pub at_header : Walk
  at_header = record {
    plen = plen;
    first = first;
    nexth = nexth;
    hlen_tot = tot;
    chain = head ∷ next;
  }

module _ (plen first tot : ℕ) (head : Pbuf) (next : List Pbuf) (dest : IpAddr)
    (packet : IsPacket (head ∷ next)) (following : ℕ) (e : Extension) (rest : List ℕ)
    (same : content (head ∷ next) ≡ ext_bytes following e ++ rest)
    (aligned : (2 + length (body e)) % 8 ≡ 0) (fits : 2 + length (body e) ≤ head.len) where
  abbrev size : ℕ
  size = 2 + length (body e)

  abbrev here : Walk
  here = at_header plen first (number e) tot head next

  abbrev behind : Walk
  behind = at_header plen first following (u16 (tot + size)) (hidden size head) next

  at : (i : ℕ) → i < head.len → byte (head ∷ next) i ≡ get_or (ext_bytes following e ++ rest) i 0
  at i h =
      byte-drop head next i packet h
      ∙ ap (λ l. get_or (drop i l) 0 0) same
      ∙ sym (get_or-drop i _ 0)

  long : 8 ≤ size
  long = omega (arith, aligned)

  ext_len_eq : ext_len (head ∷ next) ≡ size
  ext_len_eq = omega (arith, at 1 (omega (arith, fits)), aligned)

  in_bounds : does_not_fit (head ∷ next) (ext_len (head ∷ next)) ≡ false
  in_bounds = ground (arith, ext_len_eq, fits, long)

  skipped : skip size here ≡ some (options_done behind)
  skipped =
      rw (remove_lem head next size packet (omega arith) fits, skip)
        (rw (at 0 (omega (arith, fits))) refl)

  skipped_ext : skip (ext_len (head ∷ next)) here ≡ some (options_done behind)
  skipped_ext = ap (λ n. skip n here) ext_len_eq ∙ skipped

module _ (plen first tot : ℕ) (head : Pbuf) (next : List Pbuf) (dest : IpAddr)
    (packet : IsPacket (head ∷ next)) (following : ℕ) where
  -- The options of a header whose other bytes are right.
  passed :
      (dest_header : Bool) (e : Extension) (os : List Opt) (rest : List ℕ)
      → body e ≡ opts_bytes os
      → content (head ∷ next) ≡ ext_bytes following e ++ rest
      → (2 + length (body e)) % 8 ≡ 0
      → 2 + length (body e) ≤ head.len
      → All (IsPassed dest_header) os
      → options (ext_len (head ∷ next)) dest_header (ext_len (head ∷ next)) 2 dest (head ∷ next)
        ≡ some none
  passed dest_header e os rest which same aligned fits good =
      let size_eq =
        ext_len_eq plen first tot head next dest packet following e rest same aligned fits in
      options_lem head next packet dest_header (ext_len (head ∷ next)) dest
        (omega (arith, size_eq, fits)) os (ext_len (head ∷ next)) 2 rest good
        (omega (arith, size_eq, length-opts_bytes os, ap length which))
        (omega (arith, size_eq, ap length which)) (ap (drop 2) same ∙ ap (λ l. l ++ rest) which)

  one_header-skip :
      (e : Extension) (rest : List ℕ)
      → content (head ∷ next) ≡ ext_bytes following e ++ rest
      → IsSkipped e
      → (2 + length (body e)) % 8 ≡ 0
      → 2 + length (body e) ≤ head.len
      → one_header dest (at_header plen first (number e) tot head next)
        ≡ some (
            options_done (
              at_header plen first following
                (u16 (tot + (2 + length (body e))))
                (hidden (2 + length (body e)) head)
                next))
  one_header-skip (hop_by_hop os) rest same good aligned fits =
      options_header-skip false dest _
        (in_bounds plen first tot head next dest packet following (hop_by_hop os) rest same aligned
          fits)
        (passed false (hop_by_hop os) os rest refl same aligned fits good)
      ∙ skipped_ext plen first tot head next dest packet following (hop_by_hop os) rest same aligned
          fits
  one_header-skip (destination os) rest same good aligned fits =
      options_header-skip true dest _
        (in_bounds plen first tot head next dest packet following (destination os) rest same aligned
          fits)
        (passed true (destination os) os rest refl same aligned fits good)
      ∙ skipped_ext plen first tot head next dest packet following (destination os) rest same
          aligned fits
  one_header-skip (routing type left contents) rest same good aligned fits =
      let byte_at =
        at plen first tot head next dest packet following (routing type left contents) rest same
          aligned fits in
      routing_header-skip (at_header plen first 43 tot head next)
        (in_bounds plen first tot head next dest packet following (routing type left contents) rest
          same aligned fits)
        (rw (byte_at 3 (omega (arith, fits, aligned))) (
          rw (byte_at 2 (omega (arith, fits, aligned)))
            (rw (byte_at 1 (omega (arith, fits, aligned))) good)))
      ∙ skipped_ext plen first tot head next dest packet following (routing type left contents) rest
          same aligned fits
  one_header-skip (atomic id) rest same good aligned fits =
      let byte_at =
        at plen first tot head next dest packet following (atomic id) rest same aligned fits in
      fragment_header-skip (at_header plen first 44 tot head next) (omega (arith, fits, good)) (
        omega (arith, byte_at 2 (omega (arith, fits, good)), byte_at 3 (omega (arith, fits, good))))
      ∙ ap (λ n. skip n (at_header plen first 44 tot head next)) {x = 8}
          {y = 2 + length (body (atomic id))} (omega (arith, good))
      ∙ skipped plen first tot head next dest packet following (atomic id) rest same aligned fits

  -- The loop passes one header.
  headers-step :
      (k : ℕ) (e : Extension) (rest : List ℕ)
      → content (head ∷ next) ≡ ext_bytes following e ++ rest
      → IsSkipped e
      → (2 + length (body e)) % 8 ≡ 0
      → 2 + length (body e) ≤ head.len
      → 0 < following
      → headers (suc k) dest (at_header plen first (number e) tot head next)
        ≡ headers k dest (
            at_header plen first following
              (u16 (tot + (2 + length (body e))))
              (hidden (2 + length (body e)) head)
              next)
  headers-step k e rest same good aligned fits more =
      headers-unfold k dest _ _ (extension-number e) (one_header-skip e rest same good aligned fits)
        more

-- The end of the headers, where UDP follows.
headers-udp :
    (k plen first tot : ℕ) (head : Pbuf) (next : List Pbuf) (dest : IpAddr)
    → headers (suc k) dest (at_header plen first 17 tot head next)
      ≡ some (options_done (at_header plen first 17 tot head next))
unfolding headers
headers-udp k plen first tot head next dest = refl

-- Headers that are skipped, in front of UDP and in the first pbuf with the header of UDP, are taken
-- off, whatever the lengths so far, and what is left are the bytes behind them.
pub headers_lem :
    (es : List Extension) (fuel plen first tot : ℕ) (head : Pbuf) (next : List Pbuf) (dest : IpAddr)
    (rest : List ℕ)
    → IsPacket (head ∷ next)
    → content (head ∷ next) ≡ exts_bytes es ++ rest
    → AreSkipped es
    → length (exts_bytes es) + 8 ≤ head.len
    → length es < fuel
    → (len : ℕ) × (q : Pbuf) × (headers fuel dest
          (at_header plen first (first_number es) tot head next)
        ≡ some (options_done (at_header plen first 17 len q next)))
      × IsPacket (q ∷ next)
      × (content (q ∷ next) ≡ rest)
      × (8 ≤ q.len)
headers_lem es zero plen first tot head next dest rest packet same good room enough =
    absurd (omega (arith, enough))
headers_lem [] (suc k) plen first tot head next dest rest packet same good room enough =
    (tot, head, headers-udp k plen first tot head next dest, packet, same, omega (arith, room))
headers_lem (e ∷ es) (suc k) plen first tot head next dest rest packet same
      (good, aligned, small, more, others) room enough =
    let bytes = length-append (ext_bytes (first_number es) e) (exts_bytes es) in
    let parts = same ∙ append_assoc (ext_bytes (first_number es) e) (exts_bytes es) rest in
    let fits : 2 + length (body e) ≤ head.len = omega (arith, room, bytes) in
    let (len, q, run, packet', same', long) =
      headers_lem es k plen first (u16 (tot + (2 + length (body e))))
        (hidden (2 + length (body e)) head) next dest rest
        (hidden-IsPacket head next (2 + length (body e)) packet (omega arith) fits)
        (content-hidden head next (2 + length (body e)) packet (omega arith) fits
          ∙ ap (drop (2 + length (body e))) parts
          ∙ ap (λ k. drop k (ext_bytes (first_number es) e ++ (exts_bytes es ++ rest)))
              {x = 2 + length (body e)} {y = length (ext_bytes (first_number es) e)} (omega arith)
          ∙ drop-append (ext_bytes (first_number es) e) (exts_bytes es ++ rest))
        others (unfold hidden in omega (arith, room, bytes)) (omega (arith, enough)) in
    (
      len,
      q,
      headers-step plen first tot head next dest packet (first_number es) k e
            (exts_bytes es ++ rest) parts good aligned fits more
          ∙ run,
      packet',
      same',
      long,
    )
