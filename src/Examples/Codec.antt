-- ===== src/Examples/Codec.antt =====
-- Examples of the conversions of src/n2t/utils.cpp.
use libn2t.Common.{ℕ, ◌+◌, ◌≡◌, refl, List, [], ◌∷◌, some, arith, length, take, take-all}
use libn2t.Utils.Pbuf.{PbufApi, PbufLaws, pbuf_to_str}
use libn2t.Utils.Socks5.{addrport_to_socks5, socks5_to_addrport, dotted, hex_text}
use libn2t.Utils.Socks5.RoundTrip.{Reads, socks5_to_addrport-addrport_to_socks5}
use libn2t.Utils.Socks5.Decode.{addrport_to_socks5-socks5_to_addrport, socks5_to_addrport_buffer}
use libn2t.Examples.Addresses.{four_address, text_api, text_laws}
use libn2t.Examples.Data.{block, four_text}

socks5_to_addrport-addrport_to_socks5_example :
    (e : List ℕ) × (addrport_to_socks5 text_api four_text 80 ≡ some e)
    × Reads text_api text_laws four_address 80 e (9 ∷ [])
unfolding text_api four_address
socks5_to_addrport-addrport_to_socks5_example =
    socks5_to_addrport-addrport_to_socks5 text_api text_laws four_text four_address 80 (9 ∷ []) refl
      (omega arith)

abbrev v4_bytes : List ℕ
v4_bytes = 1 ∷ 10 ∷ 0 ∷ 0 ∷ 7 ∷ 4 ∷ 56 ∷ 99 ∷ []

addrport_to_socks5-socks5_to_addrport_example :
    addrport_to_socks5 text_api (dotted 10 0 0 7) 1080 ≡ some (take 7 v4_bytes)
unfolding socks5_to_addrport
addrport_to_socks5-socks5_to_addrport_example =
    addrport_to_socks5-socks5_to_addrport text_api text_laws v4_bytes (omega arith) refl

abbrev count : ℕ
count = 7

-- A chain of one pbuf, which takes what fits.
abbrev one_pbuf : PbufApi
one_pbuf = record { pbuf_alloc = λ n. some ([]); pbuf_take = λ p buf n. block (take n buf) ∷ [] }

one_pbuf_laws : PbufLaws one_pbuf
unfolding pbuf_to_str
one_pbuf_laws = record {
  take_lem = λ n buf p h small k. take-all (length (take n buf)) (take n buf) (omega arith);
}

-- The address of the bytes 0 to 15, and the port 80.
abbrev v6_bytes : List ℕ
v6_bytes = 4 ∷ 0 ∷ 1 ∷ 2 ∷ 3 ∷ 4 ∷ 5 ∷ 6 ∷ 7 ∷ 8 ∷ 9 ∷ 10 ∷ 11 ∷ 12 ∷ 13 ∷ 14 ∷ 15 ∷ 0 ∷ 80 ∷ []

abbrev v6_text : List ℕ
unfolding hex_text
v6_text =
    hex_text (take 16 (0 ∷ 1 ∷ 2 ∷ 3 ∷ 4 ∷ 5 ∷ 6 ∷ 7 ∷ 8 ∷ 9 ∷ 10 ∷ 11 ∷ 12 ∷ 13 ∷ 14 ∷ 15 ∷ []))

socks5_to_addrport_buffer_example : length v6_text + 1 ≡ 40
unfolding socks5_to_addrport v6_text hex_text
socks5_to_addrport_buffer_example =
    socks5_to_addrport_buffer v6_bytes {port = 80} {addr = v6_text} refl
