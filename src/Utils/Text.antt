-- ===== src/Utils/Text.antt =====
-- The text that `std::to_string(uint8_t)` and `sprintf("%02x")` give for a byte.
use libn2t.Common.{ℕ, ◌+◌, ◌/◌, ◌%◌, List, [], ◌∷◌, ltb, if◌then◌else◌}

unfoldable pub to_string : ℕ → List ℕ
to_string n =
    if ltb n 10
    then (48 + n) ∷ []
    else if ltb n 100
    then (48 + n / 10) ∷ (48 + n % 10) ∷ []
    else (48 + n / 100) ∷ (48 + n / 10 % 10) ∷ (48 + n % 10) ∷ []

abbrev pub hex_digit : ℕ → ℕ
hex_digit d = if ltb d 10 then 48 + d else 87 + d
