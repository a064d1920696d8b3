-- ===== src/Wire/Tests.antt =====
-- The wire format on concrete messages (src/serialization, src/session/commands.rs).
use yubihsm_rs.Base.{◌≡◌, ◌↔◌, ok, [], ◌∷◌, ◌++◌, arith}
use yubihsm_rs.Wire.{Shape, uint, array, rest, pair, write, read}
use yubihsm_rs.Wire.RoundTrip.{Holds, read_iff}

-- A number of two bytes, and the rest.
abbrev labelled : Shape
labelled = pair (uint 2) rest

abbrev numbered : Shape
numbered = pair (uint 2) (array 2)

read_iff_example : (read numbered (1 ∷ 2 ∷ 7 ∷ 8 ∷ 9 ∷ []) ≡ ok ((0x102, 7 ∷ 8 ∷ []), 9 ∷ [])) ↔ (
    (write numbered (0x102, 7 ∷ 8 ∷ []) ++ (9 ∷ []) ≡ 1 ∷ 2 ∷ 7 ∷ 8 ∷ 9 ∷ [])
    × Holds numbered (0x102, 7 ∷ 8 ∷ []))
read_iff_example =
    read_iff numbered (1 ∷ 2 ∷ 7 ∷ 8 ∷ 9 ∷ []) (0x102, 7 ∷ 8 ∷ []) (9 ∷ []) (tt, tt) (ground arith)
