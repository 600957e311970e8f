-- ===== src/Common/Tests.antt =====
-- Numbers and settings on concrete inputs.
use perfect_miner.Prelude.{◌≡◌, refl, true, some, arith}
use perfect_miner.Prelude.Int.{ℤ, pos, ◌≤ℤ◌}
use perfect_miner.Prelude.Text.{codes}
use perfect_miner.Common.{is_int32, byte_hex, uint32_to_hex, parse_integer}
use perfect_miner.Bytes.Hex.{hex_digit}
use perfect_miner.Common.Numbers.{parse_integer_bounds}

written : uint32_to_hex 305419896 ≡ codes "78563412"
unfolding uint32_to_hex byte_hex hex_digit
written = refl

parse_integer_bounds_example :
    (pos 1 ≤ℤ parse_integer (some (pos 300)) (some (pos 4)) (some (pos 1)) (some (pos 256)))
    × (parse_integer (some (pos 300)) (some (pos 4)) (some (pos 1)) (some (pos 256)) ≤ℤ pos 256)
    × ((k : ℤ)
        → some (pos 300) ≡ some k
        → is_int32 k ≡ true
        → pos 1 ≤ℤ k
        → k ≤ℤ pos 256
        → parse_integer (some (pos 300)) (some (pos 4)) (some (pos 1)) (some (pos 256)) ≡ k)
parse_integer_bounds_example =
    parse_integer_bounds (some (pos 300)) (some (pos 4)) (pos 1) (pos 256) (omega arith)
