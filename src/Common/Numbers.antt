-- ===== src/Common/Numbers.antt =====
-- Round trips and bounds of the numbers of ControlServer/Common.js.
use perfect_miner.Prelude.{
  ℕ, ◌+◌, ◌*◌, ◌/◌, ◌%◌, ◌<◌, ◌≡◌, refl, ap, ◌∙◌, true, Option, none, some, [], ◌++◌, arith,
}
use perfect_miner.Prelude.Int.{ℤ, ◌≤ℤ◌}
use perfect_miner.Prelude.Text.{Text}
use perfect_miner.Bytes.Hex.{is_hex, hex_value, hex_digit}
use perfect_miner.Common.{
  revers2b, parse_hex, hex_to_uint32, byte_hex, uint32_to_hex, is_int32, rounded, bounded,
  parse_integer,
}

hex_digit-is_hex : (d : ℕ) → d < 16 → is_hex (hex_digit d) ≡ true
unfolding is_hex hex_digit
hex_digit-is_hex d h = ground arith

hex_value-hex_digit : (d : ℕ) → d < 16 → hex_value (hex_digit d) ≡ d
unfolding hex_value hex_digit
hex_value-hex_digit d h = ground arith

-- Two digits of a byte.
parse_hex-byte :
    (acc b : ℕ) (t : Text) → b < 256 → parse_hex acc (byte_hex b ++ t) ≡ parse_hex (acc * 256 + b) t
unfolding parse_hex byte_hex
parse_hex-byte acc b t h =
    let high : b / 16 < 16 = omega arith in
    let low : b % 16 < 16 = omega arith in
    let sum : (acc * 16 + b / 16) * 16 + b % 16 ≡ acc * 256 + b = omega arith in
    rw
      (
        hex_digit-is_hex (b / 16) high,
        hex_digit-is_hex (b % 16) low,
        hex_value-hex_digit (b / 16) high,
        hex_value-hex_digit (b % 16) low,
      )
      (ap (λ n. parse_hex n t) sum)

revers2b-bytes :
    (a b c d : ℕ)
    → revers2b (byte_hex a ++ (byte_hex b ++ (byte_hex c ++ byte_hex d)))
      ≡ byte_hex d ++ (byte_hex c ++ (byte_hex b ++ (byte_hex a ++ [])))
unfolding revers2b byte_hex
revers2b-bytes a b c d = refl

parse_hex-bytes :
    (a b c d : ℕ)
    → a < 256
    → b < 256
    → c < 256
    → d < 256
    → parse_hex 0 (revers2b (byte_hex a ++ (byte_hex b ++ (byte_hex c ++ byte_hex d))))
      ≡ ((d * 256 + c) * 256 + b) * 256 + a
parse_hex-bytes a b c d ha hb hc hd =
    ap (parse_hex 0) (revers2b-bytes a b c d)
    ∙ parse_hex-byte 0 d _ hd
    ∙ parse_hex-byte (0 * 256 + d) c _ hc
    ∙ parse_hex-byte ((0 * 256 + d) * 256 + c) b _ hb
    ∙ parse_hex-byte (((0 * 256 + d) * 256 + c) * 256 + b) a [] ha
    ∙ (unfold parse_hex in omega arith)

-- A 32-bit number that is written as four bytes, the lowest first, is read back.
pub hex_to_uint32-uint32_to_hex : (n : ℕ) → n < 4294967296 → hex_to_uint32 (uint32_to_hex n) ≡ n
unfolding hex_to_uint32 uint32_to_hex
hex_to_uint32-uint32_to_hex n h =
    ap (λ m. m % 4294967296)
      (parse_hex-bytes (n % 256) ((n / 256) % 256) ((n / 65536) % 256) ((n / 16777216) % 256)
        (omega arith) (omega arith) (omega arith) (omega arith))
    ∙ omega arith

rounded-int32 : (n def : Option ℤ) (k : ℤ) → n ≡ some k → is_int32 k ≡ true → rounded n def ≡ k
unfolding rounded
rounded-int32 none def k e i = absurd (ground arith)
rounded-int32 (some n) none k e i = ground arith
rounded-int32 (some n) (some d) k e i = ground arith

-- Whatever the value is, an integer of a setting lies within its bounds, if the lower is not above
-- the upper; and a 32-bit integer within the bounds is left as it is.
pub parse_integer_bounds :
    (n : Option ℤ) (def : Option ℤ) (low high : ℤ)
    → low ≤ℤ high
    → (low ≤ℤ parse_integer n def (some low) (some high))
      × (parse_integer n def (some low) (some high) ≤ℤ high)
      × ((k : ℤ)
          → n ≡ some k
          → is_int32 k ≡ true
          → low ≤ℤ k
          → k ≤ℤ high
          → parse_integer n def (some low) (some high) ≡ k)
unfolding parse_integer bounded
parse_integer_bounds n def low high h =
    (ground arith, ground arith, λ k e i l u. ground (arith, rounded-int32 n def k e i))
