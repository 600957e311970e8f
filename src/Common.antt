-- ===== src/Common.antt =====
-- ControlServer/Common.js (under src/apps/Control/app): hexadecimal numbers, integers of settings,
-- and the tests of values that come from outside.
pub mod Checks
pub mod Numbers
mod Tests
use perfect_miner.Prelude.{
  ℕ, zero, suc, ◌+◌, ◌*◌, ◌/◌, ◌%◌, ◌^◌, Bool, true, false, not, ◌&&◌, ◌||◌, Option, none, some,
  List, [], ◌∷◌, ◌++◌, length, ltb, leb, ◌==◌, if◌then◌else◌,
}
use perfect_miner.Prelude.Int.{ℤ, pos, negsuc, ltb_ℤ}
use perfect_miner.Prelude.Text.{Text}
use perfect_miner.Bytes.Hex.{is_hex, all_hex, hex_value, hex_digit}

-- Pairs of characters, the last first; a single character at the end is a pair of its own.
unfoldable pub revers2b : Text → Text
revers2b [] = []
revers2b (a ∷ []) = a ∷ []
revers2b (a ∷ b ∷ t) = revers2b t ++ (a ∷ b ∷ [])

-- `parseInt(s, 16)` up to the first character that is no digit, from `acc`. Blanks, signs and `0x` in
-- front are not read: the texts are cut from hexadecimal numbers.
unfoldable pub parse_hex : ℕ → Text → ℕ
parse_hex acc [] = acc
parse_hex acc (c ∷ t) =
    let more = parse_hex (acc * 16 + hex_value c) t in if is_hex c then more else acc

-- An int32 is its bit pattern: `… | 0` is the remainder.
unfoldable pub hex_to_uint32 : Text → ℕ
hex_to_uint32 h = parse_hex 0 (revers2b h) % 4294967296

-- `(n >> s) & 0xFF`, as two digits.
unfoldable pub byte_hex : ℕ → Text
byte_hex b = hex_digit (b / 16) ∷ hex_digit (b % 16) ∷ []

unfoldable pub uint32_to_hex : ℕ → Text
uint32_to_hex n =
    byte_hex (n % 256)
    ++ (byte_hex ((n / 256) % 256)
        ++ (byte_hex ((n / 65536) % 256) ++ byte_hex ((n / 16777216) % 256)))

-- The range of an int32.
unfoldable pub is_int32 : ℤ → Bool
is_int32 (pos n) = ltb n 2147483648
is_int32 (negsuc n) = ltb n 2147483648

abbrev pub max_ℤ : ℤ → ℤ → ℤ
max_ℤ a b = if ltb_ℤ a b then b else a

abbrev pub min_ℤ : ℤ → ℤ → ℤ
min_ℤ a b = if ltb_ℤ b a then b else a

-- `parseIntegerFilter`. The value is the integer that `parseInt(Math.round(n))` gives of it, and `none`
-- where it is `null`, `undefined`, infinite or no number; a default or a bound that is not given is
-- `none`. The default is an int32.
unfoldable pub rounded : Option ℤ → Option ℤ → ℤ
rounded none none = pos 0
rounded none (some def) = def
rounded (some n) none = if is_int32 n then n else pos 0
rounded (some n) (some def) = if is_int32 n then n else def

unfoldable pub bounded : Option ℤ → Option ℤ → ℤ → ℤ
bounded none high n = n
bounded (some low) none n = max_ℤ n low
bounded (some low) (some high) n = min_ℤ (max_ℤ n low) high

unfoldable pub parse_integer : Option ℤ → Option ℤ → Option ℤ → Option ℤ → ℤ
parse_integer n def low high = bounded low high (rounded n def)

-- `checkString` and `checkHex`, of a text; the bounds count bytes of two digits.
unfoldable pub at_least : Option ℕ → ℕ → Bool
at_least none n = true
at_least (some low) n = leb (low * 2) n

unfoldable pub at_most : Option ℕ → ℕ → Bool
at_most none n = true
at_most (some high) n = leb n (high * 2)

unfoldable pub check_text : Option ℕ → Option ℕ → Text → Bool
check_text low high s = at_least low (length s) && at_most high (length s)

unfoldable pub check_hex_text : Option ℕ → Option ℕ → Text → Bool
check_hex_text low high s = check_text low high s && (length s % 2 == 0) && all_hex s
