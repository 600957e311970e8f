-- ===== src/Common/Checks.antt =====
-- The tests of JSON values in ControlServer/Common.js. Each gives the text that it has let through.
use perfect_miner.Prelude.{ℕ, ◌≡◌, Option, none, some, List, length, if◌then◌else◌, arith, ltb}
use perfect_miner.Prelude.Text.{Text}
use perfect_miner.Bytes.Hex.{from_hex, length-from_hex}
use perfect_miner.Json.{Value, undefined, null, boolean, number, string, array, object, items}
use perfect_miner.Common.{at_least, at_most, check_text, check_hex_text}

module _ {F : Type 0} where
  unfoldable pub check_string : Option ℕ → Option ℕ → Value F → Option Text
  check_string low high (string s) = if check_text low high s then some s else none
  check_string low high _ = none

  unfoldable pub check_hex : Option ℕ → Option ℕ → Value F → Option Text
  check_hex low high (string s) = if check_hex_text low high s then some s else none
  check_hex low high _ = none

  -- `checkArray`: an array that has this index.
  unfoldable pub check_array : ℕ → Value F → Option (List (Value F))
  check_array index (array vs) = if ltb index (length (items vs)) then some (items vs) else none
  check_array index _ = none

  -- A hexadecimal text of exactly n bytes decodes to n bytes.
  pub check_hex-length :
      (n : ℕ) (v : Value F) {s : Text}
      → check_hex (some n) (some n) v ≡ some s
      → length (from_hex s) ≡ n
  unfolding check_hex check_hex_text check_text at_least at_most
  check_hex-length n (string t) {s} h = length-from_hex n s (ground arith)
  check_hex-length n undefined h = absurd (ground arith)
  check_hex-length n null h = absurd (ground arith)
  check_hex-length n (boolean b) h = absurd (ground arith)
  check_hex-length n (number x) h = absurd (ground arith)
  check_hex-length n (array vs) h = absurd (ground arith)
  check_hex-length n (object fs) h = absurd (ground arith)
