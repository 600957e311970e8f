-- ===== src/Bytes/Hex.antt =====
-- Hexadecimal text and the bytes that it stands for.
use perfect_miner.Prelude.{
  ℕ, zero, suc, ◌+◌, ◌-◌, ◌*◌, ◌/◌, ◌%◌, ◌≤◌, ◌≡◌, refl, Bool, true, ◌&&◌, ◌||◌, [], ◌∷◌, arith,
  length, leb, ltb, if◌then◌else◌,
}
use perfect_miner.Prelude.Text.{Text}
use perfect_miner.Bytes.{Bytes, AllBytes}

unfoldable pub is_hex : ℕ → Bool
is_hex c = (leb 97 c && leb c 102) || (leb 65 c && leb c 70) || (leb 48 c && leb c 57)

unfoldable pub all_hex : Text → Bool
all_hex [] = true
all_hex (c ∷ t) = is_hex c && all_hex t

unfoldable pub hex_value : ℕ → ℕ
hex_value c = if leb 97 c then c - 87 else if leb 65 c then c - 55 else c - 48

-- `new Buffer(hex, "hex")` of an even number of hexadecimal digits.
unfoldable pub from_hex : Text → Bytes
from_hex (a ∷ b ∷ t) = (hex_value a * 16 + hex_value b) ∷ from_hex t
from_hex _ = []

-- `buf.toString("hex")`
unfoldable pub hex_digit : ℕ → ℕ
hex_digit d = if ltb d 10 then 48 + d else 87 + d

unfoldable pub to_hex : Bytes → Text
to_hex [] = []
to_hex (b ∷ bs) = hex_digit (b / 16) ∷ hex_digit (b % 16) ∷ to_hex bs

pub length-from_hex : (k : ℕ) (t : Text) → length t ≡ 2 * k → length (from_hex t) ≡ k
unfolding from_hex
length-from_hex zero [] h = refl
length-from_hex zero (a ∷ t) h = absurd (omega arith)
length-from_hex (suc k) [] h = absurd (omega arith)
length-from_hex (suc k) (a ∷ []) h = absurd (omega arith)
length-from_hex (suc k) (a ∷ b ∷ t) h = omega (arith, length-from_hex k t (omega arith))

hex_value-digit : (d : ℕ) → leb d 15 ≡ true → hex_value (hex_digit d) ≡ d
unfolding hex_value hex_digit
hex_value-digit d h = ground arith

pub from_hex-to_hex : (bs : Bytes) → AllBytes bs → from_hex (to_hex bs) ≡ bs
unfolding from_hex to_hex
from_hex-to_hex [] h = refl
from_hex-to_hex (b ∷ bs) h =
    let high : hex_value (hex_digit (b / 16)) ≡ b / 16 =
      hex_value-digit (b / 16) (let l : b / 16 ≤ 15 = omega (arith, h.0) in ground (arith, l)) in
    let low : hex_value (hex_digit (b % 16)) ≡ b % 16 =
      hex_value-digit (b % 16) (let l : b % 16 ≤ 15 = omega arith in ground (arith, l)) in
    let whole : hex_value (hex_digit (b / 16)) * 16 + hex_value (hex_digit (b % 16)) ≡ b =
      omega (arith, high, low) in
    cc (whole, from_hex-to_hex bs h.1)
