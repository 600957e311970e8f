-- ===== src/Bytes.antt =====
-- Node's `Buffer`, as the list of its bytes.
pub mod Copy
pub mod Regions
pub mod Counter
pub mod Hex
use perfect_miner.Prelude.{
  ℕ, zero, suc, ◌+◌, ◌-◌, ◌*◌, ◌/◌, ◌%◌, ◌^◌, ◌<◌, List, [], ◌∷◌, ◌++◌, ◌==◌, ltb, leb, ◌&&◌,
  if◌then◌else◌, Option, none, some,
}

abbrev pub Bytes : Type 0
Bytes = List ℕ

-- `source.copy(target, offset)`: what does not fit is cut off.
unfoldable pub copy : Bytes → Bytes → ℕ → Bytes
copy src [] ofs = []
copy [] (d ∷ dst) ofs = d ∷ dst
copy (s ∷ src) (d ∷ dst) zero = s ∷ copy src dst 0
copy (s ∷ src) (d ∷ dst) (suc ofs) = d ∷ copy (s ∷ src) dst ofs

-- The bytes that `writeInt32LE` stores, of the bit pattern of an int32.
abbrev pub int32_le : ℕ → Bytes
int32_le w = w % 256 ∷ (w / 256) % 256 ∷ (w / 65536) % 256 ∷ (w / 16777216) % 256 ∷ []

-- The number of which these are the digits to base 256, the lowest first.
unfoldable pub le_value : Bytes → ℕ
le_value [] = 0
le_value (b ∷ bs) = b + 256 * le_value bs

abbrev pub AllBytes : Bytes → Type 0
AllBytes [] = Unit {0}
AllBytes (b ∷ bs) = (b < 256) × AllBytes bs
