-- ===== src/Dev/Version.antt =====
-- Versions are compared part by part.
use perfect_miner.Prelude.{ℕ, ◌≤◌, ◌<◌, ◌≡◌, ◌↔◌, ◌⊎◌, true, Option, none, some, [], ◌∷◌, arith}
use perfect_miner.Prelude.Int.{ℤ, pos, negsuc}
use perfect_miner.Dev.{low_16, app_version, to_number, greater}

low_16-le : (v : Option ℤ) → low_16 v ≤ 65535
unfolding low_16
low_16-le none = omega arith
low_16-le (some (pos n)) = omega arith
low_16-le (some (negsuc n)) = omega arith

-- The first part that differs decides.
abbrev pub Later : ℕ × ℕ × ℕ → ℕ × ℕ × ℕ → Type 0
Later (a, b, c) (x, y, z) = (x < a) ⊎ ((a ≡ x) × (y < b)) ⊎ ((a ≡ x) × (b ≡ y) × (z < c))

-- For versions of three parts, whatever the parts are read as, the comparison of the two numbers
-- is that of the versions, part by part: of the lowest sixteen bits of each.
pub greater_lem :
    (a b c x y z : Option ℤ)
    → (greater
          (to_number (app_version (some (a ∷ b ∷ c ∷ []))))
          (to_number (app_version (some (x ∷ y ∷ z ∷ []))))
        ≡ true)
      ↔ Later (low_16 a, low_16 b, low_16 c) (low_16 x, low_16 y, low_16 z)
unfolding app_version to_number greater
greater_lem a b c x y z = (
  λ h. ground (arith, low_16-le a, low_16-le b, low_16-le c, low_16-le x, low_16-le y, low_16-le z),
  λ h. ground (arith, low_16-le a, low_16-le b, low_16-le c, low_16-le x, low_16-le y, low_16-le z),
)
