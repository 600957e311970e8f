-- ===== src/Json.antt =====
-- JSON values, as `JSON.parse` gives them: the numbers are doubles.
pub mod Wire
use perfect_miner.Prelude.{Bool, true, false, ◌||◌, List, [], ◌∷◌}
use perfect_miner.Prelude.Text.{Text}
use perfect_miner.Prelude.Floats.{Floats}

-- `undefined` is what a missing element or property reads as.
mutual
  pub data Value (F : Type 0) : Type 0 where
    undefined null : Value F
    boolean : Bool → Value F
    number : F → Value F
    string : Text → Value F
    array : Values F → Value F
    object : Fields F → Value F

  pub data Values (F : Type 0) : Type 0 where
    nil : Values F
    cons : Value F → Values F → Values F

  pub data Fields (F : Type 0) : Type 0 where
    end : Fields F
    field : Text → Value F → Fields F → Fields F

module _ {F : Type 0} where
  unfoldable pub items : Values F → List (Value F)
  items nil = []
  items (cons v vs) = v ∷ items vs

-- `!!value`: not `undefined`, `null`, `false`, the empty string, zero or NaN.
module _ (fl : Floats) where
  open fl use {F, of_ℕ, lt}

  unfoldable pub truthy : Value F → Bool
  truthy undefined = false
  truthy null = false
  truthy (boolean b) = b
  truthy (number x) = lt x (of_ℕ 0) || lt (of_ℕ 0) x
  truthy (string []) = false
  truthy (string (c ∷ s)) = true
  truthy (array vs) = true
  truthy (object fs) = true
