-- ===== src/Prelude/Floats.antt =====
-- The IEEE doubles of the program, which are not modelled: a type and the operations that the code
-- uses. `to_int32 x` is the bit pattern of `x | 0`.
use Prim.Native.Nat.{ℕ, ◌+◌, ◌-◌, ◌*◌, ◌/◌, ◌%◌}
use perfect_miner.Prelude.Tests.{ltb, ◌==◌}
use mathlib.Core.Bool.{Bool, true}

pub record Floats : Type 1 where
  pub F : Type 0
  pub of_ℕ : ℕ → F
  pub add : F → F → F
  pub sub : F → F → F
  pub mul : F → F → F
  pub div : F → F → F
  pub rem : F → F → F
  pub lt : F → F → Bool
  pub is_zero : F → Bool
  pub is_finite : F → Bool
  pub to_int32 : F → ℕ

-- Whole numbers stand in for doubles in the examples.
abbrev pub whole : Floats
whole = record {
  F = ℕ;
  of_ℕ = λ n. n;
  add = λ a b. a + b;
  sub = λ a b. a - b;
  mul = λ a b. a * b;
  div = λ a b. a / b;
  rem = λ a b. a % b;
  lt = ltb;
  is_zero = λ a. a == 0;
  is_finite = λ a. true;
  to_int32 = λ a. a % 4294967296;
}
