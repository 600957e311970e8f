-- ===== src/Stratum/Values.antt =====
-- The values of a pool's messages (ControlServer/Stratum/StratumClient.js), as its handlers read them.
use perfect_miner.Prelude.{
  ◌>>=◌, ℕ, zero, suc, Bool, true, false, Option, none, some, List, [], ◌∷◌, if◌then◌else◌,
}
use perfect_miner.Prelude.Text.{codes, text_eq}
use perfect_miner.Bytes.{Bytes}
use perfect_miner.Bytes.Hex.{from_hex}
use perfect_miner.Json.{Value, undefined, null, string, array, Values, items}
use perfect_miner.Common.Checks.{check_hex}

module _ {F : Type 0} where
  -- `value === null`
  unfoldable pub is_null : Value F → Bool
  is_null null = true
  is_null _ = false

  -- `.length` of it is a TypeError.
  unfoldable pub has_no_length : Value F → Bool
  has_no_length null = true
  has_no_length undefined = true
  has_no_length _ = false

  unfoldable pub second : List (Value F) → Value F
  second (a ∷ b ∷ vs) = b
  second _ = undefined

  -- `params[id]` and `params[id + 1]`, where there are so many.
  unfoldable pub pair_at : ℕ → List (Value F) → Value F × Value F
  pair_at _ [] = (undefined, undefined)
  pair_at zero (a ∷ vs) = (a, second (a ∷ vs))
  pair_at (suc id) (a ∷ vs) = pair_at id vs

  -- `checkHex`, of a value of any length, and its bytes.
  unfoldable pub read_hex : Option ℕ → Value F → Option Bytes
  read_hex size v = elim (check_hex size size v) [ none ↦ none | some s ↦ some (from_hex s) ]

  unfoldable pub read_merkle : List (Value F) → Option (List Bytes)
  read_merkle [] = some []
  read_merkle (v ∷ vs) = do b ← read_hex (some 32) v; bs ← read_merkle vs; some (b ∷ bs)

  unfoldable pub read_array : Value F → Option (List (Value F))
  read_array (array vs) = some (items vs)
  read_array _ = none

  -- The subscription of `mining.notify` in the first part of the answer to `mining.subscribe`.
  unfoldable pub subscription : Value F → Value F → Value F
  subscription (array (Values.cons (string name) (Values.cons id Values.nil))) sid =
      if text_eq name (codes "mining.notify") then id else sid
  subscription _ sid = sid

  unfoldable pub find_sid : List (Value F) → Value F → Value F
  find_sid [] sid = sid
  find_sid (v ∷ vs) sid = find_sid vs (subscription v sid)

  unfoldable pub new_sid : Value F → Value F → Value F
  new_sid (array vs) sid = find_sid (items vs) sid
  new_sid _ sid = sid
