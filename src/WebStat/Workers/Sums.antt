-- ===== src/WebStat/Workers/Sums.antt =====
-- Sums over the rows of a table and of a list.
use perfect_miner.Prelude.{
  ℕ, zero, suc, take, drop, ◌+◌, ◌≡◌, none, some, List, [], ◌∷◌, ◌++◌, arith,
}
use perfect_miner.Prelude.KeyMap.{
  KeyMap, lookup, insert, remove, Above, lookup_below, remove_absent,
}

module _ {V : Type 0} (f : V → ℕ) where
  abbrev pub total : KeyMap V → ℕ
  total [] = 0
  total ((j, v) ∷ m) = f v + total m

  abbrev pub sum : List V → ℕ
  sum [] = 0
  sum (v ∷ vs) = f v + sum vs

  pub sum-append : (vs : List V) (v : V) → sum (vs ++ v ∷ []) ≡ sum vs + f v
  sum-append [] v = omega arith
  sum-append (w ∷ vs) v = omega (arith, sum-append vs v)

  -- A list falls into what is dropped of it and the rest.
  pub sum_split : (k : ℕ) (vs : List V) → sum (take k vs) + sum (drop k vs) ≡ sum vs
  sum_split zero vs = omega arith
  sum_split (suc k) [] = omega arith
  sum_split (suc k) (v ∷ vs) = omega (arith, sum_split k vs)

  pub sum_joined : (vs ws : List V) → sum (vs ++ ws) ≡ sum vs + sum ws
  sum_joined [] ws = omega arith
  sum_joined (v ∷ vs) ws = omega (arith, sum_joined vs ws)

  pub total-insert_new :
      (k : ℕ) (v : V) (m : KeyMap V) → lookup k m ≡ none → total (insert k v m) ≡ total m + f v
  unfolding lookup insert
  total-insert_new k v [] h = omega arith
  total-insert_new k v ((j, w) ∷ m) h = ground (arith, total-insert_new k v m)

  pub total-insert :
      (lo k : ℕ) (v old : V) (m : KeyMap V)
      → Above lo m
      → lookup k m ≡ some old
      → total (insert k v m) + f old ≡ total m + f v
  unfolding lookup insert
  total-insert lo k v old [] a h = absurd (ground arith)
  total-insert lo k v old ((j, w) ∷ m) a h =
      ground (arith, total-insert (suc j) k v old m a.1, lookup_below (suc j) k m a.1)

  pub total-remove :
      (lo k : ℕ) (old : V) (m : KeyMap V)
      → Above lo m
      → lookup k m ≡ some old
      → total (remove k m) + f old ≡ total m
  unfolding lookup remove
  total-remove lo k old [] a h = absurd (ground arith)
  total-remove lo k old ((j, w) ∷ m) a h =
      ground
        (arith, total-remove (suc j) k old m a.1, remove_absent k m, lookup_below (suc j) k m a.1)
