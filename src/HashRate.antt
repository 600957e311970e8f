-- ===== src/HashRate.antt =====
-- `HashRateLast` of ControlServer/HashRate.js (under src/apps/Control/app): a ring of the last sums of
-- hashes with their times. The Float64Array of pairs is a list of pairs; a slot that was never
-- written holds zeros. Times and sums are whole numbers.
pub mod Ring
pub mod Minutes
mod Tests
use perfect_miner.Prelude.{
  ℕ, zero, suc, ◌+◌, ◌-◌, ◌*◌, ◌%◌, Option, none, some, List, [], ◌∷◌, ◌++◌, replicate, set, get_or,
  leb, if◌then◌else◌,
}

pub record HashRateLast : Type 0 where
  pub index : ℕ
  pub array : List (ℕ × ℕ)
  pub count : ℕ

-- The result of a job: the sum of the hashes, and the time.
abbrev pub Entry : Type 0
Entry = ℕ × ℕ

unfoldable pub add_result_job : Entry → HashRateLast → HashRateLast
add_result_job e h = record h { array = set h.array (h.index % h.count) e; index = h.index + 1 }

unfoldable pub new_hash_rate_last : ℕ → ℕ → HashRateLast
new_hash_rate_last count now =
    add_result_job (0, now) (record { index = 0; array = replicate count (0, 0); count = count })

-- The slots of `minIndex` and `maxIndex`.
unfoldable pub max_slot : HashRateLast → ℕ
max_slot h = (h.index - 1) % h.count

unfoldable pub min_slot : HashRateLast → ℕ
min_slot h = (if leb h.count (h.index - 1) then h.index - 1 + 1 else 0) % h.count

-- `getHashRate`: the two entries between which the rate is taken, the oldest and the newest.
unfoldable pub rate_span : HashRateLast → Option (Entry × Entry)
rate_span h =
    if leb 2 h.index
    then some (get_or h.array (min_slot h) (0, 0), get_or h.array (max_slot h) (0, 0))
    else none
