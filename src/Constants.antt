-- ===== src/Constants.antt =====
-- Share/App/Constants.js (under src/apps/Control/app): the priorities of a configuration. The first
-- argument is the number that `parseInt(prio) | 0` gives.
mod Tests
use perfect_miner.Prelude.{ℕ, ◌≡◌, refl, Bool, true, false, ◌||◌, leb, arith, if◌then◌else◌}
use perfect_miner.Prelude.Int.{ℤ, pos, negsuc}

unfoldable pub is_at_least : ℤ → ℕ → Bool
is_at_least (pos n) low = leb low n
is_at_least (negsuc n) low = false

unfoldable pub is_at_most : ℤ → ℕ → Bool
is_at_most (pos n) high = leb n high
is_at_most (negsuc n) high = true

unfoldable pub parse_proc_prio : ℤ → ℤ → ℤ
parse_proc_prio prio def = if is_at_least prio 0 || is_at_most prio 3 then prio else def

unfoldable pub parse_thr_prio : ℤ → ℤ → ℤ
parse_thr_prio prio def = if is_at_least prio 0 || is_at_most prio 4 then prio else def

-- Neither function ever falls back to its default: each number passes, below and above the range.
pub parse_prio-any :
    (prio def : ℤ) → (parse_proc_prio prio def ≡ prio) × (parse_thr_prio prio def ≡ prio)
unfolding parse_proc_prio parse_thr_prio is_at_least is_at_most
parse_prio-any (pos n) def = (ground arith, ground arith)
parse_prio-any (negsuc n) def = (refl, refl)
