-- ===== src/Constants/Tests.antt =====
-- A priority above the range.
use perfect_miner.Prelude.{◌≡◌, refl}
use perfect_miner.Prelude.Int.{pos}
use perfect_miner.Constants.{parse_proc_prio, parse_thr_prio, is_at_least, is_at_most}

above_range :
    (parse_proc_prio (pos 17) (pos 1) ≡ pos 17) × (parse_thr_prio (pos 17) (pos 1) ≡ pos 17)
unfolding parse_proc_prio parse_thr_prio is_at_least is_at_most
above_range = (refl, refl)
