-- ===== src/HashRate/Tests.antt =====
-- A ring of three slots after four results.
use perfect_miner.Prelude.{◌≡◌, refl, some, List, [], ◌∷◌}
use perfect_miner.HashRate.{
  Entry, new_hash_rate_last, rate_span, add_result_job, min_slot, max_slot,
}
use perfect_miner.HashRate.Ring.{add_all}

abbrev results : List Entry
results = (5, 11) ∷ (9, 13) ∷ (12, 14) ∷ (20, 17) ∷ []

last_three : rate_span (add_all results (new_hash_rate_last 3 10)) ≡ some ((9, 13), (20, 17))
unfolding rate_span new_hash_rate_last add_result_job min_slot max_slot
last_three = refl
