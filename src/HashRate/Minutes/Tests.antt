-- ===== src/HashRate/Minutes/Tests.antt =====
-- Two hours with a result every four minutes: the rates over ten minutes and over an hour.
use perfect_miner.Prelude.{◌≡◌, List, [], ◌∷◌}
use perfect_miner.HashRate.{Entry}
use perfect_miner.HashRate.Minutes.{new_hash_rate, get_hash_rate}
use perfect_miner.HashRate.Minutes.Marks.{add_all}
use perfect_miner.HashRate.Minutes.Results.{minutes_lem}

abbrev results : List Entry
results =
    (10, 240)
    ∷ (20, 480)
    ∷ (30, 720)
    ∷ (40, 960)
    ∷ (50, 1200)
    ∷ (60, 1440)
    ∷ (70, 1680)
    ∷ (80, 1920)
    ∷ []

minutes_lem_example :
    get_hash_rate (10 ∷ 20 ∷ 60 ∷ []) (add_all results (new_hash_rate 0))
    ≡ (10, (40, 960)) ∷ (20, (20, 480)) ∷ []
minutes_lem_example = minutes_lem 0 results (10 ∷ 20 ∷ 60 ∷ [])
