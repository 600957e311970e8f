-- ===== src/Dev/Tests.antt =====
-- Two addresses that answer, the first with a newer version.
use perfect_miner.Prelude.{ℕ, ◌≡◌, ◌↔◌, refl, true, none, some, Option, List, [], ◌∷◌, length}
use perfect_miner.Prelude.Int.{pos}
use perfect_miner.Dev.{
  Dev, DevInfo, PoolInfoWrapper, app_version, to_number, greater, load_dev_data, low_16, is_unset,
}
use perfect_miner.Dev.Version.{Later, greater_lem}
use perfect_miner.Dev.Rounds.{last_pools, last_newer, ToldOnce, load_dev_data_lem}

greater_lem_example :
    (greater
        (to_number (app_version (some (some (pos 1) ∷ some (pos 0) ∷ some (pos 9) ∷ []))))
        (to_number (app_version (some (some (pos 1) ∷ some (pos 0) ∷ none ∷ []))))
      ≡ true)
    ↔ Later
        (low_16 (some (pos 1)), low_16 (some (pos 0)), low_16 (some (pos 9)))
        (low_16 (some (pos 1)), low_16 (some (pos 0)), low_16 none)
greater_lem_example =
    greater_lem (some (pos 1)) (some (pos 0)) (some (pos 9)) (some (pos 1)) (some (pos 0)) none

abbrev pools : List (PoolInfoWrapper ℕ ℕ)
pools = record { min_hr = 0; max_hr = 200; pool_info_list = 5 ∷ [] } ∷ []

abbrev first_news : DevInfo ℕ ℕ
first_news = record {
  last_version = some (some (pos 1) ∷ some (pos 1) ∷ some (pos 0) ∷ []);
  dev_pool_list = some pools;
}

abbrev last_news : DevInfo ℕ ℕ
last_news = record { last_version = none; dev_pool_list = none }

abbrev answers : List (Option (DevInfo ℕ ℕ))
answers = some first_news ∷ none ∷ some last_news ∷ []

abbrev at_start : Dev ℕ ℕ
at_start = record {
  app_version = some (1, 0, 0);
  dev_pool_list = [];
  notify_new_app_version_msg = none;
  intervals = 0;
  summary_max_hash_rate = 0;
}

load_dev_data_lem_example :
    ((load_dev_data answers at_start).1 ≡ length answers)
    × ((load_dev_data answers at_start).0.dev_pool_list ≡ last_pools answers [])
    × ((load_dev_data answers at_start).0.notify_new_app_version_msg
        ≡ last_newer (some (1, 0, 0)) answers none)
    × ToldOnce (load_dev_data answers at_start).0
unfolding is_unset
load_dev_data_lem_example = load_dev_data_lem answers at_start refl
