-- ===== src/Workers/Tests.antt =====
-- A worker that was started twice.
use perfect_miner.Prelude.{ℕ, ◌≡◌, [], ◌∷◌, arith, List}
use perfect_miner.Workers.{Info, new_worker}
use perfect_miner.Workers.Counters.{Run, app_infos, app_infos_lem, all_reports}

abbrev report : ℕ → ℕ → Info
report h s = record { hash_count = h; share_count = s; hash_rate = 0 }

abbrev two_runs : List Run
two_runs = (report 0 0, report 100 1 ∷ report 250 3 ∷ []) ∷ (report 40 0, report 60 2 ∷ []) ∷ []

app_infos_lem_example :
    ((app_infos (all_reports two_runs) new_worker).hash_count ≡ 310)
    × ((app_infos (all_reports two_runs) new_worker).share_count ≡ 5)
app_infos_lem_example =
    app_infos_lem two_runs
      (omega arith, ((omega arith, (omega arith, tt)), (omega arith, ((omega arith, tt), tt))))
