-- ===== src/WebWorkers/Tests.antt =====
-- A worker with two programs, with whole numbers for doubles.
use perfect_miner.Prelude.{ℕ, ◌≡◌, refl, true, false, none, some, List, [], ◌∷◌, arith}
use perfect_miner.Prelude.Int.{pos}
use perfect_miner.Prelude.Text.{codes, text_eq}
use perfect_miner.Prelude.Floats.{whole}
use perfect_miner.WebWorkers.{
  run_method, control_test, run_test, start_long_test, control_start, app_workers_info, next_emit,
  run, Settings, AppOptions, Control, Method, new_control, app_options_received, take_options,
  set_worker, set_common, lock, unlock, send, is_tested, control, app_close, is_working, programs,
}
use perfect_miner.WebWorkers.Server.{Event, told_options, told_workers_info, asked, handle}
use perfect_miner.WebWorkers.Live.{IsPhased}
use perfect_miner.WebWorkers.History.{Reach, connected, handled, Reach-IsPhased, closed_test-stuck}
use perfect_miner.WebWorkers.SelfTest.{feed, told_by_all}

-- The settings say which program is the fastest, and that the worker is to stand still.
abbrev settings : Settings ℕ
settings = record {
  name = codes "w";
  thread_count = some (pos 8);
  process_priority = pos 1;
  thread_priority = pos 2;
  target_state = codes "stopped";
  worker_path = some (codes "a");
  worker_x64 = false;
  workers_perfomance = some [];
  support_x86 = true;
  support_x64 = true;
}

abbrev app : AppOptions ℕ
app = record {
  options = some settings;
  os_cpu_count = some (some (pos 4));
  worker_x86_list = some (codes "a" ∷ []);
  worker_x64_list = some (codes "b" ∷ []);
}

abbrev told : Control ℕ
told = handle whole (told_options app) (new_control whole)

told-Reach : Reach whole told
unfolding new_control
told-Reach = handled (told_options app) connected (λ o e. refl)

Reach-IsPhased_example : IsPhased whole told
Reach-IsPhased_example = Reach-IsPhased whole told-Reach

abbrev events : List (Event ℕ)
events = told_by_all whole 7 9 (some 5 ∷ none ∷ [])

abbrev answered : Control ℕ
answered = feed whole events (control whole Method.selftest none told)

-- The program runs, and is measured.
abbrev measured : Control ℕ
measured = handle whole told_workers_info (handle whole (asked Method.selftest none) told)

measured-Reach : Reach whole measured
measured-Reach =
    handled told_workers_info
      (handled (asked Method.selftest none) told-Reach (λ o e. absurd (ground arith)))
      (λ o e. absurd (ground arith))

closed_test-stuck_example :
    ((app_close whole measured).worker.lock ≡ true)
    × ((app_close whole measured).next_cb ≡ none)
    × ((app_close whole measured).on_info ≡ measured.on_info)
    × (control whole Method.selftest none (app_close whole measured) ≡ app_close whole measured)
unfolding handle app_options_received take_options set_worker set_common lock unlock send is_tested
    new_control text_eq programs is_working control run_method control_test run_test start_long_test
    control_start app_workers_info next_emit run
closed_test-stuck_example =
    closed_test-stuck whole Method.selftest none measured measured-Reach refl
