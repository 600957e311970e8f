-- ===== src/WebWorkers/SelfTest.antt =====
-- The self test comes to an end: each program is started in turn, and either closes at once, or runs
-- until its tenth report.
use mathlib.Core.List.{Perm}
use perfect_miner.Prelude.{◌≡◌, false, Option, none, some, List, [], ◌∷◌, ◌++◌, replicate}
use perfect_miner.Prelude.Text.{Text}
use perfect_miner.Prelude.Floats.{Floats}
use perfect_miner.WebWorkers.{
  Program, Measured, Saved, Then, unlock_by_result, Control, lock, start_long_test, run,
}
use perfect_miner.WebWorkers.Server.{Event, told_workers_info, told_info, told_close, handle}
use perfect_miner.WebWorkers.Live.{IsIdle}
use perfect_miner.WebWorkers.Ranking.{IsRanked, KeepsTies}

module _ (fl : Floats) where
  open fl use {F}

  abbrev pub feed : List (Event F) → Control F → Control F
  feed [] c = c
  feed (e ∷ es) c = feed es (handle fl e c)

  -- What a program tells in its test: it closes at once, or it reports ten times, the last with the
  -- time of its fastest hash, and closes when it is stopped.
  abbrev pub told_by : F → F → Option F → List (Event F)
  told_by rate early none = told_close ∷ []
  told_by rate early (some time) =
      told_workers_info
      ∷ (replicate 9 (told_info rate early) ++ told_info rate time ∷ told_close ∷ [])

  abbrev pub told_by_all : F → F → List (Option F) → List (Event F)
  told_by_all rate early [] = []
  told_by_all rate early (o ∷ os) = told_by rate early o ++ told_by_all rate early os

  -- The entries of the programs that ran.
  abbrev pub results : List Program → List (Option F) → List (Measured F)
  results (p ∷ ps) (some time ∷ os) =
      record { program = p; min_delta_micro_sec_hash = time } ∷ results ps os
  results (p ∷ ps) (none ∷ os) = results ps os
  results _ _ = []

  abbrev pub fastest : List (Measured F) → Option Text
  fastest [] = none
  fastest (m ∷ ms) = some m.program.worker_path

  pub record IsFinished (s : Saved) (ms : List (Measured F)) (c : Control F) : Type 0 where
    pub unlocked : c.worker.lock ≡ false
    pub idle : IsIdle fl c
    pub ranking : List (Measured F)
    pub measured : c.worker.workers_perfomance ≡ some ranking
    pub chosen : c.worker.worker_path ≡ fastest ranking
    pub ranked : IsRanked fl ranking
    pub all_ranked : Perm ranking ms
    pub ties : KeepsTies fl ranking ms
    pub same_threads : c.worker.thread_count ≡ s.thread_count
    pub same_process : c.worker.process_priority ≡ s.process_priority
    pub same_thread : c.worker.thread_priority ≡ s.thread_priority

  abbrev k : Then F
  k = unlock_by_result

  abbrev go_on : List Program → Saved → List (Measured F) → Control F → Control F
  go_on ps s ms c = start_long_test fl (run fl k) ps s ms k c

  abbrev ready : Control F → Control F
  ready c = record (lock fl c) {
    worker = record (lock fl c).worker { support_x86 = false; support_x64 = false };
  }
