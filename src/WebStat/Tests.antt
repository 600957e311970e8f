-- ===== src/WebStat/Tests.antt =====
-- A pool that switches from one job to another, and a share for the second.
use perfect_miner.Prelude.{ℕ, ◌≡◌, refl, some, [], ◌∷◌, map, arith}
use perfect_miner.Prelude.KeyMap.{lookup, insert, remove}
use perfect_miner.WebStat.Jobs.{
  Jobs, new_jobs, worker_count_of, end_job, finish, opened, start_job, accepted_job, accepted_share,
}
use perfect_miner.WebStat.Live.{IsTidy}
use perfect_miner.WebStat.History.{Reach, start, next, job_accepted, share_accepted, Reach-IsTidy}
use perfect_miner.WebStat.Pools.{OrigPool, new_pools}
use perfect_miner.WebStat.PoolLife.{IsOrderly}

abbrev first : Jobs ℕ
first = accepted_job 10 1 5 77 new_jobs

abbrev second : Jobs ℕ
second = accepted_share 6 (accepted_job 25 1 6 78 first)

archive_times : map (λ j. j.time_in_work) second.archive ≡ 15 ∷ []
unfolding new_jobs worker_count_of end_job finish opened start_job accepted_job accepted_share
    lookup insert remove
archive_times = refl

second-Reach : Reach second
unfolding new_jobs worker_count_of end_job finish opened start_job accepted_job lookup insert remove
second-Reach =
    next
      (next (next start (job_accepted 10 1 5 77 new_jobs (refl, refl)))
        (job_accepted 25 1 6 78 first (refl, refl)))
      (share_accepted 6 (accepted_job 25 1 6 78 first))

Reach-IsTidy_example : IsTidy second
Reach-IsTidy_example = Reach-IsTidy second-Reach

-- A pool that connects and goes.
abbrev orig : OrigPool ℕ ℕ ℕ
orig = record {
  orig_id = 3;
  orig_copied = 0;
  orig_difficulty = 1;
  orig_difficulty_real = 65536;
  orig_job_count = 2;
  orig_accepted = 4;
  orig_rejected = 1;
  orig_shares = 5;
  orig_hashes = 9;
  orig_hashrate = 0;
  orig_ping = some 20;
}

empty_table : IsOrderly {C = ℕ} {F = ℕ} {R = ℕ} new_pools
unfolding new_pools lookup
empty_table = record { shown = λ i p h. absurd (ground arith); once = λ i. omega arith }
