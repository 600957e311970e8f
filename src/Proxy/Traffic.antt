-- ===== src/Proxy/Traffic.antt =====
-- Jobs and shares between a pool and its workers: `WrapperPool` and the handlers `workerShare`,
-- `workerWorkersInfo` and `poolAcceptedJob` of ControlServer/StratumProxy.js, over the client of
-- Stratum/StratumClient.js. The random id of a header, `randHex(8)`, is an argument.
pub mod Current
mod Tests
use perfect_miner.Prelude.{
  ℕ, ◌≡◌, refl, ap, sym, ◌∙◌, Bool, true, false, Option, none, some, List, [], ◌∷◌, ◌++◌, arith,
  is_some, if◌then◌else◌, Option-cases, inl, inr,
}
use perfect_miner.Prelude.Text.{Text, text_eq}
use perfect_miner.Prelude.KeyMap.{KeyMap, lookup, insert, keys}
use perfect_miner.Prelude.Floats.{Floats}
use perfect_miner.Bytes.{Bytes}
use perfect_miner.Stratum.Job.{get_block_header_for_worker, hand_out}
use perfect_miner.Stratum.Client.{Share, Client, get_job, take_header, reg_job}
use perfect_miner.Stratum.Client.{submit_share}
use perfect_miner.Stratum.Client.Shares.{get_header-notice}
use perfect_miner.Stratum.Client.Blobs.{get_job-extranonce}
use perfect_miner.Proxy.{WrapperPool, WrapperWorker}

-- `worker.setJob(job)`: the id, the header and the target for a worker.
pub record SetJob : Type 0 where
  pub worker_id : ℕ
  pub job_id : Text
  pub blob : Bytes
  pub target : Bytes

pub record PoolJobs (F : Type 0) : Type 0 where
  pub wrapper : WrapperPool
  pub client : Client F
  pub sent : List SetJob

pub record Traffic (F : Type 0) : Type 0 where
  pub workers : KeyMap WrapperWorker
  pub pools : KeyMap (PoolJobs F)

module _ (fl : Floats) (sha256d : Bytes → Bytes) where
  open fl use {F}

  unfoldable pub set_job : ℕ → Text × Bytes × Bytes → PoolJobs F → PoolJobs F
  set_job id (job_id, blob, target) s =
      let s' = record s { wrapper = record s.wrapper { job_id = some job_id } } in
      elim (lookup id s.wrapper.workers) [
        | none ↦ s'
        | some _ ↦ record s' {
          sent =
              s.sent
              ++ record { worker_id = id; job_id = job_id; blob = blob; target = target } ∷ [];
        }
      ]

  unfoldable pub job_for_worker : (ℕ → Text) → ℕ → PoolJobs F → PoolJobs F
  job_for_worker fresh id s =
      let (job, c) = get_job fl sha256d (fresh id) s.client in
      elim job [ none ↦ record s { client = c } | some j ↦ set_job id j (record s { client = c }) ]

  unfoldable pub jobs_for_workers : (ℕ → Text) → List ℕ → PoolJobs F → PoolJobs F
  jobs_for_workers fresh [] s = s
  jobs_for_workers fresh (id ∷ ids) s = jobs_for_workers fresh ids (job_for_worker fresh id s)

  unfoldable pub new_job : (ℕ → Text) → PoolJobs F → PoolJobs F
  new_job fresh s = jobs_for_workers fresh (keys s.wrapper.workers) s

  -- A `job_id` that was never set, or is empty, lets no share pass.
  unfoldable pub is_current : Text → Option Text → Bool
  is_current id none = false
  is_current id (some []) = false
  is_current id (some (a ∷ s)) = text_eq id (a ∷ s)

  unfoldable pub pass_share : ℕ → ℕ → Share → PoolJobs F → PoolJobs F
  pass_share now id share s =
      if is_current share.job_id s.wrapper.job_id
      then record s { client = submit_share fl sha256d now id share s.client }
      else s

  -- The handlers: `update` works on the pool that the worker mines for.
  unfoldable pub at_pool : (PoolJobs F → PoolJobs F) → Option ℕ → Traffic F → Traffic F
  at_pool update none t = t
  at_pool update (some pool_id) t = elim (lookup pool_id t.pools) [
    | none ↦ t
    | some s ↦ record t { pools = insert pool_id (update s) t.pools }
  ]

  unfoldable pub pool_of : ℕ → Traffic F → Option ℕ
  pool_of id t = elim (lookup id t.workers) [ none ↦ none | some w ↦ w.pool ]

  unfoldable pub worker_share : ℕ → ℕ → ℕ → Share → Traffic F → Traffic F
  worker_share worker_id now id share t = at_pool (pass_share now id share) (pool_of worker_id t) t

  unfoldable pub worker_workers_info : (ℕ → Text) → ℕ → Traffic F → Traffic F
  worker_workers_info fresh worker_id t =
      at_pool (job_for_worker fresh worker_id) (pool_of worker_id t) t

  unfoldable pub pool_accepted_job : (ℕ → Text) → ℕ → Traffic F → Traffic F
  pool_accepted_job fresh pool_id t = at_pool (new_job fresh) (some pool_id) t
