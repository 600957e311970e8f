-- ===== src/Stratum/Client.antt =====
-- `JobMng` and the shares of `StratumClient` (ControlServer/Stratum/StratumClient.js): which headers
-- the workers hold, and what becomes of a share. A random id of `regJob` and an id of
-- `getGlobalUniqueId` are arguments; a call to the pool is known by its number. The hash rates, which
-- are fed with `hash_count`, are left out.
pub mod Shares
pub mod History
pub mod Ledger
pub mod Handed
pub mod Blobs
use perfect_miner.Prelude.{
  ℕ, ◌+◌, ◌-◌, Bool, true, false, Option, none, some, List, [], ◌∷◌, ◌++◌, length, ◌&&◌, ◌==◌,
  if◌then◌else◌,
}
use perfect_miner.Prelude.Text.{Text, text_eq}
use perfect_miner.Prelude.KeyMap.{KeyMap, lookup, insert, remove}
use perfect_miner.Prelude.Floats.{Floats}
use perfect_miner.Bytes.{Bytes}
use perfect_miner.Bytes.Hex.{all_hex}
use perfect_miner.Stratum.Header.{Notice}
use perfect_miner.Stratum.Job.{
  Job, WorkerData, new_job, same_job, update_job, update_extranonce, get_block_header_for_worker,
}

-- A worker's share, by the id that its job was handed out under.
pub record Share : Type 0 where
  pub worker_id : ℕ
  pub job_id : Text
  pub nonce : Text
  pub hash : Text

-- `share_clone`, with the data of the job it is for.
pub record ShareClone (F : Type 0) : Type 0 where
  pub id : ℕ
  pub share : Share
  pub job : WorkerData F
  pub time_start : ℕ
  pub time_end : ℕ

-- `mining.submit` with the job id, the second extranonce, the ntime and the nonce; and the events.
pub data Output (F : Type 0) : Type 0 where
  mining_submit : ℕ → Text → Bytes → Bytes → Text → Output F
  accepted_share rejected_share : ShareClone F → Output F

pub record Client (F : Type 0) : Type 0 where
  pub job : Job F
  pub job_workers : List (Text × WorkerData F)
  pub share_count : ℕ
  pub accepted_share_count : ℕ
  pub rejected_share_count : ℕ
  pub hash_count : F
  pub last_share_update_time : ℕ
  pub call_seq : ℕ
  pub pending : KeyMap (ShareClone F)
  pub outputs : List (Output F)

module _ {A : Type 0} where
  -- The newest entry of a key counts.
  unfoldable pub find : Text → List (Text × A) → Option A
  find key [] = none
  find key ((k, a) ∷ m) = let more = find key m in if text_eq key k then some a else more

module _ (fl : Floats) (sha256d : Bytes → Bytes) where
  open fl use {F, of_ℕ, add}

  unfoldable pub new_client : ℕ → ℕ → Client F
  new_client job_id now = record {
    job = new_job fl sha256d job_id;
    job_workers = [];
    share_count = 0;
    accepted_share_count = 0;
    rejected_share_count = 0;
    hash_count = of_ℕ 0;
    last_share_update_time = now;
    call_seq = 1;
    pending = [];
    outputs = [];
  }

  unfoldable pub reg_job : Text → WorkerData F → Client F → Client F
  reg_job worker_job_id d c = record c { job_workers = (worker_job_id, d) ∷ c.job_workers }

  -- `getJobForWorker`: the id, the header and the target for the worker.
  unfoldable pub take_header :
      Text → Option (WorkerData F) → Job F → Client F → Option (Text × Bytes × Bytes) × Client F
  take_header worker_job_id none j c = (none, record c { job = j })
  take_header worker_job_id (some d) j c = (
    some (worker_job_id, d.block_header_blob, d.target_blob),
    reg_job worker_job_id d (record c { job = j }),
  )

  unfoldable pub get_job : Text → Client F → Option (Text × Bytes × Bytes) × Client F
  get_job worker_job_id c =
      let (d, j) = get_block_header_for_worker fl sha256d c.job in take_header worker_job_id d j c

  -- `JobMng.updateJob`; `none` is the TypeError of `Job.updateJob`.
  unfoldable pub clean_jobs : Notice F → Client F → Client F
  clean_jobs n c = if same_job fl sha256d n c.job then c else record c { job_workers = [] }

  unfoldable pub take_job : Option (Job F) → Client F → Option (Client F)
  take_job none c = none
  take_job (some j) c = some (record c { job = j })

  unfoldable pub update_client : ℕ → Notice F → Client F → Option (Client F)
  update_client fresh n c = take_job (update_job fl sha256d fresh n c.job) (clean_jobs n c)

  unfoldable pub set_extranonce : Bytes → ℕ → Client F → Client F
  set_extranonce extranonce1 size c = record c {
    job = update_extranonce fl sha256d extranonce1 size c.job;
  }

  unfoldable pub clone_share : ℕ → ℕ → Share → WorkerData F → Client F → ShareClone F
  clone_share now id s d c = record {
    id = id;
    share = s;
    job = d;
    time_start = c.last_share_update_time;
    time_end = now;
  }

  -- The calls to the pool are numbered, as `JsonRpcClient` does.
  unfoldable pub send_share : ℕ → ℕ → Share → WorkerData F → Client F → Client F
  send_share now id s d c = record c {
    last_share_update_time = now;
    share_count = c.share_count + 1;
    pending = insert c.call_seq (clone_share now id s d c) c.pending;
    call_seq = c.call_seq + 1;
    outputs =
        c.outputs ++ mining_submit c.call_seq d.job_id d.extranonce2_blob d.ntime_blob s.nonce ∷ [];
  }

  unfoldable pub submit_share : ℕ → ℕ → Share → Client F → Client F
  submit_share now id s c =
      if (length s.nonce == 8) && all_hex s.nonce
      then (elim (find s.job_id c.job_workers) [ none ↦ c | some d ↦ send_share now id s d c ])
      else c

  -- The callback of `mining.submit`.
  unfoldable pub count_result : Bool → ShareClone F → Client F → Client F
  count_result true s c = record c {
    accepted_share_count = c.accepted_share_count + 1;
    hash_count = add c.hash_count s.job.difficulty_real;
    outputs = c.outputs ++ accepted_share s ∷ [];
  }
  count_result false s c = record c {
    rejected_share_count = c.rejected_share_count + 1;
    outputs = c.outputs ++ rejected_share s ∷ [];
  }

  unfoldable pub on_result : ℕ → Bool → Client F → Client F
  on_result call result c = elim (lookup call c.pending) [
    | none ↦ c
    | some s ↦ count_result result s (record c { pending = remove call c.pending })
  ]
