-- ===== src/Stratum/Job.antt =====
-- `Job` of ControlServer/Stratum/StratumClient.js: block headers for the workers, one nonce prefix
-- at a time. A blob that the source has not set yet (`null`) is empty here, but for the extranonces,
-- whose absence makes `updateJob` fail.
pub mod Step
pub mod Distinct
pub mod Match
pub mod Update
use Prim.Native.Nat.{bit_or}
use perfect_miner.Prelude.{
  ℕ, zero, suc, ◌+◌, ◌*◌, ◌%◌, ◌^◌, Bool, true, false, not, ◌&&◌, Option, none, some, List, [], ◌∷◌,
  ◌++◌, length, replicate, get_or, set, take, drop, ◌==◌, if◌then◌else◌,
}
use perfect_miner.Prelude.Text.{Text, text_eq}
use perfect_miner.Prelude.Floats.{Floats}
use perfect_miner.Bytes.{Bytes, copy, int32_le}
use perfect_miner.Bytes.Counter.{increment}
use perfect_miner.Stratum.Target.{diff_to_target}
use perfect_miner.Stratum.Header.{
  Notice, Extranonce, get_block_height, make_coinbase, write_extranonce2, header_over,
}

pub record Job (F : Type 0) : Type 0 where
  pub id : ℕ
  pub notice : Option (Notice F)
  pub extranonce : Option Extranonce
  pub nonce_blob : Bytes
  pub coinbase_blob : Bytes
  pub target_blob : Bytes
  pub block_height : ℕ
  pub block_header_blob : Bytes

-- What a worker gets: the header to hash, and what the pool needs to rebuild it from a share.
pub record WorkerData (F : Type 0) : Type 0 where
  pub id : ℕ
  pub job_id : Text
  pub block_header_blob : Bytes
  pub target_blob : Bytes
  pub extranonce1_blob : Bytes
  pub extranonce2_blob : Bytes
  pub nonce_blob : Bytes
  pub ntime_blob : Bytes
  pub difficulty : F
  pub difficulty_real : F
  pub difficulty_pool : F
  pub block_height : ℕ

module _ (fl : Floats) (sha256d : Bytes → Bytes) where
  open fl use {F}

  unfoldable pub new_job : ℕ → Job F
  new_job id = record {
    id = id;
    notice = none;
    extranonce = none;
    nonce_blob = 0 ∷ 0 ∷ 0 ∷ 0 ∷ [];
    coinbase_blob = [];
    target_blob = [];
    block_height = 0;
    block_header_blob = [];
  }

  unfoldable pub update_extranonce : Bytes → ℕ → Job F → Job F
  update_extranonce extranonce1 size j = record j {
    extranonce =
        some (record { extranonce1_blob = extranonce1; extranonce2_blob = replicate size 0 });
  }

  -- Does the notice carry on the job at hand?
  unfoldable pub same_job : Notice F → Job F → Bool
  same_job n j = elim j.notice [ none ↦ false | some old ↦ text_eq n.job_id old.job_id ]

  -- The rest of `updateJob`, with the extranonce and the nonce that the job goes on with.
  unfoldable pub install : ℕ → Notice F → Extranonce → Bytes → Job F → Job F
  install id n e nonce j =
      let coinbase = make_coinbase n.coinb1 e.extranonce1_blob e.extranonce2_blob n.coinb2 in
      record j {
        id = id;
        notice = some n;
        extranonce = some e;
        nonce_blob = nonce;
        coinbase_blob = coinbase;
        target_blob = diff_to_target fl n.difficulty;
        block_height = get_block_height coinbase;
      }

  -- `none` is the TypeError on an extranonce that was never set. `fresh` is the next global id.
  unfoldable pub update_job : ℕ → Notice F → Job F → Option (Job F)
  update_job fresh n j = elim j.extranonce [
    | none ↦ none
    | some e ↦ some (
        if same_job n j
        then install j.id n e j.nonce_blob j
        else install fresh n
            (record e { extranonce2_blob = replicate (length e.extranonce2_blob) 0 })
            (replicate (length j.nonce_blob) 0) j)
  ]

  -- `getBlockHeaderForWorker`: first the header, which is built anew where the fourth byte of the
  -- nonce is 0, then the step of the counter.
  unfoldable pub refresh_header : Notice F → Extranonce → Job F → Job F
  refresh_header n e j =
      if get_or j.nonce_blob 3 0 == 0
      then (let coinbase =
            write_extranonce2 n.coinb1 e.extranonce1_blob e.extranonce2_blob j.coinbase_blob in
          record j {
            coinbase_blob = coinbase;
            block_header_blob = header_over fl sha256d n coinbase n.ntime j.nonce_blob;
          })
      else j

  unfoldable pub step_nonce : Extranonce → Job F → Job F
  step_nonce e j =
      if get_or j.nonce_blob 3 0 == 255
      then record j {
        extranonce = some (record e { extranonce2_blob = increment e.extranonce2_blob });
        nonce_blob = set j.nonce_blob 3 0;
      }
      else record j { nonce_blob = set j.nonce_blob 3 (get_or j.nonce_blob 3 0 + 1) }

  unfoldable pub put_nonce : Job F → Job F
  put_nonce j = record j { block_header_blob = copy j.nonce_blob j.block_header_blob 76 }

  unfoldable pub worker_data : Notice F → Extranonce → Job F → Bytes → WorkerData F
  worker_data n e j header = record {
    id = j.id;
    job_id = n.job_id;
    block_header_blob = header;
    target_blob = j.target_blob;
    extranonce1_blob = e.extranonce1_blob;
    extranonce2_blob = e.extranonce2_blob;
    nonce_blob = j.nonce_blob;
    ntime_blob = n.ntime;
    difficulty = n.difficulty;
    difficulty_real = n.difficulty_real;
    difficulty_pool = n.difficulty_pool;
    block_height = j.block_height;
  }

  unfoldable pub hand_out : Notice F → Extranonce → Job F → WorkerData F × Job F
  hand_out n e j =
      let j' = put_nonce (refresh_header n e j) in
      (worker_data n e j j'.block_header_blob, step_nonce e j')

  unfoldable pub get_block_header_for_worker : Job F → Option (WorkerData F) × Job F
  get_block_header_for_worker j = elim j.notice [
    | none ↦ (none, j)
    | some n ↦ elim j.extranonce [
      | none ↦ (none, j)
      | some e ↦ let (d, j') = hand_out n e j in (some d, j')
    ]
  ]
