-- ===== src/Control/Tests.antt =====
-- A control for one thread, with ten jobs.
use perfect_miner.Prelude.{◌≡◌, refl, true, List, [], ◌∷◌, ◌++◌, arith, replicate, map, take}
use perfect_miner.Prelude.Text.{Text, codes}
use perfect_miner.Prelude.KeyMap.{keys, insert, remove}
use perfect_miner.Bytes.{Bytes, le_value}
use perfect_miner.Control.{
  PoolJob, Control, WorkerInfo, Parts, Struct, new_control, set_job, parse_cl_message, dispatch,
  auto_unpack, registered_size, cl_worker_info, is_valid_job, store_job, set_checked_job, sv_job,
  send_newest, newest, trim_jobs, drop_oldest,
}
use perfect_miner.Bytes.Hex.{all_hex, is_hex}
use perfect_miner.Control.Jobs.{Sent, IsWindow, accepted, set_jobs, set_jobs_lem}
use perfect_miner.Control.Life.{IsLive, start, gets_message, Reach-IsLive}

abbrev job : Text → Sent
job id = record { sent_id = id; sent_target = replicate 64 48; sent_blob = replicate 160 97 }

abbrev ten_jobs : List Sent
ten_jobs =
    map job (replicate 9 (codes "a") ++ (codes "b" ∷ []))
    ++ (record { sent_id = []; sent_target = []; sent_blob = [] } ∷ [])

abbrev stored_job : PoolJob
stored_job = record {
  job_seq = 258;
  job_id = codes "a";
  target_hex = replicate 64 102;
  blob_hex = replicate 160 48;
}

set_jobs_lem_example :
    IsWindow (accepted ten_jobs) (set_jobs (replicate 120 0) ten_jobs (new_control 1))
set_jobs_lem_example = set_jobs_lem (replicate 120 0) 1 ten_jobs

nine_left :
    keys (set_jobs (replicate 120 0) ten_jobs (new_control 1)).jobs
    ≡ 2 ∷ 3 ∷ 4 ∷ 5 ∷ 6 ∷ 7 ∷ 8 ∷ 9 ∷ 10 ∷ []
unfolding set_jobs new_control set_job set_checked_job is_valid_job all_hex is_hex store_job sv_job
    send_newest trim_jobs drop_oldest keys insert remove
nine_left = refl

abbrev worker : WorkerInfo
worker = record {
  process_priority = 0;
  thread_priority = 0;
  processor_package_index = 0;
  processor_core_index = 0;
  processor_logical_index = 0;
  numa_node_index = 0;
  large_page = 0;
}

abbrev parts : Parts
parts = record { u16_0 = 0; u16_1 = 0; u16_2 = 0; u16_3 = 0 }

abbrev struct : Struct
struct = record {
  pong_id = λ b. 0;
  worker_info = λ b. worker;
  hash_info = λ b. record {
    hash_count = parts;
    share_count = parts;
    min_delta_micro_sec_hash = 0;
    time_mili_sec = parts;
  };
  share_job_id = λ b. le_value (take 4 b);
}

abbrev report : Bytes
report = 87 ∷ replicate 31 0

abbrev reported : Control
reported = parse_cl_message struct [] report (new_control 1)

Reach-IsLive_example : IsLive reported
Reach-IsLive_example = Reach-IsLive struct 1 (omega arith) (gets_message [] report start)

now_ready : reported.workers_ready ≡ true
unfolding parse_cl_message dispatch auto_unpack registered_size le_value cl_worker_info sv_job
    send_newest new_control newest
now_ready = refl
