-- ===== src/Proxy/Traffic/Tests.antt =====
-- A pool with two workers, whose shares name the header of the first.
use perfect_miner.Prelude.{ℕ, ◌≡◌, ◌≢◌, refl, true, none, some, [], ◌∷◌, arith, replicate}
use perfect_miner.Prelude.Text.{Text, codes}
use perfect_miner.Prelude.Floats.{whole}
use perfect_miner.Prelude.KeyMap.{keys}
use perfect_miner.Bytes.{Bytes}
use perfect_miner.Stratum.Header.{Notice}
use perfect_miner.Stratum.Client.{Share, Client, new_client, submit_share}
use perfect_miner.Proxy.Traffic.{PoolJobs, new_job, pass_share}
use perfect_miner.Proxy.Traffic.Current.{new_job-shares}

abbrev no_digest : Bytes → Bytes
no_digest b = replicate 32 0

abbrev notice : Notice ℕ
notice = record {
  job_id = codes "7f";
  difficulty = 1;
  difficulty_pool = 1;
  difficulty_real = 1;
  prevhash = [];
  coinb1 = [];
  coinb2 = [];
  merkle_branch = [];
  version = [];
  nbits = [];
  ntime = [];
  clean_jobs = true;
}

abbrev start : Client ℕ
start = new_client whole no_digest 4 100

abbrev pool : PoolJobs ℕ
pool = record {
  wrapper = record {
    id = 1;
    max_workers_count = 5;
    workers_count = 2;
    workers = (2, 2) ∷ (3, 3) ∷ [];
    job_id = none;
  };
  client = record start {
    job = record start.job {
      notice = some notice;
      extranonce = some (record { extranonce1_blob = []; extranonce2_blob = 0 ∷ 0 ∷ [] });
    };
  };
  sent = [];
}

abbrev fresh : ℕ → Text
fresh id = id ∷ []

abbrev share : Share
share = record { worker_id = 2; job_id = 2 ∷ []; nonce = codes "00000001"; hash = [] }

new_job-shares_example :
    let s' = new_job whole no_digest fresh pool in
    (share.job_id ≢ fresh 3 → pass_share whole no_digest 110 9 share s' ≡ s')
    × (share.job_id ≡ fresh 3
        → pass_share whole no_digest 110 9 share s'
          ≡ record s' { client = submit_share whole no_digest 110 9 share s'.client })
unfolding keys
new_job-shares_example =
    new_job-shares whole no_digest fresh (2 ∷ []) 3 110 9 share pool (refl, refl) refl
      (λ e. absurd (ground arith))
