-- ===== src/Stratum/Tests.antt =====
-- The job of a pool at concrete blobs, with whole numbers for doubles and a digest of zeros.
use perfect_miner.Prelude.{
  ℕ, ◌≡◌, ◌≤◌, ◌⊎◌, refl, true, false, none, some, [], ◌∷◌, ◌++◌, arith, length, replicate,
}
use perfect_miner.Prelude.Text.{codes, text_eq}
use perfect_miner.Prelude.Floats.{whole}
use perfect_miner.Bytes.{Bytes, copy}
use perfect_miner.Stratum.Target.{
  diff_to_target, diff_to_target_lem, scale, finish_target, write_target, layout,
}
use perfect_miner.Stratum.Header.{
  Notice, Extranonce, get_block_height, find_run, skip_run, read_height, height_behind, header_over,
}
use perfect_miner.Stratum.Header.Layout.{HasLengths, header_over-layout, header_regions}
use perfect_miner.Bytes.Regions.{flat}
use perfect_miner.Stratum.Job.{
  Job, WorkerData, new_job, update_extranonce, update_job, same_job, install,
  get_block_header_for_worker, hand_out, put_nonce, refresh_header, step_nonce, worker_data,
}
use perfect_miner.Stratum.Job.Distinct.{after}
use perfect_miner.Stratum.Job.Match.{expected_header}
use perfect_miner.Stratum.Job.Update.{IsWellSized, new_job_headers, new_job_distinct, stale_header}
use perfect_miner.Stratum.Client.{
  Client, Share, mining_submit, new_client, set_extranonce, update_client, clean_jobs, take_job,
  get_job, submit_share, on_result, find,
}
use perfect_miner.Stratum.Client.Shares.{IsOf, IsSound}
use perfect_miner.Stratum.Client.History.{
  Reach, start, notified, extranonce_set, header_asked, share_found, answered,
}
use perfect_miner.Stratum.Client.Ledger.{answers, IsBooked, shares_lem}
use perfect_miner.Stratum.Client.Handed.{submit_share-current}
use perfect_miner.Stratum.Client.Handed

abbrev no_digest : Bytes → Bytes
no_digest b = replicate 32 0

no_digest_length : (b : Bytes) → length (no_digest b) ≡ 32
no_digest_length b = refl

abbrev notice : Notice ℕ
notice = record {
  job_id = codes "7f";
  difficulty = 1;
  difficulty_pool = 65536;
  difficulty_real = 4294967296;
  prevhash = replicate 32 17;
  coinb1 = replicate 36 0 ++ 255 ∷ 255 ∷ 255 ∷ 255 ∷ 9 ∷ 2 ∷ 57 ∷ 5 ∷ [];
  coinb2 = 5 ∷ 6 ∷ [];
  merkle_branch = replicate 32 3 ∷ [];
  version = 1 ∷ 0 ∷ 0 ∷ 0 ∷ [];
  nbits = 2 ∷ 0 ∷ 0 ∷ 0 ∷ [];
  ntime = 3 ∷ 0 ∷ 0 ∷ 0 ∷ [];
  clean_jobs = true;
}

abbrev extranonce : Extranonce
extranonce = record { extranonce1_blob = 8 ∷ 9 ∷ []; extranonce2_blob = 0 ∷ 0 ∷ [] }

abbrev subscribed : Job ℕ
subscribed = update_extranonce whole no_digest (8 ∷ 9 ∷ []) 2 (new_job whole no_digest 4)

height_found : get_block_height notice.coinb1 ≡ 1337
unfolding get_block_height find_run skip_run height_behind read_height
height_found = refl

target_found : diff_to_target whole 1 ≡ replicate 24 0 ++ 0 ∷ 0 ∷ 255 ∷ 255 ∷ 0 ∷ 0 ∷ 0 ∷ 0 ∷ []
unfolding diff_to_target scale finish_target write_target copy
target_found = refl

diff_to_target_lem_example :
    (6 ≤ 6)
    × ((diff_to_target whole 1 ≡ replicate 32 255)
        ⊎ (diff_to_target whole 1 ≡ layout whole 6 4294901760))
unfolding scale
diff_to_target_lem_example = diff_to_target_lem whole 1

header_lengths : HasLengths notice (3 ∷ 0 ∷ 0 ∷ 0 ∷ []) (0 ∷ 0 ∷ 0 ∷ 0 ∷ [])
header_lengths = record {
  version_fits = refl;
  prevhash_fits = refl;
  ntime_fits = refl;
  nbits_fits = refl;
  nonce_fits = refl;
}

header_over-layout_example :
    header_over whole no_digest notice [] (3 ∷ 0 ∷ 0 ∷ 0 ∷ []) (0 ∷ 0 ∷ 0 ∷ 0 ∷ [])
    ≡ flat (
        header_regions whole no_digest no_digest_length notice []
          (3 ∷ 0 ∷ 0 ∷ 0 ∷ [])
          (0 ∷ 0 ∷ 0 ∷ 0 ∷ []))
header_over-layout_example =
    header_over-layout whole no_digest no_digest_length notice [] (3 ∷ 0 ∷ 0 ∷ 0 ∷ [])
      (0 ∷ 0 ∷ 0 ∷ 0 ∷ []) header_lengths

-- The job after the first notice, and what it hands out.
abbrev running : Job ℕ
running = install whole no_digest 5 notice extranonce (0 ∷ 0 ∷ 0 ∷ 0 ∷ []) subscribed

abbrev handed : ℕ → Job ℕ → WorkerData ℕ
handed k j =
    let j' = after whole no_digest k j in
    elim j'.extranonce [
      | none ↦ (hand_out whole no_digest notice extranonce j').0
      | some e ↦ (hand_out whole no_digest notice e j').0
    ]

sized : IsWellSized notice
sized = record { version_fits = refl; prevhash_fits = refl; ntime_fits = refl; nbits_fits = refl }

new_job_headers_example :
    (handed 1 running).block_header_blob
    ≡ expected_header whole no_digest no_digest_length notice
        (8 ∷ 9 ∷ [])
        (0 ∷ 0 ∷ [])
        (3 ∷ 0 ∷ 0 ∷ 0 ∷ [])
        (0 ∷ 0 ∷ 0 ∷ 1 ∷ [])
unfolding get_block_header_for_worker update_job same_job new_job update_extranonce install hand_out
    worker_data put_nonce refresh_header step_nonce after
new_job_headers_example =
    new_job_headers whole no_digest no_digest_length 5 1 notice extranonce subscribed running
      (handed 1 running) refl refl refl sized refl refl

new_job_distinct_example : ¬ (
    ((handed 0 running).nonce_blob ≡ (handed 1 running).nonce_blob)
    × ((handed 0 running).extranonce2_blob ≡ (handed 1 running).extranonce2_blob))
unfolding get_block_header_for_worker update_job same_job new_job update_extranonce install hand_out
    worker_data put_nonce refresh_header step_nonce after
new_job_distinct_example =
    new_job_distinct whole no_digest 5 0 1 notice extranonce subscribed running (handed 0 running)
      (handed 1 running) refl refl refl refl (omega arith) (omega arith) refl refl

-- The same job again, with another ntime, once a header is out.
abbrev later : Notice ℕ
later = record notice { ntime = 4 ∷ 0 ∷ 0 ∷ 0 ∷ [] }

abbrev mined : Job ℕ
mined = after whole no_digest 1 running

abbrev updated : Job ℕ
updated = install whole no_digest 5 later extranonce (0 ∷ 0 ∷ 0 ∷ 1 ∷ []) mined

stale_header_example :
    let d = (hand_out whole no_digest later extranonce updated).0 in
    (d.block_header_blob ≡ copy mined.nonce_blob mined.block_header_blob 76)
    × (d.ntime_blob ≡ 4 ∷ 0 ∷ 0 ∷ 0 ∷ [])
unfolding get_block_header_for_worker update_job same_job new_job update_extranonce install hand_out
    worker_data put_nonce refresh_header step_nonce after text_eq
stale_header_example =
    stale_header whole no_digest 5 later extranonce mined updated
      (hand_out whole no_digest later extranonce updated).0 refl (λ e. absurd (omega arith)) refl
      refl refl

-- A client that has handed out a header and got a share for it.
abbrev client : Client ℕ
client = new_client whole no_digest 4 100

abbrev told : Client ℕ
told = set_extranonce whole no_digest (8 ∷ 9 ∷ []) 2 client

abbrev notified_client : Client ℕ
notified_client = record told { job = running }

abbrev asked : Client ℕ
asked = (get_job whole no_digest (codes "w1") notified_client).1

asked-Reach : Reach whole no_digest asked
unfolding update_client take_job clean_jobs new_client set_extranonce update_job same_job new_job
    update_extranonce install
asked-Reach =
    header_asked (codes "w1") (notified 5 notice (extranonce_set (8 ∷ 9 ∷ []) 2 (start 4 100)) refl)

abbrev found_share : Share
found_share = record {
  worker_id = 7;
  job_id = codes "w1";
  nonce = codes "00000001";
  hash = codes "ff";
}

-- The share is sent, and the pool accepts it.
abbrev paid-Reach :
    Reach whole no_digest
      (on_result whole no_digest 1 true (submit_share whole no_digest 110 9 found_share asked))
paid-Reach = answered 1 true (share_found 110 9 found_share asked-Reach)

shares_lem_example :
    IsSound whole no_digest
      (on_result whole no_digest 1 true (submit_share whole no_digest 110 9 found_share asked))
    × IsBooked whole no_digest
        (on_result whole no_digest 1 true (submit_share whole no_digest 110 9 found_share asked))
        (answers whole no_digest true paid-Reach)
        (answers whole no_digest false paid-Reach)
shares_lem_example = shares_lem whole no_digest paid-Reach

submit_share-current_example :
    (submit_share whole no_digest 110 9 found_share asked ≡ asked)
    ⊎ ((d : WorkerData ℕ) × (find found_share.job_id (Handed.handed whole no_digest asked-Reach)
          ≡ some d)
        × IsOf whole no_digest asked.job d
        × ((submit_share whole no_digest 110 9 found_share asked).outputs
            ≡ asked.outputs
              ++ mining_submit asked.call_seq d.job_id d.extranonce2_blob d.ntime_blob
                  (codes "00000001")
                ∷ []))
submit_share-current_example =
    submit_share-current whole no_digest 110 9 found_share asked asked-Reach
