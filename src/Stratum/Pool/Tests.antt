-- ===== src/Stratum/Pool/Tests.antt =====
-- A pool at concrete messages, with whole numbers for doubles and a digest of zeros.
use perfect_miner.Prelude.{
  ℕ, ◌+◌, ◌≡◌, refl, Bool, true, false, Option, none, some, List, [], ◌∷◌, length, replicate, ◌>>=◌,
}
use perfect_miner.Prelude.Int.{ℤ, pos}
use perfect_miner.Prelude.Text.{codes}
use perfect_miner.Prelude.Floats.{whole}
use perfect_miner.Bytes.{Bytes}
use perfect_miner.Json.{Value, null, boolean, number, string, array, Values, truthy}
use perfect_miner.Stratum.Header.{Notice}
use perfect_miner.Stratum.Job.{Job, WorkerData, get_block_header_for_worker}
use perfect_miner.Stratum.Job.Distinct.{after}
use perfect_miner.Stratum.Job.Match.{expected_header}
use perfect_miner.Json.{items}
use perfect_miner.Bytes.Hex.{all_hex, is_hex, hex_value, from_hex}
use perfect_miner.Common.{
  check_text, check_hex_text, at_least, at_most, bounded, is_int32, parse_integer, rounded,
}
use perfect_miner.Common.Checks.{check_string, check_hex, check_array}
use perfect_miner.Stratum.Job.{install, hand_out, update_job, same_job, new_job, update_extranonce}
use perfect_miner.Stratum.Client.{new_client, set_extranonce, update_client, take_job, clean_jobs}
use perfect_miner.Stratum.Values.{
  has_no_length, pair_at, read_hex, find_sid, new_sid, second, is_null, read_merkle, read_array,
}
use perfect_miner.Stratum.Pool.{
  subscribe, authorize, disconnect, accepted_job, take_subscription, ask_authorize, set_extranonce1,
  read_size, set_size, tell, has_extranonce, take_notice, tell_job, diff_to_real_diff, close,
  refuse, Pool, done, new_pool, read_notice, mining_notify, mining_set_extranonce, on_connect,
  on_subscribed,
}
use perfect_miner.Stratum.Pool.Kept.{IsKept}
use perfect_miner.Stratum.Pool.History.{Reach, opened, connected, subscribed, Reach-IsKept}
use perfect_miner.Stratum.Pool.Headers.{mining_notify_done, accepted_headers}

abbrev no_digest : Bytes → Bytes
no_digest b = replicate 32 0

no_digest_length : (b : Bytes) → length (no_digest b) ≡ 32
no_digest_length b = refl

abbrev to_number : Value ℕ → ℕ
to_number (number n) = n
to_number _ = 0

abbrev to_integer : Value ℕ → Option ℤ
to_integer (number n) = some (pos n)
to_integer _ = none

abbrev values : List (Value ℕ) → Values ℕ
values [] = Values.nil
values (v ∷ vs) = Values.cons v (values vs)

abbrev ones : ℕ → Value ℕ
ones n = string (replicate (n + n) 49)

abbrev notice_params : Value ℕ
notice_params = array (
    values (
      string (codes "7f")
      ∷ ones 32
      ∷ ones 4
      ∷ ones 2
      ∷ array (values (ones 32 ∷ []))
      ∷ ones 4
      ∷ ones 4
      ∷ ones 4
      ∷ boolean true
      ∷ []))

abbrev subscription_answer : Value ℕ
subscription_answer = array (values (array Values.nil ∷ string (codes "0a0b") ∷ number 2 ∷ []))

-- The pool that has answered to `mining.subscribe`.
abbrev ready_pool : Pool ℕ
ready_pool = record (new_pool whole no_digest 4 100) {
  client = set_extranonce whole no_digest (10 ∷ 11 ∷ []) 2 (new_client whole no_digest 4 100);
  extranonce1 = string (codes "0a0b");
  extranonce2_size = some (pos 2);
  messages = subscribe ∷ authorize ∷ [];
}

ready_pool-Reach : Reach whole no_digest to_number to_integer ready_pool
unfolding on_subscribed truthy read_array take_subscription items ask_authorize
    mining_set_extranonce check_array set_extranonce1 has_no_length pair_at read_hex check_hex
    check_hex_text check_text at_least at_most all_hex from_hex hex_value is_hex bounded is_int32
    parse_integer rounded find_sid new_sid read_size second set_size tell on_connect new_pool
ready_pool-Reach = subscribed subscription_answer null false (connected (opened 4 100)) refl

Reach-IsKept_example : IsKept whole no_digest ready_pool
Reach-IsKept_example = Reach-IsKept whole no_digest to_number to_integer ready_pool-Reach

mining_notify_done_example :
    (b : Bool) × (p' : Pool ℕ) × (mining_notify whole no_digest to_number to_integer 5 notice_params
        ready_pool
      ≡ done b p')
unfolding new_pool
mining_notify_done_example =
    mining_notify_done whole no_digest to_number to_integer 5 notice_params ready_pool
      ready_pool-Reach refl

abbrev notice : Notice ℕ
notice = record {
  job_id = codes "7f";
  difficulty = 1;
  difficulty_pool = 1;
  difficulty_real = 65536;
  prevhash = replicate 32 17;
  coinb1 = replicate 4 17;
  coinb2 = replicate 2 17;
  merkle_branch = replicate 32 17 ∷ [];
  version = replicate 4 17;
  nbits = replicate 4 17;
  ntime = replicate 4 17;
  clean_jobs = true;
}

notice_read :
    (read_array notice_params >>= λ vs.
    read_notice whole no_digest to_number to_integer vs ready_pool)
    ≡ some notice
unfolding new_pool read_array items read_notice check_string check_text at_least at_most read_hex
    check_hex check_hex_text all_hex is_hex from_hex hex_value read_merkle truthy diff_to_real_diff
notice_read = refl

abbrev mined : Job ℕ
mined =
    install whole no_digest 5 notice
      (record { extranonce1_blob = 10 ∷ 11 ∷ []; extranonce2_blob = 0 ∷ 0 ∷ [] })
      (0 ∷ 0 ∷ 0 ∷ 0 ∷ []) ready_pool.client.job

abbrev mining_pool : Pool ℕ
mining_pool = record ready_pool {
  client = record ready_pool.client { job = mined };
  job_count = 1;
  messages = subscribe ∷ authorize ∷ accepted_job ∷ [];
}

notice_taken :
    mining_notify whole no_digest to_number to_integer 5 notice_params ready_pool
    ≡ done false mining_pool
unfolding mining_notify has_extranonce is_null take_notice update_client take_job update_job
    same_job clean_jobs tell_job tell new_client set_extranonce update_extranonce new_job new_pool
    read_array items read_notice check_string check_text at_least at_most read_hex check_hex
    check_hex_text all_hex is_hex from_hex hex_value read_merkle truthy diff_to_real_diff
notice_taken = refl

abbrev handed : WorkerData ℕ
handed =
    (hand_out whole no_digest notice
      (record { extranonce1_blob = 10 ∷ 11 ∷ []; extranonce2_blob = 0 ∷ 0 ∷ [] }) mined).0

handed_out :
    (get_block_header_for_worker whole no_digest (after whole no_digest 0 mining_pool.client.job)).0
    ≡ some handed
unfolding after get_block_header_for_worker install hand_out
handed_out = refl

accepted_headers_example :
    (n : Notice ℕ) × ((read_array notice_params >>= λ vs.
    read_notice whole no_digest to_number to_integer vs ready_pool)
      ≡ some n)
    × (handed.block_header_blob
        ≡ expected_header whole no_digest no_digest_length n handed.extranonce1_blob
            handed.extranonce2_blob handed.ntime_blob handed.nonce_blob)
unfolding new_pool
accepted_headers_example =
    accepted_headers whole no_digest to_number to_integer no_digest_length 5 0 notice_params false
      ready_pool mining_pool handed ready_pool-Reach notice_taken refl handed_out

-- An extranonce2 of 99 bytes.
abbrev refused_pool : Pool ℕ
refused_pool = record (new_pool whole no_digest 4 100) {
  extranonce1 = string (codes "0a0b");
  extranonce2_size = some (pos 99);
  closed = true;
  messages = disconnect ∷ [];
}

size_refused :
    mining_set_extranonce whole no_digest to_number to_integer
      (array (Values.cons (string (codes "0a0b")) (Values.cons (number 99) Values.nil)))
      0
      (new_pool whole no_digest 4 100)
    ≡ done false refused_pool
unfolding mining_set_extranonce check_array items set_extranonce1 has_no_length pair_at read_hex
    check_hex check_hex_text check_text at_least at_most all_hex from_hex hex_value is_hex bounded
    is_int32 parse_integer rounded read_size second set_size refuse close new_pool
size_refused = refl
