-- ===== src/Workers.antt =====
-- `WorkersServerClient` of ControlServer/WorkersServer.js (under src/apps/Control/app): the counters
-- that the server keeps of a connected miner, whose own counters start again with each run.
-- Counts are whole numbers below 2^53, where doubles are exact.
pub mod Counters
mod Tests
use perfect_miner.Prelude.{ℕ, ◌+◌, List, [], ◌∷◌, leb, if◌then◌else◌}

-- The report `app:info`.
pub record Info : Type 0 where
  pub hash_count : ℕ
  pub share_count : ℕ
  pub hash_rate : ℕ

pub record Worker : Type 0 where
  pub hash_count : ℕ
  pub share_count : ℕ
  pub hash_rate : ℕ
  pub job_count : ℕ
  pub prev_hash_count : ℕ
  pub hash_count_delta : ℕ
  pub share_count_delta : ℕ

unfoldable pub new_worker : Worker
new_worker = record {
  hash_count = 0;
  share_count = 0;
  hash_rate = 0;
  job_count = 0;
  prev_hash_count = 0;
  hash_count_delta = 0;
  share_count_delta = 0;
}

-- What earlier runs have counted is kept when the miner's counter does not rise.
unfoldable pub rebase : Info → Worker → Worker
rebase i w =
    if leb i.hash_count w.prev_hash_count
    then record w { hash_count_delta = w.hash_count; share_count_delta = w.share_count }
    else w

unfoldable pub count_info : Info → Worker → Worker
count_info i w = record w {
  prev_hash_count = i.hash_count;
  hash_count = w.hash_count_delta + i.hash_count;
  share_count = w.share_count_delta + i.share_count;
  hash_rate = i.hash_rate;
}

unfoldable pub app_info : Info → Worker → Worker
app_info i w = count_info i (rebase i w)

unfoldable pub app_close : Worker → Worker
app_close w = record w { hash_rate = 0 }

unfoldable pub set_job : Worker → Worker
set_job w = record w { job_count = w.job_count + 1 }

-- The messages that bear on the counters, in the order in which they come.
pub data Message : Type 0 where
  info : Info → Message
  job_sent closed : Message

unfoldable pub on_message : Message → Worker → Worker
on_message (info i) w = app_info i w
on_message job_sent w = set_job w
on_message closed w = app_close w

unfoldable pub on_messages : List Message → Worker → Worker
on_messages [] w = w
on_messages (m ∷ ms) w = on_messages ms (on_message m w)
