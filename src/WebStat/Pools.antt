-- ===== src/WebStat/Pools.antt =====
-- `Pools` of ControlServer/WebStat/Pools.js: the pools that are connected, with their counts. `C`
-- holds what is copied from a client when it connects (its addresses), `F` is the type of the
-- difficulties and `R` that of the hash rates. What is written to the archive is a list; what is sent
-- to browsers is left out. The clock is taken not to go back.
use perfect_miner.Prelude.{ℕ, ◌-◌, Bool, true, false, Option, none, some, List, [], ◌∷◌, ◌++◌}
use perfect_miner.Prelude.Int.{ℤ, pos, negsuc, ◌+ℤ◌}
use perfect_miner.Prelude.Text.{Text}
use perfect_miner.Prelude.KeyMap.{KeyMap, lookup, insert, remove}

-- What the handlers read of a client.
pub record OrigPool (C F R : Type 0) : Type 0 where
  pub orig_id : ℕ
  pub orig_copied : C
  pub orig_difficulty : F
  pub orig_difficulty_real : F
  pub orig_job_count : ℕ
  pub orig_accepted : ℕ
  pub orig_rejected : ℕ
  pub orig_shares : ℕ
  pub orig_hashes : F
  pub orig_hashrate : R
  pub orig_ping : Option ℕ

pub record PoolInfo (C F R : Type 0) : Type 0 where
  pub id : ℕ
  pub copied : C
  pub time_in_work : ℕ
  pub connection_time : ℕ
  pub disconnection_time : Option ℕ
  pub difficulty : F
  pub difficulty_real : F
  pub worker_count : ℤ
  pub job_count : ℕ
  pub accepted_share_count : ℕ
  pub rejected_share_count : ℕ
  pub hash_count : F
  pub share_count : ℕ
  pub hashrate : R
  pub disconnection_error : Option Text
  pub ping : Option ℕ
  pub alive : Bool

pub record Pools (C F R : Type 0) : Type 0 where
  pub pools : KeyMap (PoolInfo C F R)
  pub archive : List (PoolInfo C F R)

-- The events that the table listens to.
pub data Event (C F R : Type 0) : Type 0 where
  connected : ℕ → F → OrigPool C F R → Event C F R
  disconnected : ℕ → Option Text → ℕ → Event C F R
  pinged : Option ℕ → ℕ → Event C F R
  share_answered job_accepted : OrigPool C F R → Event C F R
  worker_added worker_removed : ℕ → Event C F R

module _ {C F R : Type 0} where
  unfoldable pub new_pools : Pools C F R
  new_pools = record { pools = []; archive = [] }

  unfoldable pub opened_pool : ℕ → F → OrigPool C F R → PoolInfo C F R
  opened_pool now zero_hashes o = record {
    id = o.orig_id;
    copied = o.orig_copied;
    time_in_work = 0;
    connection_time = now;
    disconnection_time = none;
    difficulty = o.orig_difficulty;
    difficulty_real = o.orig_difficulty_real;
    worker_count = pos 0;
    job_count = 0;
    accepted_share_count = 0;
    rejected_share_count = 0;
    hash_count = zero_hashes;
    share_count = 0;
    hashrate = o.orig_hashrate;
    disconnection_error = none;
    ping = o.orig_ping;
    alive = true;
  }

  unfoldable pub pool_connect : ℕ → F → OrigPool C F R → Pools C F R → Pools C F R
  pool_connect now zero_hashes o s = record s {
    pools = insert o.orig_id (opened_pool now zero_hashes o) s.pools;
  }

  unfoldable pub closed_pool : ℕ → Option Text → PoolInfo C F R → PoolInfo C F R
  closed_pool now msg p = record p {
    disconnection_time = some now;
    time_in_work = now - p.connection_time;
    disconnection_error = msg;
    alive = false;
  }

  unfoldable pub pool_disconnect : ℕ → Option Text → ℕ → Pools C F R → Pools C F R
  pool_disconnect now msg id s = elim (lookup id s.pools) [
    | none ↦ s
    | some p ↦ record s {
      archive = s.archive ++ closed_pool now msg p ∷ [];
      pools = remove p.id s.pools;
    }
  ]

  -- The other handlers change the pool under its id, if it is there.
  unfoldable pub change : (PoolInfo C F R → PoolInfo C F R) → ℕ → Pools C F R → Pools C F R
  change f id s = elim (lookup id s.pools) [
    | none ↦ s
    | some p ↦ record s { pools = insert id (f p) s.pools }
  ]

  unfoldable pub with_ping : Option ℕ → PoolInfo C F R → PoolInfo C F R
  with_ping ping p = record p { ping = ping }

  unfoldable pub with_shares : OrigPool C F R → PoolInfo C F R → PoolInfo C F R
  with_shares o p = record p {
    accepted_share_count = o.orig_accepted;
    rejected_share_count = o.orig_rejected;
    share_count = o.orig_shares;
    hash_count = o.orig_hashes;
    ping = o.orig_ping;
    hashrate = o.orig_hashrate;
  }

  unfoldable pub with_job : OrigPool C F R → PoolInfo C F R → PoolInfo C F R
  with_job o p = record p {
    job_count = o.orig_job_count;
    difficulty = o.orig_difficulty;
    difficulty_real = o.orig_difficulty_real;
    hashrate = o.orig_hashrate;
  }

  unfoldable pub with_worker : ℤ → PoolInfo C F R → PoolInfo C F R
  with_worker step p = record p { worker_count = p.worker_count +ℤ step }

  unfoldable pub on_event : Event C F R → Pools C F R → Pools C F R
  on_event (connected now zero_hashes o) s = pool_connect now zero_hashes o s
  on_event (disconnected now msg id) s = pool_disconnect now msg id s
  on_event (pinged ping id) s = change (with_ping ping) id s
  on_event (share_answered o) s = change (with_shares o) o.orig_id s
  on_event (job_accepted o) s = change (with_job o) o.orig_id s
  on_event (worker_added id) s = change (with_worker (pos 1)) id s
  on_event (worker_removed id) s = change (with_worker (negsuc 0)) id s
