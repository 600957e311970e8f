-- ===== src/WebStat/Jobs.antt =====
-- `Jobs` of ControlServer/WebStat/Jobs.js: the jobs that pools have given, with their shares. `D`
-- holds the fields that are copied from the client's job (its name, difficulties and height) and the
-- constant nonce. What is written to the archive is a list; what is sent to browsers is left out. The
-- clock is taken not to go back.
use perfect_miner.Prelude.{ℕ, ◌+◌, ◌-◌, Bool, true, false, Option, none, some, List, [], ◌∷◌, ◌++◌}
use perfect_miner.Prelude.KeyMap.{KeyMap, lookup, insert, remove}

pub data EndMessage : Type 0 where
  pool_disconnect_message switch_job : EndMessage

pub record JobInfo (D : Type 0) : Type 0 where
  pub id : ℕ
  pub pool_id : ℕ
  pub copied : D
  pub accepted_share_count : ℕ
  pub rejected_share_count : ℕ
  pub time_in_work : ℕ
  pub time_start : ℕ
  pub time_end : Option ℕ
  pub alive : Bool
  pub worker_count : ℕ
  pub end_message : Option EndMessage

pub record Jobs (D : Type 0) : Type 0 where
  pub jobs : KeyMap (JobInfo D)
  pub pools_jobs : KeyMap ℕ
  pub pools_worker_count : KeyMap ℕ
  pub archive : List (JobInfo D)

module _ {D : Type 0} where
  unfoldable pub new_jobs : Jobs D
  new_jobs = record { jobs = []; pools_jobs = []; pools_worker_count = []; archive = [] }

  unfoldable pub worker_count_of : ℕ → Jobs D → ℕ
  worker_count_of pool_id s = elim (lookup pool_id s.pools_worker_count) [ none ↦ 0 | some n ↦ n ]

  unfoldable pub pool_add_worker : ℕ → Jobs D → Jobs D
  pool_add_worker pool_id s = record s {
    pools_worker_count = insert pool_id (worker_count_of pool_id s + 1) s.pools_worker_count;
  }

  -- A count of 0 is left alone.
  unfoldable pub pool_del_worker : ℕ → Jobs D → Jobs D
  pool_del_worker pool_id s = elim (lookup pool_id s.pools_worker_count) [
    | none ↦ s
    | some n ↦ record s { pools_worker_count = insert pool_id (n - 1) s.pools_worker_count }
  ]

  unfoldable pub finish : ℕ → EndMessage → JobInfo D → JobInfo D
  finish now msg j = record j {
    alive = false;
    time_end = some now;
    time_in_work = now - j.time_start;
    end_message = some msg;
  }

  -- `_endJob`, of the job under this id, if there is one.
  unfoldable pub end_job : ℕ → EndMessage → Option ℕ → Jobs D → Jobs D
  end_job now msg none s = s
  end_job now msg (some id) s = elim (lookup id s.jobs) [
    | none ↦ s
    | some j ↦ record s { archive = s.archive ++ finish now msg j ∷ []; jobs = remove id s.jobs }
  ]

  unfoldable pub pool_disconnect : ℕ → ℕ → Jobs D → Jobs D
  pool_disconnect now pool_id s =
      end_job now pool_disconnect_message (lookup pool_id s.pools_jobs) s

  unfoldable pub opened : ℕ → ℕ → ℕ → D → Jobs D → JobInfo D
  opened now pool_id id copied s = record {
    id = id;
    pool_id = pool_id;
    copied = copied;
    accepted_share_count = 0;
    rejected_share_count = 0;
    time_in_work = 0;
    time_start = now;
    time_end = none;
    alive = true;
    worker_count = worker_count_of pool_id s;
    end_message = none;
  }

  unfoldable pub start_job : ℕ → ℕ → ℕ → D → Jobs D → Jobs D
  start_job now pool_id id copied s = record s {
    pools_jobs = insert pool_id id s.pools_jobs;
    jobs = insert id (opened now pool_id id copied s) s.jobs;
  }

  unfoldable pub accepted_job : ℕ → ℕ → ℕ → D → Jobs D → Jobs D
  accepted_job now pool_id id copied s =
      start_job now pool_id id copied (end_job now switch_job (lookup pool_id s.pools_jobs) s)

  unfoldable pub accepted_share : ℕ → Jobs D → Jobs D
  accepted_share id s = elim (lookup id s.jobs) [
    | none ↦ s
    | some j ↦ record s {
      jobs = insert id (record j { accepted_share_count = j.accepted_share_count + 1 }) s.jobs;
    }
  ]

  unfoldable pub rejected_share : ℕ → Jobs D → Jobs D
  rejected_share id s = elim (lookup id s.jobs) [
    | none ↦ s
    | some j ↦ record s {
      jobs = insert id (record j { rejected_share_count = j.rejected_share_count + 1 }) s.jobs;
    }
  ]
