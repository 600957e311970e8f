-- ===== src/WebStat/Workers.antt =====
-- `Workers` of ControlServer/WebStat/Workers.js: the table of the workers that browsers show, and the
-- archive of those that are gone, of which the oldest records are dropped when its text is too long
-- (how many, depends on the JSON texts, and is an argument of the event). What `WorkersServerClient` counts is an argument. The times of the
-- rows and the events that nothing emits (`accepted_job`, `virtual_share`) are left out.
pub mod Sums
pub mod Told
pub mod Totals
mod Tests
use perfect_miner.Prelude.{
  ℕ, ◌+◌, Bool, true, false, Option, none, some, List, [], ◌∷◌, ◌++◌, drop, ◌==◌, if◌then◌else◌,
}
use perfect_miner.Prelude.Text.{Text}
use perfect_miner.Prelude.Floats.{Floats}
use perfect_miner.Prelude.KeyMap.{KeyMap, lookup, insert, remove}

pub record Row (F : Type 0) : Type 0 where
  pub id : ℕ
  pub name : Text
  pub pool_id : ℕ
  pub job_count : ℕ
  pub accepted_share_count : ℕ
  pub rejected_share_count : ℕ
  pub hash_count : F
  pub share_count : F
  pub hash_rate : Option F
  pub disconnection_error : Text
  pub alive : Bool

-- What the server counts of a worker.
pub record Counts (F : Type 0) : Type 0 where
  pub hash_count : F
  pub share_count : F
  pub hash_rate : Option F
  pub job_count : ℕ

pub record Workers (F : Type 0) : Type 0 where
  pub workers : KeyMap (Row F)
  pub archive : List (Row F)
  pub update_mini : List (ℕ × F × F × Option F)

pub data Event (F : Type 0) : Type 0 where
  connected : ℕ → Option F → Event F
  disconnected : ℕ → Text → ℕ → Event F
  named : ℕ → Text → Event F
  told_info : ℕ → Counts F → Event F
  app_closed : ℕ → Event F
  share_accepted share_rejected : ℕ → Event F
  pool_added : ℕ → ℕ → Event F
  pool_deleted : ℕ → Event F
  timer : Event F

module _ (fl : Floats) where
  open fl use {F, of_ℕ, add}

  unfoldable pub new_row : ℕ → Option F → Row F
  new_row id hash_rate = record {
    id = id;
    name = [];
    pool_id = 0;
    job_count = 0;
    accepted_share_count = 0;
    rejected_share_count = 0;
    hash_count = of_ℕ 0;
    share_count = of_ℕ 0;
    hash_rate = hash_rate;
    disconnection_error = [];
    alive = true;
  }

  -- `let worker = this.workers[id]; if ( !worker ) { return; }`, and a change of it in place.
  unfoldable pub at_worker : ℕ → (Row F → Row F) → Workers F → Workers F
  at_worker id change w = elim (lookup id w.workers) [
    | none ↦ w
    | some row ↦ record w { workers = insert id (change row) w.workers }
  ]

  unfoldable pub archived : Text → Row F → Row F
  archived msg row = record row { disconnection_error = msg; alive = false }

  -- `PackArray.write` drops the front half of a text that has become too long, and with it the oldest
  -- records: so many that the argument tells.
  unfoldable pub worker_disconnect : ℕ → Text → ℕ → Workers F → Workers F
  worker_disconnect id msg cut w = elim (lookup id w.workers) [
    | none ↦ w
    | some row ↦ record w {
      workers = remove id w.workers;
      archive = drop cut (w.archive ++ archived msg row ∷ []);
    }
  ]

  unfoldable pub take_counts : Counts F → Row F → Row F
  take_counts k row = record row {
    hash_count = k.hash_count;
    share_count = k.share_count;
    hash_rate = k.hash_rate;
    job_count = k.job_count;
  }

  unfoldable pub worker_info : ℕ → Counts F → Workers F → Workers F
  worker_info id k w = elim (lookup id w.workers) [
    | none ↦ w
    | some row ↦ record w {
      workers = insert id (take_counts k row) w.workers;
      update_mini = w.update_mini ++ (id, k.hash_count, k.share_count, k.hash_rate) ∷ [];
    }
  ]

  -- A share without the id of a worker, or with 0, is of no worker.
  unfoldable pub count_share : (Row F → Row F) → ℕ → Workers F → Workers F
  count_share change id w = if id == 0 then w else at_worker id change w

  unfoldable pub add_accepted : Row F → Row F
  add_accepted row = record row { accepted_share_count = row.accepted_share_count + 1 }

  unfoldable pub add_rejected : Row F → Row F
  add_rejected row = record row { rejected_share_count = row.rejected_share_count + 1 }

  -- What the timer tells: the sum of the hash rates.
  unfoldable pub summary : KeyMap (Row F) → F
  summary [] = of_ℕ 0
  summary ((id, row) ∷ m) =
      let rest = summary m in elim row.hash_rate [ none ↦ rest | some r ↦ add r rest ]

  unfoldable pub on_event : Event F → Workers F → Workers F
  on_event (connected id r) w = record w { workers = insert id (new_row id r) w.workers }
  on_event (disconnected id msg cut) w = worker_disconnect id msg cut w
  on_event (named id name) w = at_worker id (λ row. record row { name = name }) w
  on_event (told_info id k) w = worker_info id k w
  on_event (app_closed id) w = at_worker id (λ row. record row { hash_rate = some (of_ℕ 0) }) w
  on_event (share_accepted id) w = count_share add_accepted id w
  on_event (share_rejected id) w = count_share add_rejected id w
  on_event (pool_added pool_id id) w = at_worker id (λ row. record row { pool_id = pool_id }) w
  on_event (pool_deleted id) w = at_worker id (λ row. record row { pool_id = 0 }) w
  on_event timer w = record w { update_mini = [] }
