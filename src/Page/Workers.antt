-- ===== src/Page/Workers.antt =====
-- web/public/app/Workers.js: the page with the table of the workers. What its cells look like (the
-- view) is a parameter; the times of the rows are left out.
pub mod Pending
pub mod Mirror
pub mod Changes
pub mod Rows
pub mod History
mod Tests
use mathlib.Core.Option
use perfect_miner.Prelude.{ℕ, Option, none, some, Bool, List, [], ◌∷◌, get_or, map}
use perfect_miner.Prelude.Text.{Text}
use perfect_miner.Prelude.Floats.{Floats}
use perfect_miner.Page.Table.{DataTable, Table, list_process, update}
use perfect_miner.WebStat.Workers.{Row}
use perfect_miner.WebStat.Workers.Told.{
  Cell, Value, count, double, text, Message, workers, worker_info_mini, workers_info_mini_v2,
}

-- The object of a worker in the browser; its fields hold whatever was sent.
pub record Info (F : Type 0) : Type 0 where
  pub id : ℕ
  pub name : Value F
  pub pool_id : Value F
  pub difficulty : Value F
  pub job_count : Value F
  pub accepted_share_count : Value F
  pub rejected_share_count : Value F
  pub hash_count : Value F
  pub share_count : Value F
  pub hashrate : Value F
  pub hash_rate : Value F
  pub disconnection_error : Text
  pub alive : Bool

module _ (fl : Floats) where
  open fl use {F}

  -- A row of the server's table as it arrives; it has no difficulty, and its `hashrate` is `{}`.
  abbrev pub arrived : Row F → Info F
  arrived row = record {
    id = row.id;
    name = some (text row.name);
    pool_id = some (count row.pool_id);
    difficulty = none;
    job_count = some (count row.job_count);
    accepted_share_count = some (count row.accepted_share_count);
    rejected_share_count = some (count row.rejected_share_count);
    hash_count = some (double row.hash_count);
    share_count = some (double row.share_count);
    hashrate = none;
    hash_rate = Option.map double row.hash_rate;
    disconnection_error = row.disconnection_error;
    alive = row.alive;
  }

  -- `if ( data[i] == null ) { continue; }`
  abbrev pub pick : List (Value F) → ℕ → Value F → Value F
  pick msg i old = elim (get_or msg i none) [ none ↦ old | some c ↦ some c ]

  -- The loop over `map`, from places of the message to fields.
  unfoldable pub set_fields : List (Value F) → Info F → Info F
  set_fields msg info = record info {
    difficulty = pick msg 1 info.difficulty;
    job_count = pick msg 2 info.job_count;
    accepted_share_count = pick msg 3 info.accepted_share_count;
    rejected_share_count = pick msg 4 info.rejected_share_count;
    hash_count = pick msg 5 info.hash_count;
    share_count = pick msg 6 info.share_count;
    hashrate = pick msg 7 info.hashrate;
    pool_id = pick msg 8 info.pool_id;
    hash_rate = pick msg 9 info.hash_rate;
    name = pick msg 10 info.name;
  }

  unfoldable pub set_counts : Value F → Value F → Value F → Info F → Info F
  set_counts hash_count share_count hash_rate info = record info {
    hash_count = hash_count;
    share_count = share_count;
    hash_rate = hash_rate;
  }

  module _ {H : Type 0} (dt : DataTable H) (view : Info F → H) where
    abbrev pub Page : Type 0
    Page = Table dt view

    unfoldable pub update_mini : List (Value F) → Page → Page
    update_mini msg t = elim (get_or msg 0 none) [
      | some (count id) ↦ update dt view id (set_fields msg) t
      | _ ↦ t
    ]

    -- `for(var i = 0; i < workersArrayInfo.length; i += 4)`
    unfoldable pub update_mini_v2 : List (Value F) → Page → Page
    update_mini_v2 (some (count id) ∷ hash_count ∷ share_count ∷ hash_rate ∷ more) t =
        update_mini_v2 more (update dt view id (set_counts hash_count share_count hash_rate) t)
    update_mini_v2 _ t = t

    abbrev pub keyed : List (Row F) → List (ℕ × Info F)
    keyed = map (λ row. (row.id, arrived row))

    unfoldable pub receive : Message F → Page → Page
    receive (workers rows) t = list_process dt view (keyed rows) t
    receive (worker_info_mini msg) t = update_mini msg t
    receive (workers_info_mini_v2 msg) t = update_mini_v2 msg t

    unfoldable pub receive_all : List (Message F) → Page → Page
    receive_all [] t = t
    receive_all (m ∷ ms) t = receive_all ms (receive m t)
