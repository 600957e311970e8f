-- ===== src/WebStat/Workers/Told.antt =====
-- What ControlServer/WebStat/Workers.js sends to the browsers. A message is a JSON value: null and
-- undefined arrive as none. Which sockets `webEmit` reaches with a message is WebStat/Base.
use perfect_miner.Prelude.{ℕ, Option, none, some, List, [], ◌∷◌, ◌==◌, if◌then◌else◌}
use perfect_miner.Prelude.Text.{Text}
use perfect_miner.Prelude.Floats.{Floats}
use perfect_miner.Prelude.KeyMap.{KeyMap, lookup}
use perfect_miner.WebStat.Workers.{
  Row, Workers, Event, connected, disconnected, named, told_info, app_closed, share_accepted,
  share_rejected, pool_added, pool_deleted, timer, new_row, archived, add_accepted, add_rejected,
}

pub data Cell (F : Type 0) : Type 0 where
  count : ℕ → Cell F
  double : F → Cell F
  text : Text → Cell F

abbrev pub Value : Type 0 → Type 0
Value F = Option (Cell F)

pub data Message (F : Type 0) : Type 0 where
  workers : List (Row F) → Message F
  worker_info_mini workers_info_mini_v2 : List (Value F) → Message F

-- The object that `_workerUpdateMini` takes.
pub record Changes (F : Type 0) : Type 0 where
  pub difficulty : Value F
  pub job_count : Value F
  pub accepted_share_count : Value F
  pub rejected_share_count : Value F
  pub hash_count : Value F
  pub share_count : Value F
  pub hashrate : Value F
  pub pool_id : Value F
  pub hash_rate : Value F
  pub name : Value F

module _ (fl : Floats) where
  open fl use {F}

  abbrev pub nothing : Changes F
  nothing = record {
    difficulty = none;
    job_count = none;
    accepted_share_count = none;
    rejected_share_count = none;
    hash_count = none;
    share_count = none;
    hashrate = none;
    pool_id = none;
    hash_rate = none;
    name = none;
  }

  unfoldable pub worker_update_mini : ℕ → Changes F → List (Message F)
  worker_update_mini id c =
      worker_info_mini (
        some (count id)
        ∷ c.difficulty
        ∷ c.job_count
        ∷ c.accepted_share_count
        ∷ c.rejected_share_count
        ∷ c.hash_count
        ∷ c.share_count
        ∷ c.hashrate
        ∷ c.pool_id
        ∷ c.hash_rate
        ∷ c.name
        ∷ [])
      ∷ []

  -- `workersUpdateMini_v2`, in which each worker has four places.
  unfoldable pub flat : List (ℕ × F × F × Option F) → List (Value F)
  flat [] = []
  flat ((id, h, s, none) ∷ q) = some (count id) ∷ some (double h) ∷ some (double s) ∷ none ∷ flat q
  flat ((id, h, s, some r) ∷ q) =
      some (count id) ∷ some (double h) ∷ some (double s) ∷ some (double r) ∷ flat q

  unfoldable pub told_of : ℕ → (Row F → List (Message F)) → Workers F → List (Message F)
  told_of id tell w = elim (lookup id w.workers) [ none ↦ [] | some row ↦ tell row ]

  -- What a handler sends in the state that it begins with.
  unfoldable pub messages : Event F → Workers F → List (Message F)
  messages (connected id r) w = workers (new_row fl id r ∷ []) ∷ []
  messages (disconnected id msg cut) w =
      told_of id (λ row. workers (archived fl msg row ∷ []) ∷ []) w
  messages (named id name) w =
      told_of id (λ row. worker_update_mini id (record nothing { name = some (text name) })) w
  messages (told_info id k) w = []
  messages (app_closed id) w = []
  messages (share_accepted id) w =
      if id == 0
      then []
      else told_of id
          (λ row. worker_update_mini id (record nothing {
            accepted_share_count = some (count (add_accepted fl row).accepted_share_count);
          }))
          w
  messages (share_rejected id) w =
      if id == 0
      then []
      else told_of id
          (λ row. worker_update_mini id (record nothing {
            rejected_share_count = some (count (add_rejected fl row).rejected_share_count);
          }))
          w
  messages (pool_added pool_id id) w =
      told_of id (λ row. worker_update_mini id (record nothing { pool_id = some (count pool_id) }))
        w
  messages (pool_deleted id) w =
      told_of id (λ row. worker_update_mini id (record nothing { pool_id = some (count 0) })) w
  messages timer w = workers_info_mini_v2 (flat w.update_mini) ∷ []

  unfoldable pub values : KeyMap (Row F) → List (Row F)
  values [] = []
  values ((id, row) ∷ m) = row ∷ values m

  -- What a browser that connects is sent: the records that are left in the archive, and the table.
  unfoldable pub greeting : List (Row F) → Workers F → List (Message F)
  greeting archive w = workers archive ∷ workers (values w.workers) ∷ []
