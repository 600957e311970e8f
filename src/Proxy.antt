-- ===== src/Proxy.antt =====
-- ControlServer/StratumProxy.js (under src/apps/Control/app): which worker mines for which pool.
-- A `WrapperWorker` and a `WrapperPool` are objects with a global id, so a reference to one is its
-- id: `workers` and `pools` hold the objects, and the free list, the member table of a pool and the
-- `pool` field of a worker hold ids. An operation returns the proxy and the events that it emits;
-- the listeners of these events (WebStat) do not call back into the proxy.
pub mod Invariant
pub mod Connect
pub mod Disconnect
pub mod Signals
pub mod Saturation
pub mod Traffic
mod Tests
use perfect_miner.Prelude.{
  ℕ, ◌+◌, ◌-◌, ◌/◌, ◌&&◌, Option, none, some, List, [], ◌∷◌, ◌++◌, length, leb, ◌==◌, if◌then◌else◌,
}
use perfect_miner.Prelude.Text.{Text}
use perfect_miner.Prelude.KeyMap.{KeyMap, lookup, insert, remove, keys}

pub record WrapperWorker : Type 0 where
  pub id : ℕ
  pub pool : Option ℕ

pub record WrapperPool : Type 0 where
  pub id : ℕ
  pub max_workers_count : ℕ
  pub workers_count : ℕ
  pub workers : KeyMap ℕ
  pub job_id : Option Text

pub data Event : Type 0 where
  pool_add_worker : ℕ → ℕ → Event
  pool_del_worker : ℕ → ℕ → Event

pub record Proxy : Type 0 where
  pub max_workers_count : ℕ
  pub pools : KeyMap WrapperPool
  pub workers : KeyMap WrapperWorker
  pub open_no_connect_pools : KeyMap ℕ
  pub free_workers : List ℕ
  pub events : List Event

pub init : ℕ → Proxy
init n = record {
  max_workers_count = n;
  pools = [];
  workers = [];
  open_no_connect_pools = [];
  free_workers = [];
  events = [];
}

abbrev pub emit : Event → Proxy → Proxy
emit e p = record p { events = p.events ++ e ∷ [] }

-- `WrapperPool`: `none` is the refusal of a full pool.
pub new_pool : ℕ → ℕ → WrapperPool
new_pool id n = record {
  id = id;
  max_workers_count = n;
  workers_count = 0;
  workers = [];
  job_id = none;
}

pub add_worker : ℕ → WrapperPool → Option WrapperPool
add_worker id w =
    if leb w.max_workers_count w.workers_count
    then none
    else some (record w { workers = insert id id w.workers; workers_count = w.workers_count + 1 })

pub del_worker : ℕ → WrapperPool → WrapperPool
del_worker id w = record w { workers = remove id w.workers; workers_count = w.workers_count - 1 }

pub clear : WrapperPool → WrapperPool
clear w = record w { workers = []; workers_count = 0 }

-- `wrapperWorker.pool = …` on the object with this id.
pub set_pool : ℕ → Option ℕ → KeyMap WrapperWorker → KeyMap WrapperWorker
set_pool id pool ws = elim (lookup id ws) [
  | none ↦ ws
  | some w ↦ insert id (record w { pool = pool }) ws
]

-- What one worker of the inner loop of `freeWorkersToPools` does once the pool has taken it.
pub join : ℕ → ℕ → WrapperPool → Proxy → Proxy
join pool_id id w p =
    emit (pool_add_worker pool_id id) (record p {
      pools = insert pool_id w p.pools;
      workers = set_pool id (some pool_id) p.workers;
    })

-- The inner loop, over the workers that are still free. The `splice` after the loop is made one
-- worker at a time: nothing in the loop reads the part of the list that it cuts off.
pub fill : ℕ → List ℕ → Proxy → Proxy
fill pool_id [] p = record p { free_workers = [] }
fill pool_id (id ∷ rest) p = elim (lookup pool_id p.pools) [
  | none ↦ record p { free_workers = id ∷ rest }
  | some w ↦ elim (add_worker id w) [
    | none ↦ record p { free_workers = id ∷ rest }
    | some w' ↦ fill pool_id rest (join pool_id id w' p)
  ]
]

-- The outer loop, over the keys of `pools` (which the loop does not change).
pub fill_all : List ℕ → Proxy → Proxy
fill_all [] p = p
fill_all (pool_id ∷ rest) p = fill_all rest (fill pool_id p.free_workers p)

pub free_workers_to_pools : Proxy → Proxy
free_workers_to_pools p = fill_all (keys p.pools) p

pub worker_connect : ℕ → Proxy → Proxy
worker_connect id p = free_workers_to_pools (record p {
  workers = insert id (record { id = id; pool = none }) p.workers;
  free_workers = p.free_workers ++ id ∷ [];
})

-- `for … if ( … ) { splice(i, 1); break; }`
pub remove_first : ℕ → List ℕ → List ℕ
remove_first id [] = []
remove_first id (x ∷ xs) = if x == id then xs else x ∷ remove_first id xs

pub leave_pool : ℕ → Option ℕ → Proxy → Proxy
leave_pool id none p = p
leave_pool id (some pool_id) p = elim (lookup pool_id p.pools) [
  | none ↦ p
  | some w ↦
      emit (pool_del_worker pool_id id)
        (record p { pools = insert pool_id (del_worker id w) p.pools })
]

-- `wrapperWorker.id` is read for every free worker, also where the worker is unknown: a TypeError.
pub data Outcome : Type 0 where
  done : Proxy → Outcome
  type_error : Outcome

pub forget : ℕ → Proxy → Proxy
forget id p = record p {
  free_workers = remove_first id p.free_workers;
  workers = remove id p.workers;
}

pub disconnect_unknown : ℕ → Proxy → List ℕ → Outcome
disconnect_unknown id p [] = done (record p { workers = remove id p.workers })
disconnect_unknown id p (x ∷ xs) = type_error

pub worker_disconnect : ℕ → Proxy → Outcome
worker_disconnect id p = elim (lookup id p.workers) [
  | none ↦ disconnect_unknown id p p.free_workers
  | some w ↦ done (forget id (leave_pool id w.pool p))
]

pub pool_open : ℕ → Proxy → Proxy
pool_open id p = record p { open_no_connect_pools = insert id id p.open_no_connect_pools }

pub pool_close : ℕ → Proxy → Proxy
pool_close id p = record p { open_no_connect_pools = remove id p.open_no_connect_pools }

pub pool_connect : ℕ → Proxy → Proxy
pool_connect id p = free_workers_to_pools (record p {
  open_no_connect_pools = remove id p.open_no_connect_pools;
  pools = insert id (new_pool id p.max_workers_count) p.pools;
})

-- One round of the loop of `poolDisconnect`.
pub released : ℕ → ℕ → Proxy → Proxy
released pool_id id p =
    emit (pool_del_worker pool_id id)
      (record p { workers = set_pool id none p.workers; free_workers = p.free_workers ++ id ∷ [] })

-- The loop, over the members of the pool.
pub release : ℕ → KeyMap ℕ → Proxy → Proxy
unfolding released
release pool_id [] p = p
release pool_id ((i, id) ∷ rest) p = release pool_id rest (released pool_id id p)

-- `clear` empties the wrapper, which `delete` then drops from the table.
pub pool_disconnect : ℕ → Proxy → Proxy
pool_disconnect id p = elim (lookup id p.pools) [
  | none ↦ record p { pools = remove id p.pools }
  | some w ↦
      let p' = release id w.workers p in
      record p' { pools = remove id (insert id (clear w) p'.pools) }
]

-- How many connections `addPoolAuto` starts: `poolCount` may fall below 0, and then starts none.
-- Math.ceil(free / max), for a positive max.
unfoldable pub wanted_pools : ℕ → ℕ → ℕ
wanted_pools free n = (free + (n - 1)) / n

unfoldable pub pools_to_start : Proxy → ℕ
pools_to_start p =
    let wanted = wanted_pools (length p.free_workers) p.max_workers_count in
    let started = length p.open_no_connect_pools in
    if (length p.pools == 0) && (started == 0) && (wanted == started) then 1 else wanted - started
