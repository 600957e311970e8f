-- ===== src/Proxy/Tests.antt =====
-- Runs of the proxy on concrete histories, and the theorems at them.
use perfect_miner.Prelude.{◌≡◌, refl, [], ◌∷◌}
use perfect_miner.Prelude.KeyMap.{lookup, insert, keys, remove}
use perfect_miner.Proxy.{
  Proxy, init, pool_connect, worker_connect, set_pool, fill, fill_all, free_workers_to_pools,
  new_pool, add_worker, join, pool_add_worker,
}
use perfect_miner.Proxy.Invariant.{IsConsistent}
use perfect_miner.Proxy.Connect.{init-IsConsistent, worker_connect-IsConsistent}
use perfect_miner.Proxy.Signals.{
  Reach, start, next, worker_connected, pool_connected, handle, handle-IsConsistent,
  Reach-IsConsistent, Ends,
}
use perfect_miner.Proxy.Saturation.{IsSaturated, connect-IsSaturated}

-- A pool with room for two workers, and three workers.
abbrev crowd : Proxy
crowd = worker_connect 4 (worker_connect 3 (worker_connect 2 (pool_connect 1 (init 2))))

crowd_waits : crowd.free_workers ≡ 4 ∷ []
unfolding init pool_connect worker_connect free_workers_to_pools fill_all fill join add_worker
    set_pool new_pool lookup insert keys remove
crowd_waits = refl

crowd_events : crowd.events ≡ pool_add_worker 1 2 ∷ pool_add_worker 1 3 ∷ []
unfolding init pool_connect worker_connect free_workers_to_pools fill_all fill join add_worker
    set_pool new_pool lookup insert keys remove
crowd_events = refl

abbrev one_worker : Proxy
one_worker = worker_connect 2 (init 2)

one_worker-Reach : Reach 2 one_worker
unfolding handle init lookup
one_worker-Reach = next (worker_connected 2) start refl refl

handle-IsConsistent_example : Ends IsConsistent (handle (pool_connected 1) one_worker)
unfolding init lookup worker_connect free_workers_to_pools fill_all keys
handle-IsConsistent_example =
    handle-IsConsistent (pool_connected 1) one_worker
      (worker_connect-IsConsistent 2 (init 2) (init-IsConsistent 2) refl) refl

Reach-IsConsistent_example : IsConsistent one_worker
Reach-IsConsistent_example = Reach-IsConsistent 2 one_worker-Reach

connect-IsSaturated_example :
    IsSaturated (worker_connect 4 one_worker) × IsSaturated (pool_connect 4 one_worker)
connect-IsSaturated_example = connect-IsSaturated 4 one_worker
