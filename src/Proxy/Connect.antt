-- ===== src/Proxy/Connect.antt =====
-- `workerConnect` and `poolConnect` keep the proxy consistent.
use perfect_miner.Prelude.{ℕ, ◌≡◌, refl, none, [], ◌∷◌, arith, count-append}
use perfect_miner.Prelude.KeyMap.{lookup, lookup-insert, insert-Each}
use perfect_miner.Proxy.{Proxy, init, new_pool, worker_connect, pool_connect}
use perfect_miner.Proxy.Invariant.{IsValidPool, IsConsistent, free_workers_to_pools-IsConsistent}

pub init-IsConsistent : (n : ℕ) → IsConsistent (init n)
unfolding init lookup
init-IsConsistent n = record {
  waiting = λ id. refl;
  mining = λ q id. refl;
  valid = λ k v e. ground arith;
}

new_pool-IsValidPool : (id n : ℕ) → IsValidPool (new_pool id n)
unfolding new_pool lookup
new_pool-IsValidPool id n = record { counted = refl; bounded = omega arith; sorted = tt; own = tt }

pub worker_connect-IsConsistent :
    (id : ℕ) (p : Proxy)
    → IsConsistent p
    → lookup id p.workers ≡ none
    → IsConsistent (worker_connect id p)
unfolding worker_connect
worker_connect-IsConsistent id p v new = free_workers_to_pools-IsConsistent _ (record {
  waiting = λ j. ground (
    arith,
    v.waiting j,
    count-append j p.free_workers (id ∷ []),
    lookup-insert id j (record { id = id; pool = none }) p.workers,
  );
  mining = λ q j.
      ground (arith, v.mining q j, lookup-insert id j (record { id = id; pool = none }) p.workers);
  valid = v.valid;
})

pub pool_connect-IsConsistent :
    (id : ℕ) (p : Proxy)
    → IsConsistent p
    → lookup id p.pools ≡ none
    → IsConsistent (pool_connect id p)
unfolding pool_connect
pool_connect-IsConsistent id p v new = free_workers_to_pools-IsConsistent _ (record {
  waiting = v.waiting;
  mining = λ q j.
      unfold new_pool lookup in
      ground (arith, v.mining q j, lookup-insert id q (new_pool id p.max_workers_count) p.pools);
  valid =
      insert-Each IsValidPool id (new_pool id p.max_workers_count) p.pools
        (new_pool-IsValidPool id p.max_workers_count) v.valid;
})
