-- ===== src/Proxy/Disconnect.antt =====
-- `workerDisconnect` and `poolDisconnect` keep the proxy consistent.
use perfect_miner.Prelude.{
  ℕ, suc, ◌+◌, ◌-◌, ◌≡◌, refl, Option, none, some, List, [], ◌∷◌, arith, count, count-append, bit,
  ◌==◌, if◌then◌else◌, inl, inr, Option-cases,
}
use perfect_miner.Prelude.KeyMap.{
  KeyMap, lookup, insert, remove, has, Above, lookup-insert, lookup-remove, Each, insert-Each,
  remove-Each, Owns, lookup_below, remove_absent,
}
use perfect_miner.Proxy.{
  WrapperWorker, WrapperPool, Proxy, del_worker, clear, remove_first, leave_pool, forget,
  pool_disconnect, released, release,
}
use perfect_miner.Proxy.Invariant.{
  members, IsValidPool, IsConsistent, del_worker-IsValidPool, lookup-set_pool, placed_in,
}

pub count-remove_first :
    (id j : ℕ) (xs : List ℕ) → count j (remove_first id xs) ≡ count j xs - bit (j == id)
unfolding remove_first
count-remove_first id j [] = ground arith
count-remove_first id j (x ∷ xs) = ground (arith, count-remove_first id j xs)

pub workers-leave_pool :
    (id : ℕ) (pool : Option ℕ) (p : Proxy)
    → ((leave_pool id pool p).workers ≡ p.workers)
      × ((leave_pool id pool p).free_workers ≡ p.free_workers)
unfolding leave_pool
workers-leave_pool id pool p = ground arith

-- The member table of every pool after a worker has left its own.
pub members-leave_pool :
    (id : ℕ) (pool : Option ℕ) (p : Proxy) (q j : ℕ)
    → lookup j (members q (leave_pool id pool p).pools) ≡ (
        if (j == id)
        then elim pool [
          | none ↦ lookup j (members q p.pools)
          | some r ↦ if q == r then none else lookup j (members q p.pools)
        ]
        else lookup j (members q p.pools))
unfolding leave_pool
members-leave_pool id none p q j = ground arith
members-leave_pool id (some r) p q j = elim (Option-cases (lookup r p.pools)) [
  | inl e ↦ rw (e, leave_pool) (unfold lookup in ground arith)
  | inr (w, e) ↦
      rw (e, leave_pool)
        (unfold del_worker in
          ground (arith, lookup-insert r q (del_worker id w) p.pools, lookup-remove id j w.workers))
]

leave_pool-valid :
    (id : ℕ) (w : WrapperWorker) (p : Proxy)
    → IsConsistent p
    → lookup id p.workers ≡ some w
    → Each IsValidPool (leave_pool id w.pool p).pools
unfolding leave_pool
leave_pool-valid id w p v e = go w.pool refl
  where
    go : (o : Option ℕ) → w.pool ≡ o → Each IsValidPool (leave_pool id o p).pools
    go none h = v.valid
    go (some q) h = elim (Option-cases (lookup q p.pools)) [
      | inl absent ↦ rw (absent, leave_pool) v.valid
      | inr (u, found) ↦ elim (Option-cases (lookup id u.workers)) [
        | inl unlisted ↦ absurd (ground (arith, v.mining q id))
        | inr (j, listed) ↦
            rw (found, leave_pool)
              (insert-Each IsValidPool q (del_worker id u) p.pools
                (del_worker-IsValidPool id j u (v.valid q u found) listed) v.valid)
      ]
    ]

pub forget-IsConsistent :
    (id : ℕ) (w : WrapperWorker) (p : Proxy)
    → IsConsistent p
    → lookup id p.workers ≡ some w
    → IsConsistent (forget id (leave_pool id w.pool p))
unfolding forget
forget-IsConsistent id w p v e = record {
  waiting = λ j. ground (
    arith,
    v.waiting j,
    workers-leave_pool id w.pool p,
    count-remove_first id j p.free_workers,
    lookup-remove id j p.workers,
  );
  mining = λ q j. ground (
    arith,
    v.mining q j,
    workers-leave_pool id w.pool p,
    members-leave_pool id w.pool p q j,
    lookup-remove id j p.workers,
  );
  valid = leave_pool-valid id w p v e;
}

-- What `release` has done to one worker, for a table of references.
pub workers-release :
    (q : ℕ) (lo : ℕ) (m : KeyMap ℕ) (p : Proxy) (j : ℕ)
    → Owns m
    → Above lo m
    → lookup j (release q m p).workers
      ≡ (if has j m then placed_in none (lookup j p.workers) else lookup j p.workers)
unfolding release lookup
workers-release q lo [] p j own up = refl
workers-release q lo ((i, id) ∷ m) p j own up = ground (
  arith,
  workers-release q (suc i) m (released q id p) j own.1 up.1,
  lookup-set_pool id j none p.workers,
  lookup_below (suc i) j m up.1,
)

pub free-release :
    (q : ℕ) (lo : ℕ) (m : KeyMap ℕ) (p : Proxy) (j : ℕ)
    → Owns m
    → Above lo m
    → count j (release q m p).free_workers ≡ count j p.free_workers + bit (has j m)
unfolding release lookup
free-release q lo [] p j own up = ground arith
free-release q lo ((i, id) ∷ m) p j own up = ground (
  arith,
  free-release q (suc i) m (released q id p) j own.1 up.1,
  count-append j p.free_workers (id ∷ []),
  lookup_below (suc i) j m up.1,
)

pub pools-release : (q : ℕ) (m : KeyMap ℕ) (p : Proxy) → (release q m p).pools ≡ p.pools
unfolding release
pools-release q [] p = refl
pools-release q ((i, id) ∷ m) p = pools-release q m (released q id p)

module _ (q : ℕ) (w : WrapperPool) (p : Proxy) (v : IsConsistent p)
    (found : lookup q p.pools ≡ some w) where
  freed : Proxy
  freed = release q w.workers p

  members-gone :
      (r j : ℕ)
      → lookup j (members r (remove q (insert q (clear w) freed.pools)))
        ≡ (if r == q then none else lookup j (members r p.pools))
  unfolding freed lookup
  members-gone r j = ground (
    arith,
    lookup-remove q r (insert q (clear w) p.pools),
    lookup-insert q r (clear w) p.pools,
    pools-release q w.workers p,
  )

  pub pool_disconnect-found : IsConsistent (pool_disconnect q p)
  unfolding pool_disconnect freed clear
  pool_disconnect-found =
      rw (found, pool_disconnect)
        (record {
          waiting = λ j. ground (
            arith,
            v.waiting j,
            v.mining q j,
            found,
            workers-release q 0 w.workers p j (v.valid q w found).own (v.valid q w found).sorted,
            free-release q 0 w.workers p j (v.valid q w found).own (v.valid q w found).sorted,
          );
          mining = λ r j. ground (
            arith,
            v.mining r j,
            v.mining q j,
            found,
            members-gone r j,
            workers-release q 0 w.workers p j (v.valid q w found).own (v.valid q w found).sorted,
          );
          valid = remove-Each IsValidPool q (insert q (clear w) freed.pools) (
              insert-Each IsValidPool q (clear w) freed.pools
                (record { counted = refl; bounded = omega arith; sorted = tt; own = tt })
                (rw pools-release v.valid));
        })

pub pool_disconnect-IsConsistent :
    (q : ℕ) (p : Proxy) → IsConsistent p → IsConsistent (pool_disconnect q p)
unfolding pool_disconnect
pool_disconnect-IsConsistent q p v = elim (Option-cases (lookup q p.pools)) [
  | inl absent ↦
      rw (absent, pool_disconnect)
        (rw (remove_absent q p.pools absent)
          (record { waiting = v.waiting; mining = v.mining; valid = v.valid }))
  | inr (w, found) ↦ pool_disconnect-found q w p v found
]
