-- ===== src/Proxy/Invariant.antt =====
-- Where each connected worker of the proxy is: in the free list, or in one pool.
use perfect_miner.Prelude.{
  ℕ, ◌≤◌, ◌≡◌, Bool, true, false, Option, none, some, List, [], ◌∷◌, arith, length, count, bit,
  ◌==◌, if◌then◌else◌, inl, inr, Option-cases,
}
use perfect_miner.Prelude.KeyMap.{
  KeyMap, lookup, keys, has, Above, lookup-insert, insert-Above, remove-Above, length-insert_new,
  length-remove, Each, insert-Each, Owns, insert-Owns, remove-Owns,
}
use perfect_miner.Proxy.{
  WrapperWorker, WrapperPool, Proxy, add_worker, del_worker, set_pool, join, fill, fill_all,
  free_workers_to_pools,
}

abbrev pub is_free : Option WrapperWorker → Bool
is_free none = false
is_free (some w) = elim w.pool [ none ↦ true | some q ↦ false ]

abbrev pub is_in : ℕ → Option WrapperWorker → Bool
is_in pool_id none = false
is_in pool_id (some w) = elim w.pool [ none ↦ false | some q ↦ pool_id == q ]

abbrev pub workers_of : Option WrapperPool → KeyMap ℕ
workers_of none = []
workers_of (some w) = w.workers

-- The members of the pool with this id.
abbrev pub members : ℕ → KeyMap WrapperPool → KeyMap ℕ
members pool_id pools = workers_of (lookup pool_id pools)

pub record IsValidPool (w : WrapperPool) : Type 0 where
  pub counted : w.workers_count ≡ length w.workers
  pub bounded : w.workers_count ≤ w.max_workers_count
  pub sorted : Above 0 w.workers
  pub own : Owns w.workers

-- `free` is the free list: a loop holds it in a variable of its own.
pub record IsPlaced (free : List ℕ) (p : Proxy) : Type 0 where
  pub waiting : (id : ℕ) → count id free ≡ bit (is_free (lookup id p.workers))
  pub mining :
      (pool_id id : ℕ) → has id (members pool_id p.pools) ≡ is_in pool_id (lookup id p.workers)
  pub valid : Each IsValidPool p.pools

pub add_worker-IsValidPool :
    (id : ℕ) (w w' : WrapperPool)
    → IsValidPool w
    → lookup id w.workers ≡ none
    → add_worker id w ≡ some w'
    → IsValidPool w'
unfolding add_worker
add_worker-IsValidPool id w w' v new e = record {
  counted = ground (arith, length-insert_new id id w.workers);
  bounded = ground arith;
  sorted = ground (arith, insert-Above 0 id id w.workers v.sorted);
  own = ground (arith, insert-Owns id w.workers v.own);
}

pub del_worker-IsValidPool :
    (id j : ℕ) (w : WrapperPool)
    → IsValidPool w
    → lookup id w.workers ≡ some j
    → IsValidPool (del_worker id w)
unfolding del_worker
del_worker-IsValidPool id j w v e = record {
  counted = ground (arith, length-remove 0 id j w.workers v.sorted e);
  bounded = ground arith;
  sorted = remove-Above 0 id w.workers v.sorted;
  own = remove-Owns id w.workers v.own;
}

pub workers-add_worker :
    (id j : ℕ) (w w' : WrapperPool)
    → add_worker id w ≡ some w'
    → lookup j w'.workers ≡ (if j == id then some id else lookup j w.workers)
unfolding add_worker
workers-add_worker id j w w' e = ground (arith, lookup-insert id j id w.workers)

abbrev pub placed_in : Option ℕ → Option WrapperWorker → Option WrapperWorker
placed_in pool none = none
placed_in pool (some w) = some (record w { pool = pool })

pub lookup-set_pool :
    (id j : ℕ) (pool : Option ℕ) (ws : KeyMap WrapperWorker)
    → lookup j (set_pool id pool ws)
      ≡ (if j == id then placed_in pool (lookup j ws) else lookup j ws)
unfolding set_pool
lookup-set_pool id j pool ws = elim (Option-cases (lookup id ws)) [
  | inl e ↦ rw (e, set_pool) (ground arith)
  | inr (w, e) ↦ rw (e, set_pool) (ground (arith, lookup-insert id j (record w { pool = pool }) ws))
]

-- The first free worker is connected and in no pool.
free-waiting :
    (id : ℕ) (rest : List ℕ) (p : Proxy)
    → IsPlaced (id ∷ rest) p
    → (is_free (lookup id p.workers) ≡ true) × (count id rest ≡ 0)
free-waiting id rest p v = ground (arith, v.waiting id)

not-is_in : (pool_id : ℕ) (o : Option WrapperWorker) → is_free o ≡ true → is_in pool_id o ≡ false
not-is_in pool_id o h = ground arith

free-lookup :
    (pool_id id : ℕ) (rest : List ℕ) (p : Proxy)
    → IsPlaced (id ∷ rest) p
    → lookup id (members pool_id p.pools) ≡ none
free-lookup pool_id id rest p v = ground (
  arith,
  v.mining pool_id id,
  not-is_in pool_id (lookup id p.workers) (free-waiting id rest p v).0,
)

module _ (pool_id id : ℕ) (rest : List ℕ) (p : Proxy) (v : IsPlaced (id ∷ rest) p)
    (w w' : WrapperPool) (found : lookup pool_id p.pools ≡ some w)
    (taken : add_worker id w ≡ some w') where
  join-waiting : (j : ℕ) → count j rest ≡ bit (is_free (lookup j (join pool_id id w' p).workers))
  unfolding join
  join-waiting j =
      ground (
        arith,
        v.waiting j,
        lookup-set_pool id j (some pool_id) p.workers,
        free-waiting id rest p v,
      )

  join-mining :
      (q j : ℕ)
      → has j (members q (join pool_id id w' p).pools)
        ≡ is_in q (lookup j (join pool_id id w' p).workers)
  unfolding join
  join-mining q j = ground (
    arith,
    v.mining q j,
    lookup-set_pool id j (some pool_id) p.workers,
    lookup-insert pool_id q w' p.pools,
    workers-add_worker id j w w' taken,
    free-waiting id rest p v,
    found,
  )

  join-valid : Each IsValidPool (join pool_id id w' p).pools
  unfolding join
  join-valid =
      insert-Each IsValidPool pool_id w' p.pools
        (add_worker-IsValidPool id w w' (v.valid pool_id w found) unlisted taken) v.valid
    where
      unlisted : lookup id w.workers ≡ none
      unlisted = ground (arith, free-lookup pool_id id rest p v, found)

  pub join-IsPlaced : IsPlaced rest (join pool_id id w' p)
  join-IsPlaced = record { waiting = join-waiting; mining = join-mining; valid = join-valid }

-- `fill` keeps every worker in its place, and leaves the free list that it has placed.
pub fill-IsPlaced :
    (pool_id : ℕ) (free : List ℕ) (p : Proxy)
    → IsPlaced free p
    → IsPlaced (fill pool_id free p).free_workers (fill pool_id free p)
unfolding fill
fill-IsPlaced pool_id [] p v = record { waiting = v.waiting; mining = v.mining; valid = v.valid }
fill-IsPlaced pool_id (id ∷ rest) p v = elim (Option-cases (lookup pool_id p.pools)) [
  | inl e ↦ rw (e, fill) (record { waiting = v.waiting; mining = v.mining; valid = v.valid })
  | inr (w, e) ↦ elim (Option-cases (add_worker id w)) [
    | inl full ↦
        rw (e, fill, full) (record { waiting = v.waiting; mining = v.mining; valid = v.valid })
    | inr (w', taken) ↦
        rw (e, fill, taken)
          (fill-IsPlaced pool_id rest (join pool_id id w' p)
            (join-IsPlaced pool_id id rest p v w w' e taken))
  ]
]

abbrev pub IsConsistent : Proxy → Type 0
IsConsistent p = IsPlaced p.free_workers p

pub fill_all-IsConsistent :
    (ids : List ℕ) (p : Proxy) → IsConsistent p → IsConsistent (fill_all ids p)
unfolding fill_all
fill_all-IsConsistent [] p v = v
fill_all-IsConsistent (q ∷ ids) p v =
    fill_all-IsConsistent ids (fill q p.free_workers p) (fill-IsPlaced q p.free_workers p v)

pub free_workers_to_pools-IsConsistent :
    (p : Proxy) → IsConsistent p → IsConsistent (free_workers_to_pools p)
unfolding free_workers_to_pools
free_workers_to_pools-IsConsistent p v = fill_all-IsConsistent (keys p.pools) p v
