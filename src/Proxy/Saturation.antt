-- ===== src/Proxy/Saturation.antt =====
-- After `freeWorkersToPools` no worker is idle while a pool has room.
use perfect_miner.Prelude.{
  ℕ, ◌≤◌, ◌≡◌, refl, true, Option, none, some, List, [], ◌∷◌, ◌⊎◌, arith, ◌==◌, inl, inr,
  Option-cases, Bool-cases, subst,
}
use perfect_miner.Prelude.KeyMap.{KeyMap, lookup, keys, has, lookup-insert}
use perfect_miner.Proxy.{
  WrapperPool, Proxy, add_worker, join, fill, fill_all, free_workers_to_pools, worker_connect,
  pool_connect,
}

abbrev pub AtLimit : Option WrapperPool → Type 0
AtLimit none = Unit {0}
AtLimit (some w) = w.max_workers_count ≤ w.workers_count

abbrev pub IsFull : ℕ → Proxy → Type 0
IsFull q p = AtLimit (lookup q p.pools)

abbrev AllFull : List ℕ → Proxy → Type 0
AllFull [] p = Unit {0}
AllFull (q ∷ ids) p = IsFull q p × AllFull ids p

refused-AtLimit :
    (id : ℕ) (w : WrapperPool) → add_worker id w ≡ none → w.max_workers_count ≤ w.workers_count
unfolding add_worker
refused-AtLimit id w e = ground arith

-- A pool either takes every free worker, or is full when the inner loop stops.
fill-IsFull :
    (q : ℕ) (free : List ℕ) (p : Proxy)
    → ((fill q free p).free_workers ≡ []) ⊎ IsFull q (fill q free p)
unfolding fill
fill-IsFull q [] p = inl refl
fill-IsFull q (id ∷ rest) p = elim (Option-cases (lookup q p.pools)) [
  | inl e ↦ rw (e, fill) (inr (rw e tt))
  | inr (w, e) ↦ elim (Option-cases (add_worker id w)) [
    | inl full ↦ rw (e, fill, full) (inr (rw e (refused-AtLimit id w full)))
    | inr (w', taken) ↦ rw (e, fill, taken) (fill-IsFull q rest (join q id w' p))
  ]
]

-- The other pools keep their members, and a full pool stays as it is.
fill-keeps_IsFull : (q r : ℕ) (free : List ℕ) (p : Proxy) → IsFull r p → IsFull r (fill q free p)
unfolding fill
fill-keeps_IsFull q r [] p h = h
fill-keeps_IsFull q r (id ∷ rest) p h = elim (Option-cases (lookup q p.pools)) [
  | inl e ↦ rw (e, fill) h
  | inr (w, e) ↦ elim (Option-cases (add_worker id w)) [
    | inl full ↦ rw (e, fill, full) h
    | inr (w', taken) ↦
        rw (e, fill, taken)
          (fill-keeps_IsFull q r rest (join q id w' p)
            (unfold join add_worker in ground (arith, lookup-insert q r w' p.pools)))
  ]
]

fill-has : (q r : ℕ) (free : List ℕ) (p : Proxy) → has r (fill q free p).pools ≡ has r p.pools
unfolding fill join
fill-has q r [] p = refl
fill-has q r (id ∷ rest) p = elim (Option-cases (lookup q p.pools)) [
  | inl e ↦ rw (e, fill)
  | inr (w, e) ↦ elim (Option-cases (add_worker id w)) [
    | inl full ↦ rw (e, fill, full)
    | inr (w', taken) ↦
        rw (e, fill, taken)
          (ground (arith, fill-has q r rest (join q id w' p), lookup-insert q r w' p.pools))
  ]
]

fill_all-keeps_IsFull : (ids : List ℕ) (r : ℕ) (p : Proxy) → IsFull r p → IsFull r (fill_all ids p)
unfolding fill_all
fill_all-keeps_IsFull [] r p h = h
fill_all-keeps_IsFull (q ∷ ids) r p h =
    fill_all-keeps_IsFull ids r (fill q p.free_workers p) (fill-keeps_IsFull q r p.free_workers p h)

fill_all-nil : (ids : List ℕ) (p : Proxy) → p.free_workers ≡ [] → (fill_all ids p).free_workers ≡ []
unfolding fill_all fill
fill_all-nil [] p h = h
fill_all-nil (q ∷ ids) p h = fill_all-nil ids (fill q p.free_workers p) (rw (h, fill))

fill_all-AllFull :
    (ids : List ℕ) (p : Proxy) → ((fill_all ids p).free_workers ≡ []) ⊎ AllFull ids (fill_all ids p)
unfolding fill_all
fill_all-AllFull [] p = inr tt
fill_all-AllFull (q ∷ ids) p = elim (fill-IsFull q p.free_workers p) [
  | inl e ↦ inl (fill_all-nil ids (fill q p.free_workers p) e)
  | inr full ↦ elim (fill_all-AllFull ids (fill q p.free_workers p)) [
    | inl e ↦ inl e
    | inr all ↦ inr (fill_all-keeps_IsFull ids q (fill q p.free_workers p) full, all)
  ]
]

fill_all-has : (ids : List ℕ) (r : ℕ) (p : Proxy) → has r (fill_all ids p).pools ≡ has r p.pools
unfolding fill_all
fill_all-has [] r p = refl
fill_all-has (q ∷ ids) r p =
    ground (arith, fill_all-has ids r (fill q p.free_workers p), fill-has q r p.free_workers p)

AllFull-lookup :
    (m : KeyMap WrapperPool) (p : Proxy) (r : ℕ) → AllFull (keys m) p → has r m ≡ true → IsFull r p
unfolding keys lookup
AllFull-lookup [] p r h e = ground arith
AllFull-lookup ((q, w) ∷ m) p r h e = elim (Bool-cases (r == q)) [
  | inl same ↦ subst (λ k. IsFull k p) (ground arith) h.0
  | inr other ↦ AllFull-lookup m p r h.1 (rw other at e)
]

-- No worker is idle while a pool has room.
abbrev pub IsSaturated : Proxy → Type 0
IsSaturated p = (p.free_workers ≡ []) ⊎ ((q : ℕ) → IsFull q p)

pub free_workers_to_pools-IsSaturated : (p : Proxy) → IsSaturated (free_workers_to_pools p)
unfolding free_workers_to_pools
free_workers_to_pools-IsSaturated p = elim (fill_all-AllFull (keys p.pools) p) [
  | inl e ↦ inl e
  | inr all ↦ inr λ q. elim (Bool-cases (has q p.pools)) [
    | inl there ↦ AllFull-lookup p.pools (fill_all (keys p.pools) p) q all there
    | inr absent ↦ ground (arith, fill_all-has (keys p.pools) q p)
  ]
]

-- After a worker or a pool has come, every worker that still waits finds all pools full.
pub connect-IsSaturated :
    (id : ℕ) (p : Proxy) → IsSaturated (worker_connect id p) × IsSaturated (pool_connect id p)
unfolding worker_connect pool_connect
connect-IsSaturated id p =
    (free_workers_to_pools-IsSaturated _, free_workers_to_pools-IsSaturated _)
