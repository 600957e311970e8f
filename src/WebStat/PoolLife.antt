-- ===== src/WebStat/PoolLife.antt =====
-- A pool is shown from its connection to its end, and then archived once.
use perfect_miner.Prelude.{
  ℕ, ◌+◌, ◌≤◌, ◌≡◌, refl, subst, true, Option, none, some, List, [], ◌∷◌, ◌++◌, arith, bit, ◌==◌,
  Bool-cases, Option-cases, inl, inr,
}
use perfect_miner.Prelude.Int.{pos, negsuc}
use perfect_miner.Prelude.Text.{Text}
use perfect_miner.Prelude.KeyMap.{lookup, insert, has, lookup-insert, lookup-remove}
use perfect_miner.WebStat.Pools.{
  PoolInfo, Pools, opened_pool, pool_connect, closed_pool, pool_disconnect, change, with_ping,
  with_shares, with_job, with_worker, Event, connected, disconnected, pinged, share_answered,
  job_accepted, worker_added, worker_removed, on_event,
}

module _ {C F R : Type 0} where
  abbrev pub filed : ℕ → List (PoolInfo C F R) → ℕ
  filed id [] = 0
  filed id (p ∷ ps) = bit (id == p.id) + filed id ps

  filed-append :
      (id : ℕ) (xs ys : List (PoolInfo C F R)) → filed id (xs ++ ys) ≡ filed id xs + filed id ys
  filed-append id [] ys = omega arith
  filed-append id (x ∷ xs) ys = omega (arith, filed-append id xs ys)

  pub record IsShown (id : ℕ) (p : PoolInfo C F R) : Type 0 where
    pub is_alive : p.alive ≡ true
    pub own_id : p.id ≡ id
    pub not_ended : p.disconnection_time ≡ none

  pub record IsOrderly (s : Pools C F R) : Type 0 where
    pub shown : (id : ℕ) (p : PoolInfo C F R) → lookup id s.pools ≡ some p → IsShown id p
    pub once : (id : ℕ) → filed id s.archive + bit (has id s.pools) ≤ 1

  -- A pool that connects has a new id.
  abbrev pub IsFirst : Event C F R → Pools C F R → Type 0
  IsFirst (connected now zero_hashes o) s =
      (lookup o.orig_id s.pools ≡ none) × (filed o.orig_id s.archive ≡ 0)
  IsFirst e s = Unit {0}

  put-IsOrderly :
      (id : ℕ) (p : PoolInfo C F R) (s : Pools C F R)
      → IsOrderly s
      → IsShown id p
      → filed id s.archive ≡ 0
      → IsOrderly (record s { pools = insert id p s.pools })
  put-IsOrderly id p s t new absent = record {
    shown = λ i q h. elim (Bool-cases (i == id)) [
      | inl same ↦
          let it : p ≡ q = ground (arith, lookup-insert id i p s.pools) in
          let at : id ≡ i = ground (arith, same) in
          subst (IsShown i) it (subst (λ k. IsShown k p) at new)
      | inr other ↦ t.shown i q (ground (arith, lookup-insert id i p s.pools))
    ];
    once = λ i. ground (arith, lookup-insert id i p s.pools, t.once i, absent);
  }

  change-IsOrderly :
      (f : PoolInfo C F R → PoolInfo C F R) (id : ℕ) (s : Pools C F R)
      → ((p : PoolInfo C F R) → IsShown id p → IsShown id (f p))
      → IsOrderly s
      → IsOrderly (change f id s)
  unfolding change
  change-IsOrderly f id s keeps t = elim (Option-cases (lookup id s.pools)) [
    | inl e ↦ rw (e, change) t
    | inr (p, e) ↦
        rw (e, change)
          (put-IsOrderly id (f p) s t (keeps p (t.shown id p e)) (ground (arith, t.once id, e)))
  ]

  pool_disconnect-IsOrderly :
      (now : ℕ) (msg : Option Text) (id : ℕ) (s : Pools C F R)
      → IsOrderly s
      → IsOrderly (pool_disconnect now msg id s)
  unfolding pool_disconnect closed_pool
  pool_disconnect-IsOrderly now msg id s t = elim (Option-cases (lookup id s.pools)) [
    | inl e ↦ rw (e, pool_disconnect) t
    | inr (p, e) ↦
        rw (e, pool_disconnect)
          (record {
            shown = λ i q h. t.shown i q (ground (arith, lookup-remove p.id i s.pools, h));
            once = λ i. ground (
              arith,
              filed-append i s.archive (closed_pool now msg p ∷ []),
              lookup-remove p.id i s.pools,
              (t.shown id p e).own_id,
              t.once i,
              e,
            );
          })
  ]

  -- An event keeps the table orderly, where a pool that connects has a new id: what is shown is alive,
  -- has not ended and stands under its own id; and no pool is archived twice, or archived and shown.
  pub on_event-IsOrderly :
      (e : Event C F R) (s : Pools C F R) → IsFirst e s → IsOrderly s → IsOrderly (on_event e s)
  unfolding on_event pool_connect opened_pool with_ping with_shares with_job with_worker
  on_event-IsOrderly (connected now zero_hashes o) s new t =
      put-IsOrderly o.orig_id (opened_pool now zero_hashes o) s t
        (record { is_alive = refl; own_id = refl; not_ended = refl }) new.1
  on_event-IsOrderly (disconnected now msg id) s new t = pool_disconnect-IsOrderly now msg id s t
  on_event-IsOrderly (pinged ping id) s new t =
      change-IsOrderly (with_ping ping) id s
        (λ p a. record { is_alive = a.is_alive; own_id = a.own_id; not_ended = a.not_ended }) t
  on_event-IsOrderly (share_answered o) s new t =
      change-IsOrderly (with_shares o) o.orig_id s
        (λ p a. record { is_alive = a.is_alive; own_id = a.own_id; not_ended = a.not_ended }) t
  on_event-IsOrderly (job_accepted o) s new t =
      change-IsOrderly (with_job o) o.orig_id s
        (λ p a. record { is_alive = a.is_alive; own_id = a.own_id; not_ended = a.not_ended }) t
  on_event-IsOrderly (worker_added id) s new t =
      change-IsOrderly (with_worker (pos 1)) id s
        (λ p a. record { is_alive = a.is_alive; own_id = a.own_id; not_ended = a.not_ended }) t
  on_event-IsOrderly (worker_removed id) s new t =
      change-IsOrderly (with_worker (negsuc 0)) id s
        (λ p a. record { is_alive = a.is_alive; own_id = a.own_id; not_ended = a.not_ended }) t
