-- ===== src/WebStat/History.antt =====
-- The jobs that are shown, after any history.
use perfect_miner.Prelude.{ℕ, ◌≡◌, refl, ap, sym, ◌∙◌, arith, Option-cases, inl, inr}
use perfect_miner.Prelude.KeyMap.{lookup}
use perfect_miner.WebStat.Jobs.{
  pool_disconnect_message, Jobs, new_jobs, pool_add_worker, pool_del_worker, pool_disconnect,
  accepted_job, accepted_share, rejected_share,
}
use perfect_miner.WebStat.Live.{IsTidy, IsNew, end_job-IsTidy, accepted_job-IsTidy, recount-IsTidy}

module _ {D : Type 0} where
  -- The events that the jobs listen to; the id of a job is a new one.
  pub data Step : Jobs D → Jobs D → Type 0 where
    worker_added : (pool_id : ℕ) (s : Jobs D) → Step s (pool_add_worker pool_id s)
    worker_removed : (pool_id : ℕ) (s : Jobs D) → Step s (pool_del_worker pool_id s)
    pool_gone : (now pool_id : ℕ) (s : Jobs D) → Step s (pool_disconnect now pool_id s)
    job_accepted :
        (now pool_id id : ℕ) (copied : D) (s : Jobs D)
        → IsNew id s
        → Step s (accepted_job now pool_id id copied s)
    share_accepted : (id : ℕ) (s : Jobs D) → Step s (accepted_share id s)
    share_rejected : (id : ℕ) (s : Jobs D) → Step s (rejected_share id s)

  pub data Reach : Jobs D → Type 0 where
    start : Reach new_jobs
    next : {s s' : Jobs D} → Reach s → Step s s' → Reach s'

  IsTidy-same :
      (s s' : Jobs D)
      → s'.jobs ≡ s.jobs
      → s'.pools_jobs ≡ s.pools_jobs
      → s'.archive ≡ s.archive
      → IsTidy s
      → IsTidy s'
  IsTidy-same s s' ej ep ea t = record {
    current = λ i k h.
        let c = t.current i k (ap (λ m. lookup i m) (sym ej) ∙ h) in
        record {
          is_alive = c.is_alive;
          own_id = c.own_id;
          of_pool = ap (λ m. lookup k.pool_id m) ep ∙ c.of_pool;
        };
    once = λ i. ground (arith, t.once i, ej, ea);
  }

  Step-IsTidy : {s s' : Jobs D} → Step s s' → IsTidy s → IsTidy s'
  unfolding pool_add_worker pool_del_worker pool_disconnect accepted_share rejected_share
  Step-IsTidy (worker_added pool_id s) t = IsTidy-same s _ refl refl refl t
  Step-IsTidy (worker_removed pool_id s) t =
      elim (Option-cases (lookup pool_id s.pools_worker_count)) [
        | inl e ↦ rw (e, pool_del_worker) t
        | inr (n, e) ↦ rw (e, pool_del_worker) (IsTidy-same s _ refl refl refl t)
      ]
  Step-IsTidy (pool_gone now pool_id s) t =
      end_job-IsTidy now pool_disconnect_message (lookup pool_id s.pools_jobs) s t
  Step-IsTidy (job_accepted now pool_id id copied s new) t =
      accepted_job-IsTidy now pool_id id copied s t new
  Step-IsTidy (share_accepted id s) t = elim (Option-cases (lookup id s.jobs)) [
    | inl e ↦ rw (e, accepted_share) t
    | inr (j, e) ↦ rw (e, accepted_share) (recount-IsTidy id j _ s t e refl refl refl)
  ]
  Step-IsTidy (share_rejected id s) t = elim (Option-cases (lookup id s.jobs)) [
    | inl e ↦ rw (e, rejected_share) t
    | inr (j, e) ↦ rw (e, rejected_share) (recount-IsTidy id j _ s t e refl refl refl)
  ]

  -- In every history in which the ids of the jobs are new, a job that is shown is alive, stands under
  -- its own id and is the one job of its pool; and no job stands twice in the archive, or is both in
  -- the archive and shown.
  pub Reach-IsTidy : {s : Jobs D} → Reach s → IsTidy s
  unfolding new_jobs lookup
  Reach-IsTidy start = record { current = λ i k h. absurd (ground arith); once = λ i. omega arith }
  Reach-IsTidy (next r s) = Step-IsTidy s (Reach-IsTidy r)
