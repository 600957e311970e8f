-- ===== src/WebStat/Live.antt =====
-- Which jobs are shown as alive, and which are in the archive.
use perfect_miner.Prelude.{
  ℕ, ◌+◌, ◌≤◌, ◌≡◌, ◌≢◌, refl, ap, subst, sym, ◌∙◌, true, Option, none, some, List, [], ◌∷◌, ◌++◌,
  arith, bit, ◌==◌, Bool-cases, Option-cases, inl, inr,
}
use perfect_miner.Prelude.KeyMap.{lookup, insert, remove, has, lookup-insert, lookup-remove}
use perfect_miner.WebStat.Jobs.{
  EndMessage, switch_job, JobInfo, Jobs, finish, end_job, opened, start_job, accepted_job,
}

module _ {D : Type 0} where
  -- How often a job stands in the archive.
  abbrev pub archived : ℕ → List (JobInfo D) → ℕ
  archived id [] = 0
  archived id (j ∷ js) = bit (id == j.id) + archived id js

  archived-append :
      (id : ℕ) (xs ys : List (JobInfo D)) → archived id (xs ++ ys) ≡ archived id xs + archived id ys
  archived-append id [] ys = omega arith
  archived-append id (x ∷ xs) ys = omega (arith, archived-append id xs ys)

  -- A job that is shown is alive, stands under its id, and is the job of its pool.
  pub record IsCurrent (s : Jobs D) (id : ℕ) (j : JobInfo D) : Type 0 where
    pub is_alive : j.alive ≡ true
    pub own_id : j.id ≡ id
    pub of_pool : lookup j.pool_id s.pools_jobs ≡ some id

  pub record IsTidy (s : Jobs D) : Type 0 where
    pub current : (id : ℕ) (j : JobInfo D) → lookup id s.jobs ≡ some j → IsCurrent s id j
    pub once : (id : ℕ) → archived id s.archive + bit (has id s.jobs) ≤ 1

  -- The job ids are handed out once.
  abbrev pub IsNew : ℕ → Jobs D → Type 0
  IsNew id s = (lookup id s.jobs ≡ none) × (archived id s.archive ≡ 0)

  pub end_job-IsTidy :
      (now : ℕ) (msg : EndMessage) (o : Option ℕ) (s : Jobs D)
      → IsTidy s
      → IsTidy (end_job now msg o s)
  unfolding end_job finish
  end_job-IsTidy now msg none s t = t
  end_job-IsTidy now msg (some id) s t = elim (Option-cases (lookup id s.jobs)) [
    | inl e ↦ rw (e, end_job) t
    | inr (j, e) ↦ rw (e, end_job) (ended id j e)
  ]
    where
      ended :
          (id : ℕ) (j : JobInfo D)
          → lookup id s.jobs ≡ some j
          → IsTidy
              (record s { archive = s.archive ++ finish now msg j ∷ []; jobs = remove id s.jobs })
      ended id j e = record {
        current = λ i k h.
            let c = t.current i k (ground (arith, lookup-remove id i s.jobs, h)) in
            record { is_alive = c.is_alive; own_id = c.own_id; of_pool = c.of_pool };
        once = λ i. ground (
          arith,
          archived-append i s.archive (finish now msg j ∷ []),
          lookup-remove id i s.jobs,
          (t.current id j e).own_id,
          t.once i,
          e,
        );
      }

  end_job-IsNew :
      (now : ℕ) (msg : EndMessage) (o : Option ℕ) (id : ℕ) (s : Jobs D)
      → IsTidy s
      → IsNew id s
      → IsNew id (end_job now msg o s)
  unfolding end_job finish
  end_job-IsNew now msg none id s t new = new
  end_job-IsNew now msg (some x) id s t new = elim (Option-cases (lookup x s.jobs)) [
    | inl e ↦ rw (e, end_job) new
    | inr (j, e) ↦
        rw (e, end_job)
          (
            ground (arith, lookup-remove x id s.jobs, new.0),
            ground (
              arith,
              archived-append id s.archive (finish now msg j ∷ []),
              (t.current x j e).own_id,
              new.0,
              new.1,
              e,
            ),
          )
  ]

  -- The job of the pool is no longer shown, and the others are what they were.
  end_job-gone :
      (now : ℕ) (msg : EndMessage) (o : Option ℕ) (i : ℕ) (k : JobInfo D) (s : Jobs D)
      → lookup i (end_job now msg o s).jobs ≡ some k
      → (o ≢ some i) × (lookup i s.jobs ≡ some k)
  unfolding end_job
  end_job-gone now msg none i k s h = ((λ e. ground arith), h)
  end_job-gone now msg (some x) i k s h = elim (Option-cases (lookup x s.jobs)) [
    | inl e ↦
        let here : lookup i s.jobs ≡ some k =
          ap (λ q. lookup i q) (sym (rw (e, end_job) refl)) ∙ h in
        ((λ same. ground arith), here)
    | inr (j, e) ↦
        let here : lookup i (remove x s.jobs) ≡ some k =
          ap (λ q. lookup i q) (sym (rw (e, end_job) refl)) ∙ h in
        (
          (λ same. ground (arith, lookup-remove x i s.jobs)),
          ground (arith, lookup-remove x i s.jobs),
        )
  ]

  end_job-pools_jobs :
      (now : ℕ) (msg : EndMessage) (o : Option ℕ) (s : Jobs D)
      → (end_job now msg o s).pools_jobs ≡ s.pools_jobs
  unfolding end_job
  end_job-pools_jobs now msg none s = refl
  end_job-pools_jobs now msg (some x) s = ground arith

  start_job-IsTidy :
      (now pool_id id : ℕ) (copied : D) (s : Jobs D)
      → IsTidy s
      → IsNew id s
      → ((i : ℕ) (k : JobInfo D) → lookup i s.jobs ≡ some k → k.pool_id ≢ pool_id)
      → IsTidy (start_job now pool_id id copied s)
  unfolding start_job opened
  start_job-IsTidy now pool_id id copied s t new away = record {
    current = λ i k h. elim (Bool-cases (i == id)) [
      | inl same ↦
          let it : o ≡ k = ground (arith, lookup-insert id i o s.jobs) in
          subst (IsCurrent (start_job now pool_id id copied s) i) it (record {
            is_alive = refl;
            own_id = ground arith;
            of_pool = ground (arith, lookup-insert pool_id pool_id id s.pools_jobs);
          })
      | inr other ↦
          let here : lookup i s.jobs ≡ some k = ground (arith, lookup-insert id i o s.jobs) in
          let c = t.current i k here in
          record {
            is_alive = c.is_alive;
            own_id = c.own_id;
            of_pool =
                ground (
                  arith,
                  lookup-insert pool_id k.pool_id id s.pools_jobs,
                  c.of_pool,
                  away i k here,
                );
          }
    ];
    once = λ i. ground (arith, lookup-insert id i o s.jobs, t.once i, new.0, new.1);
  }
    where
      o : JobInfo D
      o = opened now pool_id id copied s

  pub accepted_job-IsTidy :
      (now pool_id id : ℕ) (copied : D) (s : Jobs D)
      → IsTidy s
      → IsNew id s
      → IsTidy (accepted_job now pool_id id copied s)
  unfolding accepted_job
  accepted_job-IsTidy now pool_id id copied s t new =
      start_job-IsTidy now pool_id id copied s1
        (end_job-IsTidy now switch_job (lookup pool_id s.pools_jobs) s t)
        (end_job-IsNew now switch_job (lookup pool_id s.pools_jobs) id s t new) away
    where
      s1 : Jobs D
      s1 = end_job now switch_job (lookup pool_id s.pools_jobs) s

      away : (i : ℕ) (k : JobInfo D) → lookup i s1.jobs ≡ some k → k.pool_id ≢ pool_id
      away i k h same =
          let gone = end_job-gone now switch_job (lookup pool_id s.pools_jobs) i k s h in
          gone.0 (ap (λ p. lookup p s.pools_jobs) (sym same) ∙ (t.current i k gone.1).of_pool)

  -- A job that is shown changes its counts.
  pub recount-IsTidy :
      (id : ℕ) (j j' : JobInfo D) (s : Jobs D)
      → IsTidy s
      → lookup id s.jobs ≡ some j
      → j'.alive ≡ j.alive
      → j'.id ≡ j.id
      → j'.pool_id ≡ j.pool_id
      → IsTidy (record s { jobs = insert id j' s.jobs })
  recount-IsTidy id j j' s t e same_alive same_id same_pool = record {
    current = λ i k h. elim (Bool-cases (i == id)) [
      | inl same ↦
          let it : j' ≡ k = ground (arith, lookup-insert id i j' s.jobs) in
          let c = t.current id j e in
          subst (IsCurrent _ i) it (record {
            is_alive = same_alive ∙ c.is_alive;
            own_id = ground (arith, same_id, c.own_id, same);
            of_pool = ground (arith, same_pool, c.of_pool, same);
          })
      | inr other ↦
          let c = t.current i k (ground (arith, lookup-insert id i j' s.jobs)) in
          record { is_alive = c.is_alive; own_id = c.own_id; of_pool = c.of_pool }
    ];
    once = λ i. ground (arith, lookup-insert id i j' s.jobs, t.once i, e);
  }
