-- ===== src/Proxy/Traffic/Current.antt =====
-- Whose shares get to the pool after a new job.
use perfect_miner.Prelude.{
  ℕ, ◌≡◌, ◌≢◌, refl, ap, ap₂, Bool-cases, ◌∙◌, true, false, some, List, [], ◌∷◌, ◌++◌, arith,
  is_some, if◌then◌else◌, Option-cases, inl, inr,
}
use perfect_miner.Prelude.Text.{Text, text_eq, text_eq_sound, text_eq_refl}
use perfect_miner.Prelude.KeyMap.{lookup, keys}
use perfect_miner.Prelude.Floats.{Floats}
use perfect_miner.Bytes.{Bytes}
use perfect_miner.Stratum.Job.{get_block_header_for_worker, hand_out}
use perfect_miner.Stratum.Client.{Share, Client, get_job, take_header, reg_job}
use perfect_miner.Stratum.Client.{submit_share}
use perfect_miner.Stratum.Client.Shares.{get_header-notice}
use perfect_miner.Stratum.Client.Blobs.{get_job-extranonce}
use perfect_miner.Proxy.Traffic.{
  PoolJobs, set_job, job_for_worker, jobs_for_workers, new_job, is_current, pass_share,
}

module _ (fl : Floats) (sha256d : Bytes → Bytes) where
  open fl use {F}

  -- A job is at hand, with its extranonce.
  abbrev pub HasJob : PoolJobs F → Type 0
  HasJob s = (is_some s.client.job.notice ≡ true) × (is_some s.client.job.extranonce ≡ true)

  get_job-notice :
      (key : Text) (c : Client F) → (get_job fl sha256d key c).1.job.notice ≡ c.job.notice
  unfolding get_job take_header reg_job
  get_job-notice key c = ground (arith, get_header-notice fl sha256d c.job)

  get_job-some :
      (key : Text) (c : Client F)
      → is_some c.job.notice ≡ true
      → is_some c.job.extranonce ≡ true
      → (blob : Bytes) × (target : Bytes) × ((get_job fl sha256d key c).0
          ≡ some (key, blob, target))
  unfolding get_job take_header reg_job get_block_header_for_worker
  get_job-some key c n e = elim (Option-cases c.job.notice) [
    | inl no_notice ↦ absurd (ground arith)
    | inr (notice, en) ↦ elim (Option-cases c.job.extranonce) [
      | inl no_extranonce ↦ absurd (ground arith)
      | inr (e1, ee) ↦
          let d = (hand_out fl sha256d notice e1 c.job).0 in
          (d.block_header_blob, d.target_blob, ground arith)
    ]
  ]

  record IsGiven (key : Text) (s s' : PoolJobs F) : Type 0 where
    pub current : s'.wrapper.job_id ≡ some key
    pub has_job : HasJob s'

  job_for_worker-IsGiven :
      (fresh : ℕ → Text) (id : ℕ) (s : PoolJobs F)
      → HasJob s
      → IsGiven (fresh id) s (job_for_worker fl sha256d fresh id s)
  unfolding job_for_worker set_job
  job_for_worker-IsGiven fresh id s (n, e) =
      let (blob, target, given) = get_job-some (fresh id) s.client n e in
      let c : Client F = (get_job fl sha256d (fresh id) s.client).1 in
      let notice : is_some c.job.notice ≡ true =
        ap is_some (get_job-notice (fresh id) s.client) ∙ n in
      let extranonce : is_some c.job.extranonce ≡ true =
        get_job-extranonce fl sha256d (fresh id) s.client ∙ e in
      elim (Option-cases (lookup id s.wrapper.workers)) [
        | inl gone ↦ record { current = ground arith; has_job = (ground arith, ground arith) }
        | inr (w, there) ↦ record { current = ground arith; has_job = (ground arith, ground arith) }
      ]

  -- The id of the last header that is handed out is the one that counts.
  jobs_for_workers-current :
      (fresh : ℕ → Text) (ids : List ℕ) (last : ℕ) (s : PoolJobs F)
      → HasJob s
      → (jobs_for_workers fl sha256d fresh (ids ++ last ∷ []) s).wrapper.job_id ≡ some (fresh last)
  unfolding jobs_for_workers
  jobs_for_workers-current fresh [] last s h = (job_for_worker-IsGiven fresh last s h).current
  jobs_for_workers-current fresh (id ∷ ids) last s h =
      jobs_for_workers-current fresh ids last _ (job_for_worker-IsGiven fresh id s h).has_job

  other_id : (id key : Text) → id ≢ key → is_current fl sha256d id (some key) ≡ false
  unfolding is_current
  other_id id [] h = refl
  other_id id (a ∷ s) h = elim (Bool-cases (text_eq id (a ∷ s))) [
    | inl e ↦ absurd (h (text_eq_sound id (a ∷ s) e))
    | inr e ↦ e
  ]

  same_id : (key : Text) → key ≢ [] → is_current fl sha256d key (some key) ≡ true
  unfolding is_current
  same_id [] h = absurd (h refl)
  same_id (a ∷ s) h = text_eq_refl (a ∷ s)

  -- After a pool's new job has gone out to its workers, one header for each, a share is passed on to
  -- the client of the pool only if it names the header of the last worker: a share for the header of
  -- any other worker changes nothing. The job and its extranonce are at hand, and no id is empty.
  pub new_job-shares :
      (fresh : ℕ → Text) (ids : List ℕ) (last now id : ℕ) (share : Share) (s : PoolJobs F)
      → HasJob s
      → keys s.wrapper.workers ≡ ids ++ last ∷ []
      → fresh last ≢ []
      → let s' = new_job fl sha256d fresh s in
        (share.job_id ≢ fresh last → pass_share fl sha256d now id share s' ≡ s')
        × (share.job_id ≡ fresh last
            → pass_share fl sha256d now id share s'
              ≡ record s' { client = submit_share fl sha256d now id share s'.client })
  unfolding new_job pass_share
  new_job-shares fresh ids last now id share s h members full =
      let s' : PoolJobs F = jobs_for_workers fl sha256d fresh (keys s.wrapper.workers) s in
      let current : s'.wrapper.job_id ≡ some (fresh last) =
        ap (λ l. (jobs_for_workers fl sha256d fresh l s).wrapper.job_id) members
        ∙ jobs_for_workers-current fresh ids last s h in
      (
        λ other.
            ap
              (λ b.
                if b
                then record s' { client = submit_share fl sha256d now id share s'.client }
                else s')
              (ap (is_current fl sha256d share.job_id) current
                ∙ other_id share.job_id (fresh last) other),
        λ same.
            ap
              (λ b.
                if b
                then record s' { client = submit_share fl sha256d now id share s'.client }
                else s')
              (ap₂ (is_current fl sha256d) same current ∙ same_id (fresh last) full),
      )
