-- ===== src/Stratum/Client/Handed.antt =====
-- The headers that a history of `StratumClient` (ControlServer/Stratum/StratumClient.js) has handed out.
use perfect_miner.Prelude.{
  ℕ, ◌≡◌, refl, ap, sym, ◌∙◌, Bool, true, false, Option, none, some, List, [], ◌∷◌, ◌++◌, ◌⊎◌,
  length, ◌&&◌, ◌==◌, Bool-cases, Option-cases, inl, inr, arith, if◌then◌else◌,
}
use perfect_miner.Prelude.Text.{Text, text_eq}
use perfect_miner.Prelude.KeyMap.{lookup, remove}
use perfect_miner.Prelude.Floats.{Floats}
use perfect_miner.Bytes.{Bytes}
use perfect_miner.Bytes.Hex.{all_hex}
use perfect_miner.Stratum.Header.{Notice}
use perfect_miner.Stratum.Job.{Job, WorkerData, same_job, update_job, get_block_header_for_worker}
use perfect_miner.Stratum.Client.{
  Share, ShareClone, mining_submit, Client, find, new_client, reg_job, take_header, get_job,
  clean_jobs, take_job, update_client, set_extranonce, send_share, submit_share, count_result,
  on_result,
}
use perfect_miner.Stratum.Client.Shares.{IsOf}
use perfect_miner.Stratum.Client.History.{
  Reach, start, notified, extranonce_set, header_asked, share_found, answered, Reach-IsSound,
}

module _ (fl : Floats) (sha256d : Bytes → Bytes) where
  open fl use {F}

  abbrev pub given :
      Text → Option (WorkerData F) → List (Text × WorkerData F) → List (Text × WorkerData F)
  given key none ds = ds
  given key (some d) ds = (key, d) ∷ ds

  -- The headers that were handed out, the newest first, with the ids that they were handed out under.
  abbrev pub handed : {c : Client F} → Reach fl sha256d c → List (Text × WorkerData F)
  handed (start id now) = []
  handed (notified fresh n r e) = handed r
  handed (extranonce_set e1 size r) = handed r
  handed (header_asked key {c} r) =
      given key (get_block_header_for_worker fl sha256d c.job).0 (handed r)
  handed (share_found now id s r) = handed r
  handed (answered call result r) = handed r

  -- What a worker's id finds was handed out under it.
  abbrev FindsHanded : Client F → List (Text × WorkerData F) → Type 0
  FindsHanded c ds =
      (key : Text) (d : WorkerData F) → find key c.job_workers ≡ some d → find key ds ≡ some d

  update_client-found :
      (fresh : ℕ) (n : Notice F) (c c' : Client F) (key : Text) (d : WorkerData F)
      → update_client fl sha256d fresh n c ≡ some c'
      → find key c'.job_workers ≡ some d
      → find key c.job_workers ≡ some d
  unfolding update_client clean_jobs take_job find
  update_client-found fresh n c c' key d e h =
      elim (Option-cases (update_job fl sha256d fresh n c.job)) [
        | inl crash ↦ absurd (ground arith)
        | inr (j, updated) ↦ elim (Bool-cases (same_job fl sha256d n c.job)) [
          | inl same ↦
              let end : record c { job = j } ≡ c' = ground arith in
              ap (λ (x : Client F). find key x.job_workers) end ∙ h
          | inr other ↦
              let end : record c { job = j; job_workers = [] } ≡ c' = ground arith in
              let no : none ≡ some d = ap (λ (x : Client F). find key x.job_workers) end ∙ h in
              absurd (cc)
        ]
      ]

  get_job-FindsHanded :
      (key : Text) (c : Client F) (ds : List (Text × WorkerData F))
      → FindsHanded c ds
      → FindsHanded
          (get_job fl sha256d key c).1
          (given key (get_block_header_for_worker fl sha256d c.job).0 ds)
  unfolding get_job take_header reg_job find
  get_job-FindsHanded key c ds f = taken (get_block_header_for_worker fl sha256d c.job).0 _
    where
      newest :
          (b : Bool) (x d : WorkerData F) (k : Text)
          → (if b then some x else find k c.job_workers) ≡ some d
          → (if b then some x else find k ds) ≡ some d
      newest true x d k h = h
      newest false x d k h = f k d h

      taken :
          (x : Option (WorkerData F)) (j : Job F)
          → FindsHanded (take_header fl sha256d key x j c).1 (given key x ds)
      taken none j k d h = f k d h
      taken (some x) j k d h = newest (text_eq k key) x d k h

  submit_share-job_workers :
      (now id : ℕ) (sh : Share) (c : Client F)
      → (submit_share fl sha256d now id sh c).job_workers ≡ c.job_workers
  unfolding submit_share send_share
  submit_share-job_workers now id sh c =
      elim (Bool-cases ((length sh.nonce == 8) && all_hex sh.nonce)) [
        | inl fine ↦ elim (Option-cases (find sh.job_id c.job_workers)) [
          | inl e ↦ rw (fine, e) refl
          | inr (d, e) ↦ rw (fine, e) refl
        ]
        | inr wrong ↦ rw wrong refl
      ]

  on_result-job_workers :
      (call : ℕ) (result : Bool) (c : Client F)
      → (on_result fl sha256d call result c).job_workers ≡ c.job_workers
  unfolding on_result count_result
  on_result-job_workers call result c = elim (Option-cases (lookup call c.pending)) [
    | inl e ↦ rw (e, on_result) refl
    | inr (s, e) ↦ rw (e, on_result) (counted result s)
  ]
    where
      counted :
          (b : Bool) (s : ShareClone F)
          → (count_result fl sha256d b s (record c { pending = remove call c.pending })).job_workers
            ≡ c.job_workers
      counted true s = refl
      counted false s = refl

  Reach-FindsHanded : {c : Client F} (r : Reach fl sha256d c) → FindsHanded c (handed r)
  unfolding new_client set_extranonce
  Reach-FindsHanded (start id now) k d h = h
  Reach-FindsHanded (notified fresh n {c} {c'} r e) k d h =
      Reach-FindsHanded r k d (update_client-found fresh n c c' k d e h)
  Reach-FindsHanded (extranonce_set e1 size {c} r) k d h = Reach-FindsHanded r k d h
  Reach-FindsHanded (header_asked key {c} r) k d h =
      get_job-FindsHanded key c (handed r) (Reach-FindsHanded r) k d h
  Reach-FindsHanded (share_found now id s {c} r) k d h =
      Reach-FindsHanded r k d (ap (find k) (sym (submit_share-job_workers now id s c)) ∙ h)
  Reach-FindsHanded (answered call result {c} r) k d h =
      Reach-FindsHanded r k d (ap (find k) (sym (on_result-job_workers call result c)) ∙ h)

  -- In every history of a client, a share either changes nothing, or is sent once, with the job id,
  -- the second extranonce and the ntime of the newest header that was handed out under the id that
  -- the share names, and this header is one of the pool's job at hand.
  pub submit_share-current :
      (now id : ℕ) (s : Share) (c : Client F) (r : Reach fl sha256d c)
      → (submit_share fl sha256d now id s c ≡ c)
        ⊎ ((d : WorkerData F) × (find s.job_id (handed r) ≡ some d)
            × IsOf fl sha256d c.job d
            × ((submit_share fl sha256d now id s c).outputs
                ≡ c.outputs
                  ++ mining_submit c.call_seq d.job_id d.extranonce2_blob d.ntime_blob s.nonce
                    ∷ []))
  unfolding submit_share send_share
  submit_share-current now id s c r = elim (Bool-cases ((length s.nonce == 8) && all_hex s.nonce)) [
    | inl good ↦ elim (Option-cases (find s.job_id c.job_workers)) [
      | inl e ↦ inl (rw (good, e) refl)
      | inr (d, e) ↦ inr (
        d,
        Reach-FindsHanded r s.job_id d e,
        (Reach-IsSound fl sha256d r).current s.job_id d e,
        rw (good, e) refl,
      )
    ]
    | inr bad ↦ inl (rw bad refl)
  ]
