-- ===== src/Stratum/Client/Shares.antt =====
-- Every share is counted once, and is for the job that the pool works on.
use perfect_miner.Prelude.{
  ℕ, ◌+◌, ◌≤◌, ◌≡◌, refl, subst, sym, ◌∙◌, Bool, true, false, Option, none, some, [], arith, length,
  ◌&&◌, ◌==◌, if◌then◌else◌, Bool-cases, Option-cases, inl, inr,
}
use perfect_miner.Prelude.Text.{Text, text_eq, text_eq_sound}
use perfect_miner.Prelude.KeyMap.{
  lookup, remove, Above, lookup-insert, lookup-remove, insert-Above, remove-Above,
  length-insert_new, length-remove,
}
use perfect_miner.Prelude.Floats.{Floats}
use perfect_miner.Bytes.{Bytes}
use perfect_miner.Bytes.Hex.{all_hex}
use perfect_miner.Stratum.Header.{Notice}
use perfect_miner.Stratum.Job.{
  Job, WorkerData, same_job, install, update_job, update_extranonce, get_block_header_for_worker,
  hand_out, worker_data, put_nonce, refresh_header, step_nonce,
}
use perfect_miner.Stratum.Client.{
  Share, ShareClone, Client, find, new_client, reg_job, take_header, get_job, clean_jobs, take_job,
  update_client, set_extranonce, clone_share, send_share, submit_share, count_result, on_result,
}

module _ (fl : Floats) (sha256d : Bytes → Bytes) where
  open fl use {F}

  -- The data of a header of the pool's job.
  abbrev pub IsOf : Job F → WorkerData F → Type 0
  IsOf j d = (n : Notice F) × (j.notice ≡ some n) × (d.job_id ≡ n.job_id)

  pub record IsSound (c : Client F) : Type 0 where
    pub counted : c.share_count ≡ c.accepted_share_count + c.rejected_share_count + length c.pending
    pub fresh : (k : ℕ) → c.call_seq ≤ k → lookup k c.pending ≡ none
    pub sorted : Above 0 c.pending
    pub current : (key : Text) (d : WorkerData F) → find key c.job_workers ≡ some d → IsOf c.job d

  -- The pool's job stays the same when a header is handed out.
  pub get_header-notice :
      (j : Job F) → (get_block_header_for_worker fl sha256d j).1.notice ≡ j.notice
  unfolding get_block_header_for_worker hand_out put_nonce refresh_header step_nonce
  get_header-notice j = ground arith

  get_header-IsOf :
      (j : Job F) (d : WorkerData F)
      → (get_block_header_for_worker fl sha256d j).0 ≡ some d
      → IsOf j d
  unfolding get_block_header_for_worker hand_out worker_data
  get_header-IsOf j d e = elim (Option-cases j.notice) [
    | inl none_yet ↦ absurd (ground arith)
    | inr (n, given) ↦ (n, given, ground arith)
  ]

  update_extranonce-notice :
      (e1 : Bytes) (size : ℕ) (j : Job F)
      → (update_extranonce fl sha256d e1 size j).notice ≡ j.notice
  unfolding update_extranonce
  update_extranonce-notice e1 size j = refl

  -- The job after an update is that of the notice.
  update_job-notice :
      (fresh : ℕ) (n : Notice F) (j j' : Job F)
      → update_job fl sha256d fresh n j ≡ some j'
      → j'.notice ≡ some n
  unfolding update_job install
  update_job-notice fresh n j j' e = ground arith

  IsOf-moved : (i j : Job F) (d : WorkerData F) → j.notice ≡ i.notice → IsOf i d → IsOf j d
  IsOf-moved i j d e (n, given, named) = (n, e ∙ given, named)

  pub get_job-IsSound :
      (key : Text) (c : Client F) → IsSound c → IsSound (get_job fl sha256d key c).1
  unfolding get_job take_header reg_job find
  get_job-IsSound key c s =
      taken (get_block_header_for_worker fl sha256d c.job).0 _ (get_header-notice c.job)
        (λ d e. get_header-IsOf c.job d e)
    where
      found :
          (x : WorkerData F) (j : Job F) (k : Text) (d : WorkerData F) (b : Bool)
          → j.notice ≡ c.job.notice
          → IsOf c.job x
          → (if b then some x else find k c.job_workers) ≡ some d
          → IsOf j d
      found x j k d true e new h =
          let same : x ≡ d = ground arith in subst (IsOf j) same (IsOf-moved c.job j x e new)
      found x j k d false e new h = IsOf-moved c.job j d e (s.current k d h)

      taken :
          (d : Option (WorkerData F)) (j : Job F)
          → j.notice ≡ c.job.notice
          → ((x : WorkerData F) → d ≡ some x → IsOf c.job x)
          → IsSound (take_header fl sha256d key d j c).1
      taken none j e new = record {
        counted = s.counted;
        fresh = s.fresh;
        sorted = s.sorted;
        current = λ k d h. IsOf-moved c.job j d e (s.current k d h);
      }
      taken (some x) j e new = record {
        counted = s.counted;
        fresh = s.fresh;
        sorted = s.sorted;
        current = λ k d h. found x j k d (text_eq k key) e (new x refl) h;
      }

  same_job-IsOf :
      (n : Notice F) (j : Job F) (d : WorkerData F)
      → same_job fl sha256d n j ≡ true
      → IsOf j d
      → d.job_id ≡ n.job_id
  unfolding same_job
  same_job-IsOf n j d h (old, given, named) =
      let eq : text_eq n.job_id old.job_id ≡ true =
        subst
          (λ o.
            (elim o as (λ _. Bool) [ none ↦ false | some m ↦ text_eq n.job_id m.job_id ]) ≡ true)
          given h in
      named ∙ sym (text_eq_sound n.job_id old.job_id eq)

  pub update_client-IsSound :
      (fresh : ℕ) (n : Notice F) (c c' : Client F)
      → IsSound c
      → update_client fl sha256d fresh n c ≡ some c'
      → IsSound c'
  unfolding update_client clean_jobs take_job find
  update_client-IsSound fresh n c c' s e =
      elim (Option-cases (update_job fl sha256d fresh n c.job)) [
        | inl crash ↦ absurd (ground arith)
        | inr (j, updated) ↦
            let now = update_job-notice fresh n c.job j updated in
            elim (Bool-cases (same_job fl sha256d n c.job)) [
              | inl same ↦
                  let end : record c { job = j } ≡ c' = ground arith in
                  subst IsSound end (record {
                    counted = s.counted;
                    fresh = s.fresh;
                    sorted = s.sorted;
                    current = λ k d h. (n, now, same_job-IsOf n c.job d same (s.current k d h));
                  })
              | inr other ↦
                  let end : record c { job = j; job_workers = [] } ≡ c' = ground arith in
                  subst IsSound end (record {
                    counted = s.counted;
                    fresh = s.fresh;
                    sorted = s.sorted;
                    current = λ k d h. absurd (nothing_found k d h);
                  })
            ]
      ]
    where
      nothing_found : (k : Text) (d : WorkerData F) → find k [] ≡ some d → ⊥
      nothing_found k d h = ground arith

  send_share-IsSound :
      (now id : ℕ) (sh : Share) (d : WorkerData F) (c : Client F)
      → IsSound c
      → IsSound (send_share fl sha256d now id sh d c)
  unfolding send_share
  send_share-IsSound now id sh d c s = record {
    counted = ground (
      arith,
      length-insert_new c.call_seq (clone_share fl sha256d now id sh d c) c.pending,
      s.fresh c.call_seq,
      s.counted,
    );
    fresh = λ k h. ground (
      arith,
      lookup-insert c.call_seq k (clone_share fl sha256d now id sh d c) c.pending,
      s.fresh k,
      h,
    );
    sorted =
        insert-Above 0 c.call_seq (clone_share fl sha256d now id sh d c) c.pending s.sorted
          (omega arith);
    current = s.current;
  }

  pub submit_share-IsSound :
      (now id : ℕ) (sh : Share) (c : Client F)
      → IsSound c
      → IsSound (submit_share fl sha256d now id sh c)
  unfolding submit_share
  submit_share-IsSound now id sh c s =
      elim (Bool-cases ((length sh.nonce == 8) && all_hex sh.nonce)) [
        | inl good ↦ elim (Option-cases (find sh.job_id c.job_workers)) [
          | inl e ↦ rw (good, e) s
          | inr (d, e) ↦ rw (good, e) (send_share-IsSound now id sh d c s)
        ]
        | inr bad ↦ rw bad s
      ]

  pub on_result-IsSound :
      (call : ℕ) (result : Bool) (c : Client F)
      → IsSound c
      → IsSound (on_result fl sha256d call result c)
  unfolding on_result count_result
  on_result-IsSound call result c s = elim (Option-cases (lookup call c.pending)) [
    | inl e ↦ rw (e, on_result) s
    | inr (sh, e) ↦ rw (e, on_result) (counts result sh e)
  ]
    where
      counts :
          (b : Bool) (sh : ShareClone F)
          → lookup call c.pending ≡ some sh
          → IsSound (count_result fl sha256d b sh (record c { pending = remove call c.pending }))
      counts true sh e = record {
        counted = ground (arith, length-remove 0 call sh c.pending s.sorted e, s.counted);
        fresh = λ k h. ground (arith, lookup-remove call k c.pending, s.fresh k h);
        sorted = remove-Above 0 call c.pending s.sorted;
        current = s.current;
      }
      counts false sh e = record {
        counted = ground (arith, length-remove 0 call sh c.pending s.sorted e, s.counted);
        fresh = λ k h. ground (arith, lookup-remove call k c.pending, s.fresh k h);
        sorted = remove-Above 0 call c.pending s.sorted;
        current = s.current;
      }

  pub set_extranonce-IsSound :
      (e1 : Bytes) (size : ℕ) (c : Client F)
      → IsSound c
      → IsSound (set_extranonce fl sha256d e1 size c)
  unfolding set_extranonce
  set_extranonce-IsSound e1 size c s = record {
    counted = s.counted;
    fresh = s.fresh;
    sorted = s.sorted;
    current = λ k d h.
        IsOf-moved c.job (update_extranonce fl sha256d e1 size c.job) d
          (update_extranonce-notice e1 size c.job) (s.current k d h);
  }

  pub new_client-IsSound : (id now : ℕ) → IsSound (new_client fl sha256d id now)
  unfolding new_client find lookup
  new_client-IsSound id now = record {
    counted = refl;
    fresh = λ k h. refl;
    sorted = tt;
    current = λ k d h. absurd (ground arith);
  }
