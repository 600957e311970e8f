-- ===== src/Stratum/Pool/Headers.antt =====
-- From the message of a pool to the headers of the workers.
use perfect_miner.Prelude.{
  ℕ, ◌≤◌, ◌+◌, ◌≡◌, refl, ap, ◌∙◌, Bool, true, false, Option, none, some, List, length, arith,
  is_some, ◌>>=◌, Option-cases, Bool-cases, inl, inr,
}
use perfect_miner.Prelude.Int.{ℤ}
use perfect_miner.Prelude.Floats.{Floats}
use perfect_miner.Bytes.{Bytes}
use perfect_miner.Json.{Value, array, Values, items}
use perfect_miner.Common.Checks.{check_hex, check_array}
use perfect_miner.Stratum.Header.{Notice, Extranonce}
use perfect_miner.Stratum.Job.{Job, WorkerData, same_job, update_job, get_block_header_for_worker}
use perfect_miner.Stratum.Job.Distinct.{after}
use perfect_miner.Stratum.Job.Match.{expected_header}
use perfect_miner.Stratum.Job.Update.{IsWellSized, new_job_headers}
use perfect_miner.Stratum.Client.{Client, update_client, take_job, clean_jobs}
use perfect_miner.Stratum.Client.Blobs.{Reach-nonce}
use perfect_miner.Stratum.Values.{has_no_length, is_null, read_hex, second, pair_at, read_array}
use perfect_miner.Stratum.Pool.{
  Pool, read_size, mining_set_extranonce, set_extranonce1, tell_job, done, type_error, tell,
  read_notice, mining_notify, has_extranonce, take_notice, refuse, close, set_size,
}
use perfect_miner.Stratum.Pool.Notify.{read_notice-IsWellSized}
use perfect_miner.Stratum.Pool.Kept.{IsKept}
use perfect_miner.Stratum.Pool.History.{Reach, Reach-IsKept}

module _ (fl : Floats) (sha256d : Bytes → Bytes) where
  open fl use {F}

  update_job-given :
      (fresh : ℕ) (n : Notice F) (j : Job F)
      → is_some j.extranonce ≡ true
      → (j' : Job F) × (update_job fl sha256d fresh n j ≡ some j')
  unfolding update_job
  update_job-given fresh n j h = elim (Option-cases (update_job fl sha256d fresh n j)) [
    | inl e ↦ absurd (ground arith)
    | inr given ↦ given
  ]

  update_job-some :
      (fresh : ℕ) (n : Notice F) (j j' : Job F)
      → update_job fl sha256d fresh n j ≡ some j'
      → (e : Extranonce) × (j.extranonce ≡ some e)
  unfolding update_job
  update_job-some fresh n j j' h = elim (Option-cases j.extranonce) [
    | inl e ↦ absurd (ground arith)
    | inr given ↦ given
  ]

  update_client-given :
      (fresh : ℕ) (n : Notice F) (c : Client F)
      → is_some c.job.extranonce ≡ true
      → (c' : Client F) × (update_client fl sha256d fresh n c ≡ some c')
  unfolding update_client take_job
  update_client-given fresh n c h =
      let (j, given) = update_job-given fresh n c.job h in
      elim (Option-cases (update_client fl sha256d fresh n c)) [
        | inl e ↦ absurd (ground arith)
        | inr given ↦ given
      ]

  update_client-job :
      (fresh : ℕ) (n : Notice F) (c c' : Client F)
      → update_client fl sha256d fresh n c ≡ some c'
      → update_job fl sha256d fresh n c.job ≡ some c'.job
  unfolding update_client take_job clean_jobs
  update_client-job fresh n c c' e = elim (Option-cases (update_job fl sha256d fresh n c.job)) [
    | inl refused ↦ absurd (ground arith)
    | inr (j, taken) ↦ let same : j ≡ c'.job = ground arith in taken ∙ ap some same
  ]

  take_notice-given :
      (fresh : ℕ) (n : Notice F) (p : Pool F)
      → is_some p.client.job.extranonce ≡ true
      → (b : Bool) × (p' : Pool F) × (take_notice fl sha256d fresh n p ≡ done b p')
  unfolding take_notice
  take_notice-given fresh n p h =
      let (c, e) = update_client-given fresh n p.client h in
      (false, tell_job (same_job fl sha256d n p.client.job) c p, rw (e, take_notice) refl)

  -- A notice that is counted as a job was none of the job at hand.
  take_notice-counted :
      (fresh : ℕ) (n : Notice F) (p p' : Pool F) (b : Bool)
      → take_notice fl sha256d fresh n p ≡ done b p'
      → p'.job_count ≡ p.job_count + 1
      → (same_job fl sha256d n p.client.job ≡ false)
        × (update_job fl sha256d fresh n p.client.job ≡ some p'.client.job)
  unfolding take_notice tell tell_job
  take_notice-counted fresh n p p' b e h =
      elim (Option-cases (update_client fl sha256d fresh n p.client)) [
        | inl refused ↦ absurd (ground arith)
        | inr (c, taken) ↦
            let same : c.job ≡ p'.client.job = ground arith in
            (ground arith, update_client-job fresh n p.client c taken ∙ ap some same)
      ]

module _ (fl : Floats) (sha256d : Bytes → Bytes) (parse_float : Value fl.F → fl.F)
    (to_integer : Value fl.F → Option ℤ) where
  open fl use {F}

  -- In a pool that has a history and is not closed, every `mining.notify`, whatever its values are, is
  -- handled without an exception.
  pub mining_notify_done :
      (fresh : ℕ) (params : Value F) (p : Pool F)
      → Reach fl sha256d parse_float to_integer p
      → p.closed ≡ false
      → (b : Bool) × (p' : Pool F) × (mining_notify fl sha256d parse_float to_integer fresh params p
          ≡ done b p')
  unfolding mining_notify refuse
  mining_notify_done fresh params p r still = elim (Bool-cases (has_extranonce p)) [
    | inr missing ↦ (false, close p, rw missing refl)
    | inl given ↦ elim (Option-cases (read_array params)) [
      | inl e ↦ (false, close p, rw given (rw e refl))
      | inr (vs, e) ↦ elim (Option-cases (read_notice fl sha256d parse_float to_integer vs p)) [
        | inl bad ↦ (false, close p, rw given (rw e (rw bad refl)))
        | inr (n, good) ↦
            let k : IsKept fl sha256d p = Reach-IsKept fl sha256d parse_float to_integer r in
            let (b, p', taken) = take_notice-given fl sha256d fresh n p (k.ready still given) in
            (b, p', rw given (rw e (rw good taken)))
      ]
    ]
  ]

  -- In a pool that has a history, a `mining.notify` after which one more job is counted was a notice
  -- of nine values with parts of the right lengths, and every header that is then asked for, as long
  -- as no further message of the pool (a notice or an extranonce) has come in between, is the header
  -- of this notice over the extranonces, the ntime and the nonce that are handed out beside it, where
  -- a digest has 32 bytes.
  pub accepted_headers :
      (digest : (b : Bytes) → length (sha256d b) ≡ 32) (fresh k : ℕ) (params : Value F) (b : Bool)
      (p p' : Pool F) (d : WorkerData F)
      → Reach fl sha256d parse_float to_integer p
      → mining_notify fl sha256d parse_float to_integer fresh params p ≡ done b p'
      → p'.job_count ≡ p.job_count + 1
      → (get_block_header_for_worker fl sha256d (after fl sha256d k p'.client.job)).0 ≡ some d
      → (n : Notice F) × ((read_array params >>= λ vs.
            read_notice fl sha256d parse_float to_integer vs p)
          ≡ some n)
        × (d.block_header_blob
            ≡ expected_header fl sha256d digest n d.extranonce1_blob d.extranonce2_blob d.ntime_blob
                d.nonce_blob)
  unfolding mining_notify refuse close
  accepted_headers digest fresh k params b p p' d r e counted got =
      elim (Bool-cases (has_extranonce p)) [
        | inr missing ↦ absurd (ground arith)
        | inl given ↦ elim (Option-cases (read_array params)) [
          | inl f ↦ absurd (ground arith)
          | inr (vs, f) ↦ elim (Option-cases (read_notice fl sha256d parse_float to_integer vs p)) [
            | inl bad ↦ absurd (ground arith)
            | inr (n, good) ↦
                let taken : take_notice fl sha256d fresh n p ≡ done b p' = ground arith in
                let (new, updated) = take_notice-counted fl sha256d fresh n p p' b taken counted in
                (
                  n,
                  rw (f, good) refl,
                  headers n new updated
                      (read_notice-IsWellSized fl sha256d parse_float to_integer vs p n good).0,
                )
          ]
        ]
      ]
    where
      headers :
          (n : Notice F)
          → same_job fl sha256d n p.client.job ≡ false
          → update_job fl sha256d fresh n p.client.job ≡ some p'.client.job
          → IsWellSized n
          → d.block_header_blob
            ≡ expected_header fl sha256d digest n d.extranonce1_blob d.extranonce2_blob d.ntime_blob
                d.nonce_blob
      headers n new updated sized =
          let (e1, he) = update_job-some fl sha256d fresh n p.client.job p'.client.job updated in
          new_job_headers fl sha256d digest fresh k n e1 p.client.job p'.client.job d he
            (Reach-nonce fl sha256d
              (Reach-IsKept fl sha256d parse_float to_integer r).counted.history)
            new sized updated got

  text_value :
      (v : Value F) (blob : Bytes)
      → read_hex none v ≡ some blob
      → (has_no_length v ≡ false) × (is_null v ≡ false)
  unfolding has_no_length is_null read_hex check_hex
  text_value v blob h = (ground arith, ground arith)

  refused_size :
      (v size : Value F) (blob : Bytes) (p p' : Pool F)
      → read_hex none v ≡ some blob
      → length blob ≤ 16
      → set_extranonce1 fl sha256d parse_float to_integer v size p ≡ done false p'
      → p'
        ≡ close (record p {
          extranonce2_size = some (read_size fl sha256d parse_float to_integer size);
        })
  unfolding set_extranonce1 set_size refuse
  refused_size v size blob p p' h short refused =
      let (fine, _) = text_value v blob h in ground arith

  -- A first extranonce that is refused for its size alone stays in the client: a good notice that
  -- still comes is a TypeError, where a client without an extranonce would refuse it.
  pub refused_extranonce-type_error :
      (fresh : ℕ) (v size : Value F) (blob : Bytes) (vs : List (Value F)) (params : Value F)
      (n : Notice F) (p p' : Pool F)
      → p.client.job.extranonce ≡ none
      → read_hex none v ≡ some blob
      → length blob ≤ 16
      → mining_set_extranonce fl sha256d parse_float to_integer
          (array (Values.cons v (Values.cons size Values.nil)))
          0
          p
        ≡ done false p'
      → read_array params ≡ some vs
      → read_notice fl sha256d parse_float to_integer vs p' ≡ some n
      → mining_notify fl sha256d parse_float to_integer fresh params p' ≡ type_error p'
  unfolding mining_notify mining_set_extranonce check_array items pair_at second take_notice
      update_client update_job take_job close has_extranonce
  refused_extranonce-type_error fresh v size blob vs params n p p' none_yet h short refused read
        good =
      let stored : Pool F = record p { extranonce1 = v } in
      let same : p'
          ≡ close (record stored {
            extranonce2_size = some (read_size fl sha256d parse_float to_integer size);
          }) =
        refused_size v size blob stored p' h short refused in
      let given : has_extranonce p' ≡ true =
        ap has_extranonce same ∙ rw (text_value v blob h).1 refl in
      let job : p'.client.job.extranonce ≡ none =
        ap (λ (q : Pool F). q.client.job.extranonce) same ∙ none_yet in
      rw given (rw read (rw good (rw (job, update_job) refl)))
