-- ===== src/Stratum/Job/Update.antt =====
-- What `updateJob` makes of a job: a new job starts a new counter with a header of its own; an
-- update of the job at hand goes on with the old header until the next extranonce.
use perfect_miner.Prelude.{
  ℕ, zero, suc, ◌^◌, ◌<◌, ◌≡◌, ◌≢◌, refl, ap, ◌∙◌, true, false, some, [], ◌∷◌, arith, length, inl,
  get_or, replicate, length-replicate,
}
use perfect_miner.Prelude.Floats.{Floats}
use perfect_miner.Bytes.{Bytes, copy, AllBytes}
use perfect_miner.Stratum.Header.{Notice, Extranonce}
use perfect_miner.Stratum.Header.Layout.{make_coinbase-layout}
use perfect_miner.Stratum.Job.{
  Job, WorkerData, same_job, install, update_job, put_nonce, refresh_header, hand_out, worker_data,
  get_block_header_for_worker,
}
use perfect_miner.Stratum.Job.Distinct.{IsReady, after, headers_distinct}
use perfect_miner.Stratum.Job.Match.{IsFresh, expected_header, header-matches_from}

replicate-AllBytes : (n : ℕ) → AllBytes (replicate n 0)
replicate-AllBytes zero = tt
replicate-AllBytes (suc n) = (omega arith, replicate-AllBytes n)

abbrev zeroed : Extranonce → Extranonce
zeroed e = record e { extranonce2_blob = replicate (length e.extranonce2_blob) 0 }

-- The lengths that `mining_notify` has checked.
pub record IsWellSized {F : Type 0} (n : Notice F) : Type 0 where
  pub version_fits : length n.version ≡ 4
  pub prevhash_fits : length n.prevhash ≡ 32
  pub ntime_fits : length n.ntime ≡ 4
  pub nbits_fits : length n.nbits ≡ 4

module _ (fl : Floats) (sha256d : Bytes → Bytes) where
  open fl use {F}

  install-IsReady :
      (id : ℕ) (n : Notice F) (e : Extranonce) (j : Job F)
      → IsReady fl sha256d (install fl sha256d id n (zeroed e) (0 ∷ 0 ∷ 0 ∷ 0 ∷ []) j)
  unfolding install
  install-IsReady id n e j = record {
    notice = n;
    extranonce = zeroed e;
    has_notice = refl;
    has_extranonce = refl;
    counting = record {
      nonce_length = refl;
      nonce_byte = omega arith;
      e2_bytes = replicate-AllBytes (length e.extranonce2_blob);
    };
  }

  install-IsFresh :
      (digest : (b : Bytes) → length (sha256d b) ≡ 32) (id : ℕ) (n : Notice F) (e : Extranonce)
      (j : Job F)
      → IsWellSized n
      → IsFresh fl sha256d digest
          (install fl sha256d id n (zeroed e) (0 ∷ 0 ∷ 0 ∷ 0 ∷ []) j)
          n
          (zeroed e)
  unfolding install
  install-IsFresh digest id n e j s = record {
    old_e2 = replicate (length e.extranonce2_blob) 0;
    old_nonce = 0 ∷ 0 ∷ 0 ∷ 0 ∷ [];
    coinbase = make_coinbase-layout n.coinb1 e.extranonce1_blob _ n.coinb2;
    same_length = refl;
    lengths = record {
      version_fits = s.version_fits;
      prevhash_fits = s.prevhash_fits;
      ntime_fits = s.ntime_fits;
      nbits_fits = s.nbits_fits;
      nonce_fits = refl;
    };
    built = inl refl;
  }

  update_job-new :
      (fresh : ℕ) (n : Notice F) (e : Extranonce) (j : Job F)
      → j.extranonce ≡ some e
      → length j.nonce_blob ≡ 4
      → same_job fl sha256d n j ≡ false
      → update_job fl sha256d fresh n j
        ≡ some (install fl sha256d fresh n (zeroed e) (0 ∷ 0 ∷ 0 ∷ 0 ∷ []) j)
  unfolding update_job install
  update_job-new fresh n e j he hl hs =
      rw (he, update_job)
        (rw hs (ap (λ l. some (install fl sha256d fresh n (zeroed e) (replicate l 0) j)) hl))

  -- Once updateJob has taken a job that the client did not have, in a client whose extranonce is set
  -- and whose nonce has 4 bytes, every header that is then asked for, as long as neither the job nor
  -- the extranonce is updated again in between, is the header of that job over the extranonces, the
  -- ntime and the nonce that are handed out beside it, where the parts of the job have the lengths
  -- that mining_notify checks and a digest has 32 bytes.
  pub new_job_headers :
      (digest : (b : Bytes) → length (sha256d b) ≡ 32) (fresh k : ℕ) (n : Notice F) (e : Extranonce)
      (j j' : Job F) (d : WorkerData F)
      → j.extranonce ≡ some e
      → length j.nonce_blob ≡ 4
      → same_job fl sha256d n j ≡ false
      → IsWellSized n
      → update_job fl sha256d fresh n j ≡ some j'
      → (get_block_header_for_worker fl sha256d (after fl sha256d k j')).0 ≡ some d
      → d.block_header_blob
        ≡ expected_header fl sha256d digest n d.extranonce1_blob d.extranonce2_blob d.ntime_blob
            d.nonce_blob
  unfolding install-IsReady
  new_job_headers digest fresh k n e j j' d he hl hs sized updated got =
      header-matches_from fl sha256d digest k start (install-IsReady fresh n e j)
        (install-IsFresh digest fresh n e j sized) d
        (ap (λ x. (get_block_header_for_worker fl sha256d (after fl sha256d k x)).0) same ∙ got)
    where
      start : Job F
      start = install fl sha256d fresh n (zeroed e) (0 ∷ 0 ∷ 0 ∷ 0 ∷ []) j

      same : start ≡ j'
      same = cc (update_job-new fresh n e j he hl hs)

  -- Once updateJob has taken a job that the client did not have, in a client whose extranonce is set
  -- and whose nonce has 4 bytes, no two of the first 256 ^ (extranonce2_size + 1) headers that are
  -- asked for one after the other, with no update of the job or of the extranonce in between, have
  -- both the nonce and the second extranonce in common.
  pub new_job_distinct :
      (fresh i k : ℕ) (n : Notice F) (e : Extranonce) (j j' : Job F) (a b : WorkerData F)
      → j.extranonce ≡ some e
      → length j.nonce_blob ≡ 4
      → same_job fl sha256d n j ≡ false
      → update_job fl sha256d fresh n j ≡ some j'
      → i < k
      → k < 256 ^ suc (length e.extranonce2_blob)
      → (get_block_header_for_worker fl sha256d (after fl sha256d i j')).0 ≡ some a
      → (get_block_header_for_worker fl sha256d (after fl sha256d k j')).0 ≡ some b
      → ¬ ((a.nonce_blob ≡ b.nonce_blob) × (a.extranonce2_blob ≡ b.extranonce2_blob))
  unfolding install-IsReady
  new_job_distinct fresh i k n e j j' a b he hl hs updated h l ga gb =
      headers_distinct fl sha256d i k start (install-IsReady fresh n e j) a b h
        (rw length-replicate l)
        (ap (λ x. (get_block_header_for_worker fl sha256d (after fl sha256d i x)).0) same ∙ ga)
        (ap (λ x. (get_block_header_for_worker fl sha256d (after fl sha256d k x)).0) same ∙ gb)
    where
      start : Job F
      start = install fl sha256d fresh n (zeroed e) (0 ∷ 0 ∷ 0 ∷ 0 ∷ []) j

      same : start ≡ j'
      same = cc (update_job-new fresh n e j he hl hs)

  -- An update of the job at hand, whatever it changes, leaves the header as it was, unless a header
  -- is due to be built anew: the worker gets the old header beside the new ntime.
  pub stale_header :
      (fresh : ℕ) (n : Notice F) (e : Extranonce) (j j' : Job F) (d : WorkerData F)
      → j.extranonce ≡ some e
      → get_or j.nonce_blob 3 0 ≢ 0
      → same_job fl sha256d n j ≡ true
      → update_job fl sha256d fresh n j ≡ some j'
      → (get_block_header_for_worker fl sha256d j').0 ≡ some d
      → (d.block_header_blob ≡ copy j.nonce_blob j.block_header_blob 76) × (d.ntime_blob ≡ n.ntime)
  unfolding update_job install get_block_header_for_worker hand_out worker_data put_nonce
      refresh_header
  stale_header fresh n e j j' d he hz hs updated got = ground arith
