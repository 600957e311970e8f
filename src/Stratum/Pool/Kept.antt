-- ===== src/Stratum/Pool/Kept.antt =====
-- What the client of a pool keeps, and the steps that keep it without a look at the values.
use perfect_miner.Prelude.{
  ℕ, suc, ◌+◌, ◌≡◌, refl, ◌∙◌, Bool, true, false, ◌||◌, some, List, [], ◌∷◌, ◌++◌, arith, ltb, bit,
  is_some, Option-cases, Bool-cases, inl, inr,
}
use perfect_miner.Prelude.Int.{ℤ, pos, negsuc}
use perfect_miner.Prelude.Floats.{Floats}
use perfect_miner.Bytes.{Bytes}
use perfect_miner.Stratum.Header.{Notice}
use perfect_miner.Stratum.Job.{same_job, update_extranonce}
use perfect_miner.Stratum.Client.{Client, update_client, set_extranonce}
use perfect_miner.Stratum.Client.History.{Reach, notified, extranonce_set}
use perfect_miner.Stratum.Client.Blobs.{update_client-extranonce}
use perfect_miner.Stratum.Pool.{
  Message, disconnect, accepted_job, Pool, Outcome, done, type_error, reference_error, tell, close,
  refuse, set_size, take_notice, has_extranonce, tell_job,
}

abbrev pub disconnects : List Message → ℕ
disconnects [] = 0
disconnects (Message.disconnect ∷ ms) = suc (disconnects ms)
disconnects (m ∷ ms) = disconnects ms

abbrev pub accepted_jobs : List Message → ℕ
accepted_jobs [] = 0
accepted_jobs (Message.accepted_job ∷ ms) = suc (accepted_jobs ms)
accepted_jobs (m ∷ ms) = accepted_jobs ms

disconnects-append :
    (ms ns : List Message) → disconnects (ms ++ ns) ≡ disconnects ms + disconnects ns
disconnects-append [] ns = omega arith
disconnects-append (m ∷ ms) ns = ground (arith, disconnects-append ms ns)

accepted_jobs-append :
    (ms ns : List Message) → accepted_jobs (ms ++ ns) ≡ accepted_jobs ms + accepted_jobs ns
accepted_jobs-append [] ns = omega arith
accepted_jobs-append (m ∷ ms) ns = ground (arith, accepted_jobs-append ms ns)

module _ (fl : Floats) (sha256d : Bytes → Bytes) where
  open fl use {F}

  -- The client has a history; the program was told of each accepted job, and the connection was asked
  -- to close once if the pool is closed, else never.
  pub record IsCounted (p : Pool F) : Type 0 where
    pub history : Reach fl sha256d p.client
    pub told_once : disconnects p.messages ≡ bit p.closed
    pub told_jobs : accepted_jobs p.messages ≡ p.job_count

  -- And a pool that is not closed does not take a notice without an extranonce in the job.
  pub record IsKept (p : Pool F) : Type 0 where
    pub counted : IsCounted p
    pub ready : p.closed ≡ false → has_extranonce p ≡ true → is_some p.client.job.extranonce ≡ true

  -- What holds of the pool unless there was an exception.
  abbrev pub Holds : (Pool F → Type 0) → Outcome F → Type 0
  Holds P (done b p) = P p
  Holds P (type_error p) = Unit
  Holds P (reference_error p) = Unit

  pub close-IsKept : (p : Pool F) → IsCounted p → IsKept (close p)
  unfolding close tell
  close-IsKept p k = record {
    counted = record {
      history = k.history;
      told_once = ground (arith, k.told_once, disconnects-append p.messages (disconnect ∷ []));
      told_jobs = ground (arith, k.told_jobs, accepted_jobs-append p.messages (disconnect ∷ []));
    };
    ready = λ open_still given. absurd (ground arith);
  }

  pub refuse-IsKept : (p : Pool F) → IsCounted p → Holds IsKept (refuse p)
  unfolding refuse
  refuse-IsKept p k = close-IsKept p k

  pub tell-IsCounted :
      (m : Message) (p : Pool F)
      → disconnects (m ∷ []) ≡ 0
      → accepted_jobs (m ∷ []) ≡ 0
      → IsCounted p
      → IsCounted (tell m p)
  unfolding tell
  tell-IsCounted m p no_disconnect no_job k = record {
    history = k.history;
    told_once = disconnects-append p.messages (m ∷ []) ∙ omega (arith, k.told_once, no_disconnect);
    told_jobs = accepted_jobs-append p.messages (m ∷ []) ∙ omega (arith, k.told_jobs, no_job);
  }

  pub take_notice-IsKept :
      (fresh : ℕ) (n : Notice F) (p : Pool F)
      → has_extranonce p ≡ true
      → IsKept p
      → Holds IsKept (take_notice fl sha256d fresh n p)
  unfolding take_notice tell tell_job
  take_notice-IsKept fresh n p given k =
      elim (Option-cases (update_client fl sha256d fresh n p.client)) [
        | inl e ↦ rw (e, Holds) tt
        | inr (c, e) ↦ rw (e, Holds) (taken c e (same_job fl sha256d n p.client.job))
      ]
    where
      history :
          (c : Client F) → update_client fl sha256d fresh n p.client ≡ some c → Reach fl sha256d c
      history c e = notified fresh n k.counted.history e

      ready :
          (c : Client F)
          → update_client fl sha256d fresh n p.client ≡ some c
          → p.closed ≡ false
          → is_some c.job.extranonce ≡ true
      ready c e still =
          update_client-extranonce fl sha256d fresh n p.client c e ∙ k.ready still given

      taken :
          (c : Client F)
          → update_client fl sha256d fresh n p.client ≡ some c
          → (b : Bool) → IsKept (tell_job b c p)
      taken c e true = record {
        counted = record {
          history = history c e;
          told_once =
              disconnects-append p.messages (Message.update_job ∷ [])
              ∙ omega (arith, k.counted.told_once);
          told_jobs =
              accepted_jobs-append p.messages (Message.update_job ∷ [])
              ∙ omega (arith, k.counted.told_jobs);
        };
        ready = λ still _. ready c e still;
      }
      taken c e false = record {
        counted = record {
          history = history c e;
          told_once =
              disconnects-append p.messages (accepted_job ∷ [])
              ∙ omega (arith, k.counted.told_once);
          told_jobs =
              accepted_jobs-append p.messages (accepted_job ∷ [])
              ∙ omega (arith, k.counted.told_jobs);
        };
        ready = λ still _. ready c e still;
      }

  pub set_size-IsKept :
      (blob : Bytes) (size : ℤ) (p : Pool F)
      → IsCounted p
      → Holds IsKept (set_size fl sha256d blob size p)
  unfolding set_size set_extranonce update_extranonce
  set_size-IsKept blob (negsuc n) p k = refuse-IsKept p k
  set_size-IsKept blob (pos n) p k = elim (Bool-cases (ltb n 2 || ltb 16 n)) [
    | inl bad ↦ rw (bad, Holds) (refuse-IsKept p k)
    | inr good ↦
        rw (good, Holds)
          (record {
            counted = record {
              history = extranonce_set blob n k.history;
              told_once = k.told_once;
              told_jobs = k.told_jobs;
            };
            ready = λ _ _. refl;
          })
  ]
