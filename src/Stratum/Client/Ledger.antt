-- ===== src/Stratum/Client/Ledger.antt =====
-- What a history of `StratumClient` (ControlServer/Stratum/StratumClient.js) says of its shares, beside
-- what the client has counted and told.
use perfect_miner.Prelude.{
  ℕ, suc, ◌+◌, ◌≡◌, refl, ap, subst, sym, ◌∙◌, Bool, true, false, Option, none, some, List, [], ◌∷◌,
  ◌++◌, length, ◌&&◌, ◌==◌, Bool-cases, Option-cases, inl, inr, append_assoc, append-nil,
  length-append, ap₂, arith,
}
use perfect_miner.Prelude.Text.{Text}
use perfect_miner.Prelude.KeyMap.{lookup, remove, lookup-insert_cases, lookup_kept}
use perfect_miner.Prelude.Floats.{Floats}
use perfect_miner.Bytes.{Bytes}
use perfect_miner.Bytes.Hex.{all_hex}
use perfect_miner.Stratum.Header.{Notice}
use perfect_miner.Stratum.Job.{Job, WorkerData, same_job, update_job, get_block_header_for_worker}
use perfect_miner.Stratum.Client.{
  Share, ShareClone, Output, mining_submit, accepted_share, rejected_share, Client, find,
  new_client, reg_job, take_header, get_job, clean_jobs, take_job, update_client, set_extranonce,
  clone_share, send_share, submit_share, count_result, on_result,
}
use perfect_miner.Stratum.Client.Shares.{IsSound}
use perfect_miner.Stratum.Client.History.{
  Reach, start, notified, extranonce_set, header_asked, share_found, answered, Reach-IsSound,
}

module _ (fl : Floats) (sha256d : Bytes → Bytes) where
  open fl use {F}

  abbrev pub add_found : Option (ShareClone F) → List (ShareClone F) → List (ShareClone F)
  add_found none ss = ss
  add_found (some s) ss = ss ++ s ∷ []

  -- The shares whose call the pool has answered with true, and those with false.
  abbrev pub answers : Bool → {c : Client F} → Reach fl sha256d c → List (ShareClone F)
  answers b (start id now) = []
  answers b (notified fresh n r e) = answers b r
  answers b (extranonce_set e1 size r) = answers b r
  answers b (header_asked key r) = answers b r
  answers b (share_found now id s r) = answers b r
  answers true (answered call true {c} r) = add_found (lookup call c.pending) (answers true r)
  answers true (answered call false r) = answers true r
  answers false (answered call true r) = answers false r
  answers false (answered call false {c} r) = add_found (lookup call c.pending) (answers false r)

  -- What was told of the shares.
  abbrev pub submits : List (Output F) → ℕ
  submits [] = 0
  submits (mining_submit call job e2 time nonce ∷ os) = suc (submits os)
  submits (accepted_share s ∷ os) = submits os
  submits (rejected_share s ∷ os) = submits os

  abbrev pub accepts : List (Output F) → List (ShareClone F)
  accepts [] = []
  accepts (mining_submit call job e2 time nonce ∷ os) = accepts os
  accepts (accepted_share s ∷ os) = s ∷ accepts os
  accepts (rejected_share s ∷ os) = accepts os

  abbrev pub rejects : List (Output F) → List (ShareClone F)
  rejects [] = []
  rejects (mining_submit call job e2 time nonce ∷ os) = rejects os
  rejects (accepted_share s ∷ os) = rejects os
  rejects (rejected_share s ∷ os) = s ∷ rejects os

  abbrev pub submit_of : ℕ → ShareClone F → Output F
  submit_of call s =
      mining_submit call s.job.job_id s.job.extranonce2_blob s.job.ntime_blob s.share.nonce

  abbrev pub WasTold : Output F → List (Output F) → Type 0
  WasTold o os =
      (before : List (Output F)) × ((after : List (Output F)) × (os ≡ before ++ o ∷ after))

  pub record IsBooked (c : Client F) (good bad : List (ShareClone F)) : Type 0 where
    pub sent : c.share_count ≡ submits c.outputs
    pub told_yes : accepts c.outputs ≡ good
    pub told_no : rejects c.outputs ≡ bad
    pub counted_yes : c.accepted_share_count ≡ length good
    pub counted_no : c.rejected_share_count ≡ length bad
    pub waits :
        (call : ℕ) (s : ShareClone F)
        → lookup call c.pending ≡ some s
        → WasTold (submit_of call s) c.outputs

  submits-append : (os ps : List (Output F)) → submits (os ++ ps) ≡ submits os + submits ps
  submits-append [] ps = omega arith
  submits-append (mining_submit call job e2 time nonce ∷ os) ps =
      omega (arith, submits-append os ps)
  submits-append (accepted_share s ∷ os) ps = submits-append os ps
  submits-append (rejected_share s ∷ os) ps = submits-append os ps

  accepts-append : (os ps : List (Output F)) → accepts (os ++ ps) ≡ accepts os ++ accepts ps
  accepts-append [] ps = refl
  accepts-append (mining_submit call job e2 time nonce ∷ os) ps = accepts-append os ps
  accepts-append (accepted_share s ∷ os) ps = ap (λ l. s ∷ l) (accepts-append os ps)
  accepts-append (rejected_share s ∷ os) ps = accepts-append os ps

  rejects-append : (os ps : List (Output F)) → rejects (os ++ ps) ≡ rejects os ++ rejects ps
  rejects-append [] ps = refl
  rejects-append (mining_submit call job e2 time nonce ∷ os) ps = rejects-append os ps
  rejects-append (accepted_share s ∷ os) ps = rejects-append os ps
  rejects-append (rejected_share s ∷ os) ps = ap (λ l. s ∷ l) (rejects-append os ps)

  WasTold-later : (o p : Output F) (os : List (Output F)) → WasTold o os → WasTold o (os ++ p ∷ [])
  WasTold-later o p os (before, (after, e)) = (
    before,
    (after ++ p ∷ [], ap (λ l. l ++ p ∷ []) e ∙ append_assoc before (o ∷ after) (p ∷ [])),
  )

  -- Only the fields that the books are about matter.
  moved :
      (c c' : Client F) (good bad : List (ShareClone F))
      → c'.share_count ≡ c.share_count
      → c'.accepted_share_count ≡ c.accepted_share_count
      → c'.rejected_share_count ≡ c.rejected_share_count
      → c'.pending ≡ c.pending
      → c'.outputs ≡ c.outputs
      → IsBooked c good bad
      → IsBooked c' good bad
  moved c c' good bad a b d p o k = record {
    sent = a ∙ k.sent ∙ ap submits (sym o);
    told_yes = ap accepts o ∙ k.told_yes;
    told_no = ap rejects o ∙ k.told_no;
    counted_yes = b ∙ k.counted_yes;
    counted_no = d ∙ k.counted_no;
    waits = λ call s h.
        let (before, (after, e)) = k.waits call s (ap (lookup call) (sym p) ∙ h) in
        (before, (after, o ∙ e));
  }

  -- The share that is sent now waits for its result.
  send_share-IsBooked :
      (now id : ℕ) (sh : Share) (d : WorkerData F) (c : Client F) (good bad : List (ShareClone F))
      → IsBooked c good bad
      → IsBooked (send_share fl sha256d now id sh d c) good bad
  unfolding send_share clone_share
  send_share-IsBooked now id sh d c good bad k = record {
    sent = omega (
      arith,
      k.sent,
      submits-append c.outputs
          (mining_submit c.call_seq d.job_id d.extranonce2_blob d.ntime_blob sh.nonce ∷ []),
    );
    told_yes = accepts-append c.outputs _ ∙ append-nil _ ∙ k.told_yes;
    told_no = rejects-append c.outputs _ ∙ append-nil _ ∙ k.told_no;
    counted_yes = k.counted_yes;
    counted_no = k.counted_no;
    waits = λ call s h. elim (lookup-insert_cases c.call_seq call _ s c.pending h) [
      | inl (here, same) ↦
          (c.outputs, ([], sym (ap₂ (λ n t. c.outputs ++ submit_of n t ∷ []) here same)))
      | inr (other, old) ↦ WasTold-later _ _ c.outputs (k.waits call s old)
    ];
  }

  submit_share-IsBooked :
      (now id : ℕ) (sh : Share) (c : Client F) (good bad : List (ShareClone F))
      → IsBooked c good bad
      → IsBooked (submit_share fl sha256d now id sh c) good bad
  unfolding submit_share
  submit_share-IsBooked now id sh c good bad k =
      elim (Bool-cases ((length sh.nonce == 8) && all_hex sh.nonce)) [
        | inl fine ↦ elim (Option-cases (find sh.job_id c.job_workers)) [
          | inl e ↦ rw (fine, e) k
          | inr (d, e) ↦ rw (fine, e) (send_share-IsBooked now id sh d c good bad k)
        ]
        | inr wrong ↦ rw wrong k
      ]

  -- A share whose call is answered is told of, and waits no more.
  module _ (c : Client F) (call : ℕ) (s : ShareClone F) (good bad : List (ShareClone F))
      (k : IsBooked c good bad) where
    settled : Client F
    settled = record c { pending = remove call c.pending }

    still :
        (o : Output F) (other : ℕ) (t : ShareClone F)
        → lookup other (remove call c.pending) ≡ some t
        → WasTold (submit_of other t) (c.outputs ++ o ∷ [])
    still o other t h =
        WasTold-later _ o c.outputs (k.waits other t (lookup_kept call other t c.pending h).1)

    accepted-IsBooked : IsBooked (count_result fl sha256d true s settled) (good ++ s ∷ []) bad
    unfolding count_result settled
    accepted-IsBooked = record {
      sent = omega (arith, k.sent, submits-append c.outputs (accepted_share s ∷ []));
      told_yes = accepts-append c.outputs _ ∙ ap (λ l. l ++ s ∷ []) k.told_yes;
      told_no = rejects-append c.outputs _ ∙ append-nil _ ∙ k.told_no;
      counted_yes = omega (arith, k.counted_yes, length-append good (s ∷ []));
      counted_no = k.counted_no;
      waits = still (accepted_share s);
    }

    rejected-IsBooked : IsBooked (count_result fl sha256d false s settled) good (bad ++ s ∷ [])
    unfolding count_result settled
    rejected-IsBooked = record {
      sent = omega (arith, k.sent, submits-append c.outputs (rejected_share s ∷ []));
      told_yes = accepts-append c.outputs _ ∙ append-nil _ ∙ k.told_yes;
      told_no = rejects-append c.outputs _ ∙ ap (λ l. l ++ s ∷ []) k.told_no;
      counted_yes = k.counted_yes;
      counted_no = omega (arith, k.counted_no, length-append bad (s ∷ []));
      waits = still (rejected_share s);
    }

  get_job-IsBooked :
      (key : Text) (c : Client F) (good bad : List (ShareClone F))
      → IsBooked c good bad
      → IsBooked (get_job fl sha256d key c).1 good bad
  unfolding get_job take_header reg_job
  get_job-IsBooked key c good bad k = taken (get_block_header_for_worker fl sha256d c.job).0 _
    where
      taken :
          (d : Option (WorkerData F)) (j : Job F)
          → IsBooked (take_header fl sha256d key d j c).1 good bad
      taken none j = moved c _ good bad refl refl refl refl refl k
      taken (some d) j = moved c _ good bad refl refl refl refl refl k

  update_client-IsBooked :
      (fresh : ℕ) (n : Notice F) (c c' : Client F) (good bad : List (ShareClone F))
      → update_client fl sha256d fresh n c ≡ some c'
      → IsBooked c good bad
      → IsBooked c' good bad
  unfolding update_client clean_jobs take_job
  update_client-IsBooked fresh n c c' good bad e k =
      elim (Option-cases (update_job fl sha256d fresh n c.job)) [
        | inl crash ↦ absurd (ground arith)
        | inr (j, updated) ↦ elim (Bool-cases (same_job fl sha256d n c.job)) [
          | inl same ↦
              let end : record c { job = j } ≡ c' = ground arith in
              subst (λ x. IsBooked x good bad) end (moved c _ good bad refl refl refl refl refl k)
          | inr other ↦
              let end : record c { job = j; job_workers = [] } ≡ c' = ground arith in
              subst (λ x. IsBooked x good bad) end (moved c _ good bad refl refl refl refl refl k)
        ]
      ]

  Reach-IsBooked :
      {c : Client F} (r : Reach fl sha256d c) → IsBooked c (answers true r) (answers false r)
  unfolding new_client set_extranonce on_result settled
  Reach-IsBooked (start id now) = record {
    sent = refl;
    told_yes = refl;
    told_no = refl;
    counted_yes = refl;
    counted_no = refl;
    waits = λ call s h. absurd (unfold lookup in ground arith);
  }
  Reach-IsBooked (notified fresh n {c} {c'} r e) =
      update_client-IsBooked fresh n c c' _ _ e (Reach-IsBooked r)
  Reach-IsBooked (extranonce_set e1 size {c} r) =
      moved c _ _ _ refl refl refl refl refl (Reach-IsBooked r)
  Reach-IsBooked (header_asked key {c} r) = get_job-IsBooked key c _ _ (Reach-IsBooked r)
  Reach-IsBooked (share_found now id s {c} r) =
      submit_share-IsBooked now id s c _ _ (Reach-IsBooked r)
  Reach-IsBooked (answered call true {c} r) = elim (Option-cases (lookup call c.pending)) [
    | inl e ↦ rw (e, on_result) (Reach-IsBooked r)
    | inr (s, e) ↦ rw (e, on_result) (accepted-IsBooked c call s _ _ (Reach-IsBooked r))
  ]
  Reach-IsBooked (answered call false {c} r) = elim (Option-cases (lookup call c.pending)) [
    | inl e ↦ rw (e, on_result) (Reach-IsBooked r)
    | inr (s, e) ↦ rw (e, on_result) (rejected-IsBooked c call s _ _ (Reach-IsBooked r))
  ]

  -- In every history of a client, one mining.submit was sent for each share that is counted; the
  -- accepted shares, as counted and as told to the program, are those whose call the pool answered
  -- with true while they were waiting, in this order, and the rejected ones those answered with
  -- false; each share that waits under the number of a call was sent under this number with its own
  -- job id, second extranonce, ntime and nonce; the shares that are counted are the accepted, the
  -- rejected and the waiting ones; and every header that a share may be submitted for is one of the
  -- pool's job at hand.
  pub shares_lem :
      {c : Client F} (r : Reach fl sha256d c)
      → IsSound fl sha256d c × IsBooked c (answers true r) (answers false r)
  shares_lem r = (Reach-IsSound fl sha256d r, Reach-IsBooked r)
