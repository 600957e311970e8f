-- ===== src/Stratum/Client/Blobs.antt =====
-- The nonce of a client keeps its four bytes, and an extranonce, once set, stays set.
use perfect_miner.Prelude.{
  ℕ, ◌+◌, ◌≡◌, refl, subst, sym, ◌∙◌, Bool, some, length, arith, length-replicate, length-set,
  get_or, is_some, Option-cases, inl, inr,
}
use perfect_miner.Prelude.Text.{Text}
use perfect_miner.Prelude.Floats.{Floats}
use perfect_miner.Bytes.{Bytes}
use perfect_miner.Stratum.Header.{Notice}
use perfect_miner.Stratum.Job.{
  Job, install, update_job, update_extranonce, get_block_header_for_worker, hand_out, put_nonce,
  refresh_header, step_nonce, new_job,
}
use perfect_miner.Stratum.Client.{
  Share, Client, new_client, reg_job, take_header, get_job, clean_jobs, take_job, update_client,
  set_extranonce, send_share, submit_share, count_result, on_result,
}
use perfect_miner.Stratum.Client.History.{
  Reach, start, notified, extranonce_set, header_asked, share_found, answered,
}

module _ (fl : Floats) (sha256d : Bytes → Bytes) where
  open fl use {F}

  pub data Keeps (i j : Job F) : Type 0 where
    keeps :
        length j.nonce_blob ≡ length i.nonce_blob
        → is_some j.extranonce ≡ is_some i.extranonce
        → Keeps i j

  get_header-Keeps : (j : Job F) → Keeps j (get_block_header_for_worker fl sha256d j).1
  unfolding get_block_header_for_worker hand_out put_nonce refresh_header step_nonce
  get_header-Keeps j =
      keeps
        (ground (
          arith,
          length-set j.nonce_blob 3 0,
          length-set j.nonce_blob 3 (get_or j.nonce_blob 3 0 + 1),
        ))
        (ground arith)

  pub update_job-Keeps :
      (fresh : ℕ) (n : Notice F) (j j' : Job F)
      → update_job fl sha256d fresh n j ≡ some j'
      → Keeps j j'
  unfolding update_job install
  update_job-Keeps fresh n j j' e =
      keeps (ground (arith, length-replicate {A = ℕ} (length j.nonce_blob) 0)) (ground arith)

  update_client-Keeps :
      (fresh : ℕ) (n : Notice F) (c c' : Client F)
      → update_client fl sha256d fresh n c ≡ some c'
      → Keeps c.job c'.job
  unfolding update_client take_job clean_jobs
  update_client-Keeps fresh n c c' e = elim (Option-cases (update_job fl sha256d fresh n c.job)) [
    | inl refused ↦ absurd (ground arith)
    | inr (j, taken) ↦
        let same : j ≡ c'.job = ground arith in
        subst (Keeps c.job) same (update_job-Keeps fresh n c.job j taken)
  ]

  get_job-Keeps : (key : Text) (c : Client F) → Keeps c.job (get_job fl sha256d key c).1.job
  unfolding get_job take_header reg_job
  get_job-Keeps key c =
      let same : (get_job fl sha256d key c).1.job
          ≡ (get_block_header_for_worker fl sha256d c.job).1 =
        ground arith in
      subst (Keeps c.job) (sym same) (get_header-Keeps c.job)

  pub submit_share-job :
      (now id : ℕ) (s : Share) (c : Client F) → (submit_share fl sha256d now id s c).job ≡ c.job
  unfolding submit_share send_share
  submit_share-job now id s c = ground arith

  pub on_result-job :
      (call : ℕ) (result : Bool) (c : Client F) → (on_result fl sha256d call result c).job ≡ c.job
  unfolding on_result count_result
  on_result-job call result c = ground arith

  Keeps-nonce : {i j : Job F} → Keeps i j → length i.nonce_blob ≡ 4 → length j.nonce_blob ≡ 4
  Keeps-nonce (keeps e _) h = e ∙ h

  -- The nonce that a client counts has four bytes.
  pub Reach-nonce : {c : Client F} → Reach fl sha256d c → length c.job.nonce_blob ≡ 4
  unfolding new_client new_job set_extranonce update_extranonce
  Reach-nonce (start id now) = refl
  Reach-nonce (notified fresh n {c} {c'} r e) =
      Keeps-nonce (update_client-Keeps fresh n c c' e) (Reach-nonce r)
  Reach-nonce (extranonce_set e1 size {c} r) = Reach-nonce r
  Reach-nonce (header_asked key {c} r) = Keeps-nonce (get_job-Keeps key c) (Reach-nonce r)
  Reach-nonce (share_found now id s {c} r) = rw (submit_share-job now id s c) (Reach-nonce r)
  Reach-nonce (answered call result {c} r) = rw (on_result-job call result c) (Reach-nonce r)

  -- An update neither sets the extranonce nor takes it away.
  pub update_client-extranonce :
      (fresh : ℕ) (n : Notice F) (c c' : Client F)
      → update_client fl sha256d fresh n c ≡ some c'
      → is_some c'.job.extranonce ≡ is_some c.job.extranonce
  update_client-extranonce fresh n c c' e = kept (update_client-Keeps fresh n c c' e)
    where
      kept : {i j : Job F} → Keeps i j → is_some j.extranonce ≡ is_some i.extranonce
      kept (keeps _ h) = h

  pub get_job-extranonce :
      (key : Text) (c : Client F)
      → is_some (get_job fl sha256d key c).1.job.extranonce ≡ is_some c.job.extranonce
  get_job-extranonce key c = kept (get_job-Keeps key c)
    where
      kept : {i j : Job F} → Keeps i j → is_some j.extranonce ≡ is_some i.extranonce
      kept (keeps _ h) = h
