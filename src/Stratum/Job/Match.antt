-- ===== src/Stratum/Job/Match.antt =====
-- Every header handed out is the header of the extranonces, the time and the nonce that stand
-- beside it, which is what a share sends back to the pool.
use perfect_miner.Prelude.{
  ℕ, zero, suc, ◌+◌, ◌≡◌, ◌⊎◌, refl, ap, sym, ◌∙◌, some, [], ◌∷◌, arith, length, Bool-cases, inl,
  inr, ◌==◌, get_or,
}
use perfect_miner.Prelude.Floats.{Floats}
use perfect_miner.Bytes.{Bytes, copy}
use perfect_miner.Bytes.Regions.{flat, copy_region}
use perfect_miner.Stratum.Header.{
  Notice, Extranonce, swap_words, sha256d_gen_merkle_root, header_over, write_extranonce2,
}
use perfect_miner.Stratum.Header.Layout.{
  HasLengths, length-root, header_regions, header_over-layout, write_extranonce2-layout,
}
use perfect_miner.Stratum.Job.{
  Job, WorkerData, step_nonce, put_nonce, refresh_header, get_block_header_for_worker,
}
use perfect_miner.Stratum.Job.Step.{length-next_e2, step_nonce-blobs, next_nonce-zero}
use perfect_miner.Stratum.Job.Distinct.{
  IsReady, rest_of, rest_of-IsReady, rest_of-nonce, rest_of-ready, prepared, after, handed_out,
}

module _ (fl : Floats) (sha256d : Bytes → Bytes)
    (digest : (b : Bytes) → length (sha256d b) ≡ 32) where
  open fl use {F}

  with_nonce :
      (n : Notice F) (ntime old new : Bytes)
      → HasLengths n ntime old
      → length new ≡ 4
      → HasLengths n ntime new
  with_nonce n ntime old new h l = record {
    version_fits = h.version_fits;
    prevhash_fits = h.prevhash_fits;
    ntime_fits = h.ntime_fits;
    nbits_fits = h.nbits_fits;
    nonce_fits = l;
  }

  -- Another nonce over a header is the header of that nonce.
  copy-header_over :
      (n : Notice F) (coinbase ntime old new : Bytes)
      → HasLengths n ntime old
      → length new ≡ 4
      → copy new (header_over fl sha256d n coinbase ntime old) 76
        ≡ header_over fl sha256d n coinbase ntime new
  copy-header_over n coinbase ntime old new h l =
      let root : Bytes = swap_words (sha256d_gen_merkle_root fl sha256d n.merkle_branch coinbase) in
      let root_fits : length root ≡ 32 = length-root fl sha256d digest n.merkle_branch coinbase in
      let at : length n.version
            + (length n.prevhash + (length root + (length ntime + (length n.nbits + 0))))
          ≡ 76 =
        omega (arith, h.version_fits, h.prevhash_fits, root_fits, h.ntime_fits, h.nbits_fits) in
      ap (λ b. copy new b 76) (header_over-layout fl sha256d digest n coinbase ntime old h)
      ∙ copy_region new old (header_regions fl sha256d digest n coinbase ntime old) 5 76 refl
          (l ∙ sym h.nonce_fits) at
      ∙ sym (
          header_over-layout fl sha256d digest n coinbase ntime new
            (with_nonce n ntime old new h l))

  -- The coinbase with these extranonces.
  abbrev pub coinbase_with : Notice F → Bytes → Bytes → Bytes
  coinbase_with n e1 e2 = flat (n.coinb1 ∷ e1 ∷ e2 ∷ n.coinb2 ∷ [])

  abbrev pub expected_header : Notice F → Bytes → Bytes → Bytes → Bytes → Bytes
  expected_header n e1 e2 ntime nonce = header_over fl sha256d n (coinbase_with n e1 e2) ntime nonce

  -- The header was built for the extranonce at hand, or will be built anew.
  pub record IsFresh (j : Job F) (n : Notice F) (e : Extranonce) : Type 0 where
    pub old_e2 : Bytes
    pub old_nonce : Bytes
    pub coinbase : j.coinbase_blob ≡ coinbase_with n e.extranonce1_blob old_e2
    pub same_length : length old_e2 ≡ length e.extranonce2_blob
    pub lengths : HasLengths n n.ntime old_nonce
    pub built :
        (get_or j.nonce_blob 3 0 ≡ 0)
        ⊎ ((old_e2 ≡ e.extranonce2_blob)
            × (j.block_header_blob ≡ expected_header n e.extranonce1_blob old_e2 n.ntime old_nonce))

  module _ (j : Job F) (r : IsReady fl sha256d j) (f : IsFresh j r.notice r.extranonce) where
    prepared_lem :
        let p = prepared fl sha256d j r in
        (p.coinbase_blob
          ≡ coinbase_with r.notice r.extranonce.extranonce1_blob r.extranonce.extranonce2_blob)
        × (p.block_header_blob
            ≡ expected_header r.notice r.extranonce.extranonce1_blob r.extranonce.extranonce2_blob
                r.notice.ntime j.nonce_blob)
    unfolding put_nonce refresh_header
    prepared_lem =
        let n = r.notice in
        let e1 : Bytes = r.extranonce.extranonce1_blob in
        let e2 : Bytes = r.extranonce.extranonce2_blob in
        let put : (old : Bytes)
            → HasLengths n n.ntime old
            → copy j.nonce_blob (expected_header n e1 e2 n.ntime old) 76
              ≡ expected_header n e1 e2 n.ntime j.nonce_blob =
          λ old h.
            copy-header_over n (coinbase_with n e1 e2) n.ntime old j.nonce_blob h
              r.counting.nonce_length in
        let written : write_extranonce2 n.coinb1 e1 e2 j.coinbase_blob ≡ coinbase_with n e1 e2 =
          ap (write_extranonce2 n.coinb1 e1 e2) f.coinbase
          ∙ write_extranonce2-layout n.coinb1 e1 f.old_e2 e2 n.coinb2 (sym f.same_length) in
        elim (Bool-cases (get_or j.nonce_blob 3 0 == 0)) [
          | inl anew ↦
              rw (anew, refresh_header)
                (
                  written,
                  ap (λ c. copy j.nonce_blob (header_over fl sha256d n c n.ntime j.nonce_blob) 76)
                        written
                      ∙ put j.nonce_blob (
                          with_nonce n n.ntime f.old_nonce j.nonce_blob f.lengths
                            r.counting.nonce_length),
                )
          | inr kept ↦ elim f.built [
            | inl low ↦ absurd (ground arith)
            | inr (same, was) ↦
                rw (kept, refresh_header)
                  (
                    f.coinbase ∙ ap (coinbase_with n e1) same,
                    ap (λ h. copy j.nonce_blob h 76)
                          (was ∙ ap (λ x. expected_header n e1 x n.ntime f.old_nonce) same)
                        ∙ put f.old_nonce f.lengths,
                  )
          ]
        ]

    -- What the next header starts from is fresh again.
    rest_of-IsFresh :
        IsFresh (rest_of fl sha256d j) r.notice (rest_of-IsReady fl sha256d j r).extranonce
    unfolding rest_of-IsReady
    rest_of-IsFresh = record {
      old_e2 = r.extranonce.extranonce2_blob;
      old_nonce = j.nonce_blob;
      coinbase = ap (λ k. k.coinbase_blob) moved ∙ blobs.0 ∙ prepared_lem.0;
      same_length = sym (length-next_e2 j.nonce_blob r.extranonce.extranonce2_blob);
      lengths =
          with_nonce r.notice r.notice.ntime f.old_nonce j.nonce_blob f.lengths
            r.counting.nonce_length;
      built = elim (next_nonce-zero j.nonce_blob r.extranonce.extranonce2_blob r.counting) [
        | inl z ↦ inl (ap (λ b. get_or b 3 0) (rest_of-nonce fl sha256d j r) ∙ z)
        | inr same ↦ inr (sym same, ap (λ k. k.block_header_blob) moved ∙ blobs.1 ∙ prepared_lem.1)
      ];
    }
      where
        moved : rest_of fl sha256d j ≡ step_nonce fl sha256d r.extranonce (prepared fl sha256d j r)
        moved = rest_of-ready fl sha256d j r

        blobs :
            let p = prepared fl sha256d j r in
            let j' = step_nonce fl sha256d r.extranonce p in
            (j'.coinbase_blob ≡ p.coinbase_blob) × (j'.block_header_blob ≡ p.block_header_blob)
        blobs = step_nonce-blobs fl sha256d r.extranonce (prepared fl sha256d j r)

    header-matches :
        (d : WorkerData F)
        → (get_block_header_for_worker fl sha256d j).0 ≡ some d
        → d.block_header_blob
          ≡ expected_header r.notice d.extranonce1_blob d.extranonce2_blob d.ntime_blob d.nonce_blob
    header-matches d e = let h = handed_out fl sha256d j r d e in let p = prepared_lem in cc

  pub header-matches_from :
      (k : ℕ) (j : Job F) (r : IsReady fl sha256d j)
      → IsFresh j r.notice r.extranonce
      → (d : WorkerData F)
      → (get_block_header_for_worker fl sha256d (after fl sha256d k j)).0 ≡ some d
      → d.block_header_blob
        ≡ expected_header r.notice d.extranonce1_blob d.extranonce2_blob d.ntime_blob d.nonce_blob
  unfolding after rest_of-IsReady
  header-matches_from zero j r f d e = header-matches j r f d e
  header-matches_from (suc k) j r f d e =
      header-matches_from k (rest_of fl sha256d j) (rest_of-IsReady fl sha256d j r)
        (rest_of-IsFresh j r f) d e
