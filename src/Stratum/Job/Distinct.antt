-- ===== src/Stratum/Job/Distinct.antt =====
-- No two headers of a job stand for the same work, until the counter has gone round.
use perfect_miner.Prelude.{
  ℕ, zero, suc, ◌+◌, ◌-◌, ◌^◌, ◌≤◌, ◌<◌, ◌≡◌, ap, ap₂, ◌∙◌, some, arith, ltb, if◌then◌else◌,
}
use perfect_miner.Prelude.Floats.{Floats}
use perfect_miner.Bytes.{Bytes}
use perfect_miner.Stratum.Header.{Notice, Extranonce}
use perfect_miner.Stratum.Job.{
  Job, WorkerData, step_nonce, put_nonce, refresh_header, hand_out, worker_data,
  get_block_header_for_worker,
}
use perfect_miner.Stratum.Job.Step.{
  IsCounter, ticket, ticket_limit, next_ticket, next_nonce, next_e2, next_ticket_lem,
  next-IsCounter, length-next_e2, ticket-lt, step_nonce_lem,
}

module _ (fl : Floats) (sha256d : Bytes → Bytes) where
  open fl use {F}

  -- The job has been set up by `updateExtranonce` and `updateJob`.
  pub record IsReady (j : Job F) : Type 0 where
    pub notice : Notice F
    pub extranonce : Extranonce
    pub has_notice : j.notice ≡ some notice
    pub has_extranonce : j.extranonce ≡ some extranonce
    pub counting : IsCounter j.nonce_blob extranonce.extranonce2_blob

  abbrev pub rest_of : Job F → Job F
  rest_of j = (get_block_header_for_worker fl sha256d j).1

  refresh_header-keeps :
      (n : Notice F) (e : Extranonce) (j : Job F)
      → let j' = put_nonce fl sha256d (refresh_header fl sha256d n e j) in
        (j'.notice ≡ j.notice) × (j'.extranonce ≡ j.extranonce) × (j'.nonce_blob ≡ j.nonce_blob)
  unfolding put_nonce refresh_header
  refresh_header-keeps n e j = ground arith

  module _ (j : Job F) (r : IsReady j) where
    abbrev pub prepared : Job F
    prepared = put_nonce fl sha256d (refresh_header fl sha256d r.notice r.extranonce j)

    pub rest_of-ready : rest_of j ≡ step_nonce fl sha256d r.extranonce prepared
    unfolding get_block_header_for_worker hand_out
    rest_of-ready =
        rw (r.has_notice, get_block_header_for_worker)
          (rw (r.has_extranonce, get_block_header_for_worker))

    pub prepared-keeps :
        (prepared.notice ≡ some r.notice)
        × (prepared.extranonce ≡ some r.extranonce)
        × (prepared.nonce_blob ≡ j.nonce_blob)
    prepared-keeps =
        let (a, b, c) = refresh_header-keeps r.notice r.extranonce j in
        (a ∙ r.has_notice, b ∙ r.has_extranonce, c)

    pub stepped :
        let j' = step_nonce fl sha256d r.extranonce prepared in
        (j'.nonce_blob ≡ next_nonce prepared.nonce_blob)
        × (j'.extranonce
            ≡ some (record r.extranonce {
              extranonce2_blob = next_e2 prepared.nonce_blob r.extranonce.extranonce2_blob;
            }))
        × (j'.notice ≡ prepared.notice)
    stepped = step_nonce_lem fl sha256d r.extranonce prepared prepared-keeps.1

    pub rest_of-nonce : (rest_of j).nonce_blob ≡ next_nonce j.nonce_blob
    rest_of-nonce =
        ap (λ k. k.nonce_blob) rest_of-ready ∙ stepped.0 ∙ ap next_nonce prepared-keeps.2

    -- A job that is ready stays so, and its counter goes on by one.
    unfoldable pub rest_of-IsReady : IsReady (rest_of j)
    rest_of-IsReady = record {
      notice = r.notice;
      extranonce = record r.extranonce {
        extranonce2_blob = next_e2 j.nonce_blob r.extranonce.extranonce2_blob;
      };
      has_notice = ap (λ k. k.notice) rest_of-ready ∙ stepped.2 ∙ prepared-keeps.0;
      has_extranonce =
          ap (λ k. k.extranonce) rest_of-ready
          ∙ stepped.1
          ∙ ap
              (λ b. some (record r.extranonce {
                extranonce2_blob = next_e2 b r.extranonce.extranonce2_blob;
              }))
              prepared-keeps.2;
      counting =
          rw rest_of-nonce (next-IsCounter j.nonce_blob r.extranonce.extranonce2_blob r.counting);
    }

    abbrev pub limit_of : ℕ
    limit_of = ticket_limit r.extranonce.extranonce2_blob

    abbrev pub ticket_of : ℕ
    ticket_of = ticket j.nonce_blob r.extranonce.extranonce2_blob

    pub handed_out :
        (d : WorkerData F)
        → (get_block_header_for_worker fl sha256d j).0 ≡ some d
        → (d.nonce_blob ≡ j.nonce_blob)
          × (d.extranonce2_blob ≡ r.extranonce.extranonce2_blob)
          × (d.extranonce1_blob ≡ r.extranonce.extranonce1_blob)
          × (d.ntime_blob ≡ r.notice.ntime)
          × (d.block_header_blob ≡ prepared.block_header_blob)
    unfolding get_block_header_for_worker hand_out worker_data
    handed_out d e = ground (arith, r.has_notice, r.has_extranonce)

  -- The job after so many headers.
  unfoldable pub after : ℕ → Job F → Job F
  after zero j = j
  after (suc n) j = after n (rest_of j)

  -- The ticket of the header with this number, counted from 0.
  ticket_at : (n : ℕ) (j : Job F) → IsReady j → ℕ
  ticket_at zero j r = ticket j.nonce_blob r.extranonce.extranonce2_blob
  ticket_at (suc n) j r = ticket_at n (rest_of j) (rest_of-IsReady j r)

  abbrev wrap : ℕ → ℕ → ℕ
  wrap limit t = if ltb t limit then t else t - limit

  ticket_at_lem :
      (n : ℕ) (j : Job F) (r : IsReady j)
      → n ≤ limit_of j r
      → ticket_at n j r ≡ wrap (limit_of j r) (ticket_of j r + n)
  unfolding ticket_at rest_of-IsReady
  ticket_at_lem zero j r h =
      ground (arith, ticket-lt j.nonce_blob r.extranonce.extranonce2_blob r.counting)
  ticket_at_lem (suc n) j r h =
      let e2 = r.extranonce.extranonce2_blob in
      let same : limit_of (rest_of j) (rest_of-IsReady j r) ≡ limit_of j r =
        ap (λ k. 256 ^ suc k) (length-next_e2 j.nonce_blob e2) in
      let moved : ticket_of (rest_of j) (rest_of-IsReady j r)
          ≡ next_ticket (limit_of j r) (ticket_of j r) =
        ap (λ b. ticket b (next_e2 j.nonce_blob e2)) (rest_of-nonce j r)
        ∙ next_ticket_lem j.nonce_blob e2 r.counting in
      ground (
        arith,
        ticket_at_lem n (rest_of j) (rest_of-IsReady j r),
        same,
        moved,
        ticket-lt j.nonce_blob e2 r.counting,
      )

  after-handed_out :
      (n : ℕ) (j : Job F) (r : IsReady j) (d : WorkerData F)
      → (get_block_header_for_worker fl sha256d (after n j)).0 ≡ some d
      → ticket d.nonce_blob d.extranonce2_blob ≡ ticket_at n j r
  unfolding after ticket_at
  after-handed_out zero j r d e = let h = handed_out j r d e in cc
  after-handed_out (suc n) j r d e = after-handed_out n (rest_of j) (rest_of-IsReady j r) d e

  -- The headers with the numbers i < k differ in the nonce or in the second extranonce, as long as
  -- k stays below the number of tickets, 256 ^ (extranonce2_size + 1).
  pub headers_distinct :
      (i k : ℕ) (j : Job F) (r : IsReady j) (a b : WorkerData F)
      → i < k
      → k < limit_of j r
      → (get_block_header_for_worker fl sha256d (after i j)).0 ≡ some a
      → (get_block_header_for_worker fl sha256d (after k j)).0 ≡ some b
      → ¬ ((a.nonce_blob ≡ b.nonce_blob) × (a.extranonce2_blob ≡ b.extranonce2_blob))
  headers_distinct i k j r a b h l ea eb same = ground (
    arith,
    after-handed_out i j r a ea,
    after-handed_out k j r b eb,
    ticket_at_lem i j r,
    ticket_at_lem k j r,
    ticket-lt j.nonce_blob r.extranonce.extranonce2_blob r.counting,
    ap₂ ticket same.0 same.1,
  )
