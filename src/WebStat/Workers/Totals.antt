-- ===== src/WebStat/Workers/Totals.antt =====
-- Where the shares stand that ControlServer/WebStat/Workers.js has counted.
use perfect_miner.Prelude.{
  ℕ, ◌+◌, ◌*◌, ◌≡◌, refl, ◌∙◌, none, some, List, [], ◌∷◌, ◌++◌, take, arith, ◌==◌, if◌then◌else◌,
  Option-cases, Bool-cases, inl, inr, bit, not, ◌&&◌,
}
use perfect_miner.Prelude.Text.{Text}
use perfect_miner.Prelude.Floats.{Floats}
use perfect_miner.Prelude.KeyMap.{lookup, Above, has, insert-Above, remove-Above}
use perfect_miner.WebStat.Workers.Sums.{
  total, sum, sum-append, sum_split, sum_joined, total-insert_new, total-insert, total-remove,
}
use perfect_miner.WebStat.Workers.{
  Row, Workers, Event, connected, disconnected, named, told_info, app_closed, share_accepted,
  share_rejected, pool_added, pool_deleted, timer, new_row, at_worker, archived, worker_disconnect,
  take_counts, worker_info, count_share, add_accepted, add_rejected, on_event, Counts,
}

module _ (fl : Floats) where
  open fl use {F, of_ℕ}

  -- Over the rows that are shown and those in the archive.
  abbrev pub shown : (Row F → ℕ) → Workers F → ℕ
  shown f w = total f w.workers + sum f w.archive

  abbrev known : ℕ → Workers F → ℕ
  known id w = bit (has id w.workers)

  -- The records that an event drops from the archive.
  abbrev pub dropped : Event F → Workers F → List (Row F)
  dropped (disconnected id msg cut) w = elim (lookup id w.workers) [
    | none ↦ []
    | some row ↦ take cut (w.archive ++ archived fl msg row ∷ [])
  ]
  dropped e w = []

  abbrev pub after : Event F → Workers F → List (Row F) → List (Row F)
  after (disconnected id msg cut) w lost = lost ++ dropped (disconnected id msg cut) w
  after e w lost = lost

  at_worker-shown :
      (f : Row F → ℕ) (id d : ℕ) (change : Row F → Row F) (w : Workers F)
      → Above 0 w.workers
      → ((row : Row F) → f (change row) ≡ f row + d)
      → (shown f (at_worker fl id change w) ≡ shown f w + (if has id w.workers then d else 0))
        × Above 0 (at_worker fl id change w).workers
  unfolding at_worker
  at_worker-shown f id d change w a h = elim (Option-cases (lookup id w.workers)) [
    | inl e ↦ rw (e, at_worker) (omega arith, a)
    | inr (row, e) ↦
        rw (e, at_worker)
          (
            omega (arith, total-insert f 0 id (change row) row w.workers a e, h row),
            insert-Above 0 id (change row) w.workers a (omega arith),
          )
  ]

  worker_info-shown :
      (f : Row F → ℕ) (id : ℕ) (k : Counts F) (w : Workers F)
      → Above 0 w.workers
      → ((row : Row F) → f (take_counts fl k row) ≡ f row)
      → (shown f (worker_info fl id k w) ≡ shown f w) × Above 0 (worker_info fl id k w).workers
  unfolding worker_info
  worker_info-shown f id k w a h = elim (Option-cases (lookup id w.workers)) [
    | inl e ↦ rw (e, worker_info) (refl, a)
    | inr (row, e) ↦
        rw (e, worker_info)
          (
            omega (arith, total-insert f 0 id (take_counts fl k row) row w.workers a e, h row),
            insert-Above 0 id (take_counts fl k row) w.workers a (omega arith),
          )
  ]

  worker_disconnect-shown :
      (f : Row F → ℕ) (id : ℕ) (msg : Text) (cut : ℕ) (w : Workers F)
      → Above 0 w.workers
      → ((row : Row F) → f (archived fl msg row) ≡ f row)
      → (shown f (worker_disconnect fl id msg cut w) + sum f (dropped (disconnected id msg cut) w)
          ≡ shown f w)
        × Above 0 (worker_disconnect fl id msg cut w).workers
  unfolding worker_disconnect
  worker_disconnect-shown f id msg cut w a h = elim (Option-cases (lookup id w.workers)) [
    | inl e ↦ rw (e, worker_disconnect, dropped) (omega arith, a)
    | inr (row, e) ↦
        rw (e, worker_disconnect, dropped)
          (
            omega (
              arith,
              total-remove f 0 id row w.workers a e,
              sum-append f w.archive (archived fl msg row),
              sum_split f cut (w.archive ++ archived fl msg row ∷ []),
              h row,
            ),
            remove-Above 0 id w.workers a,
          )
  ]

  -- What an event adds to the accepted and to the rejected shares.
  abbrev pub new_accepted : Event F → Workers F → ℕ
  new_accepted (share_accepted id) w = bit (not (id == 0) && has id w.workers)
  new_accepted e w = 0

  abbrev pub new_rejected : Event F → Workers F → ℕ
  new_rejected (share_rejected id) w = bit (not (id == 0) && has id w.workers)
  new_rejected e w = 0

  -- A worker that connects has an id of its own.
  abbrev pub IsTimely : Event F → Workers F → Type 0
  IsTimely (connected id r) w = lookup id w.workers ≡ none
  IsTimely e w = Unit {0}

  pub record IsTotalled (accepted rejected : ℕ) (lost : List (Row F)) (w : Workers F) : Type 0 where
    pub sorted : Above 0 w.workers
    pub all_accepted :
        shown (λ r. r.accepted_share_count) w + sum (λ (r : Row F). r.accepted_share_count) lost
        ≡ accepted
    pub all_rejected :
        shown (λ r. r.rejected_share_count) w + sum (λ (r : Row F). r.rejected_share_count) lost
        ≡ rejected

  -- A change of one row that adds to the counts.
  changed :
      (id a r x y : ℕ) (change : Row F → Row F) {lost : List (Row F)} (w : Workers F)
      → ((row : Row F) → (change row).accepted_share_count ≡ row.accepted_share_count + x)
      → ((row : Row F) → (change row).rejected_share_count ≡ row.rejected_share_count + y)
      → IsTotalled a r lost w
      → IsTotalled
          (a + (if has id w.workers then x else 0))
          (r + (if has id w.workers then y else 0))
          lost
          (at_worker fl id change w)
  changed id a r x y change w hx hy t =
      let (acc, sorted) = at_worker-shown (λ r. r.accepted_share_count) id x change w t.sorted hx in
      let (rej, _) = at_worker-shown (λ r. r.rejected_share_count) id y change w t.sorted hy in
      record {
        sorted = sorted;
        all_accepted = omega (arith, acc, t.all_accepted);
        all_rejected = omega (arith, rej, t.all_rejected);
      }

  retotalled :
      {a r a' r' : ℕ} {lost : List (Row F)} {w : Workers F}
      → a ≡ a'
      → r ≡ r'
      → IsTotalled a r lost w
      → IsTotalled a' r' lost w
  retotalled e f t = record {
    sorted = t.sorted;
    all_accepted = t.all_accepted ∙ e;
    all_rejected = t.all_rejected ∙ f;
  }

  -- A share of a worker that is shown.
  counted :
      (id a r x y : ℕ) (change : Row F → Row F) {lost : List (Row F)} (w : Workers F)
      → ((row : Row F) → (change row).accepted_share_count ≡ row.accepted_share_count + x)
      → ((row : Row F) → (change row).rejected_share_count ≡ row.rejected_share_count + y)
      → IsTotalled a r lost w
      → IsTotalled
          (a + x * bit (not (id == 0) && has id w.workers))
          (r + y * bit (not (id == 0) && has id w.workers))
          lost
          (count_share fl change id w)
  unfolding count_share
  counted id a r x y change w hx hy t = elim (Bool-cases (id == 0)) [
    | inl e ↦ rw (e, count_share) (retotalled (omega arith) (omega arith) t)
    | inr e ↦
        rw (e, count_share)
          (retotalled (ground arith) (ground arith) (changed id a r x y change w hx hy t))
  ]

  on_event-IsTotalled :
      (e : Event F) (a r : ℕ) (lost : List (Row F)) (w : Workers F)
      → IsTimely e w
      → IsTotalled a r lost w
      → IsTotalled (a + new_accepted e w) (r + new_rejected e w) (after e w lost) (on_event fl e w)
  unfolding on_event new_row
  on_event-IsTotalled (connected id rate) a r lost w free t = record {
    sorted = insert-Above 0 id (new_row fl id rate) w.workers t.sorted (omega arith);
    all_accepted = omega (
      arith,
      total-insert_new (λ (x : Row F). x.accepted_share_count) id (new_row fl id rate) w.workers
          free,
      t.all_accepted,
    );
    all_rejected = omega (
      arith,
      total-insert_new (λ (x : Row F). x.rejected_share_count) id (new_row fl id rate) w.workers
          free,
      t.all_rejected,
    );
  }
  on_event-IsTotalled (disconnected id msg cut) a r lost w _ t =
      let (acc, sorted) =
        worker_disconnect-shown (λ x. x.accepted_share_count) id msg cut w t.sorted
          (λ row. unfold archived in refl) in
      let (rej, _) =
        worker_disconnect-shown (λ x. x.rejected_share_count) id msg cut w t.sorted
          (λ row. unfold archived in refl) in
      record {
        sorted = sorted;
        all_accepted = omega (
          arith,
          acc,
          t.all_accepted,
          sum_joined (λ (x : Row F). x.accepted_share_count) lost
              (dropped (disconnected id msg cut) w),
        );
        all_rejected = omega (
          arith,
          rej,
          t.all_rejected,
          sum_joined (λ (x : Row F). x.rejected_share_count) lost
              (dropped (disconnected id msg cut) w),
        );
      }
  on_event-IsTotalled (named id name) a r lost w _ t =
      retotalled (ground arith) (ground arith)
        (changed id a r 0 0 _ w (λ row. omega arith) (λ row. omega arith) t)
  on_event-IsTotalled (told_info id k) a r lost w _ t =
      let (acc, sorted) =
        worker_info-shown (λ x. x.accepted_share_count) id k w t.sorted
          (λ row. unfold take_counts in refl) in
      let (rej, _) =
        worker_info-shown (λ x. x.rejected_share_count) id k w t.sorted
          (λ row. unfold take_counts in refl) in
      record {
        sorted = sorted;
        all_accepted = omega (arith, acc, t.all_accepted);
        all_rejected = omega (arith, rej, t.all_rejected);
      }
  on_event-IsTotalled (app_closed id) a r lost w _ t =
      retotalled (ground arith) (ground arith)
        (changed id a r 0 0 _ w (λ row. omega arith) (λ row. omega arith) t)
  on_event-IsTotalled (share_accepted id) a r lost w _ t = retotalled (omega arith) (omega arith) (
      counted id a r 1 0 (add_accepted fl) w (λ row. unfold add_accepted in refl)
        (λ row. unfold add_accepted in omega arith) t)
  on_event-IsTotalled (share_rejected id) a r lost w _ t = retotalled (omega arith) (omega arith) (
      counted id a r 0 1 (add_rejected fl) w (λ row. unfold add_rejected in omega arith)
        (λ row. unfold add_rejected in refl) t)
  on_event-IsTotalled (pool_added pool_id id) a r lost w _ t =
      retotalled (ground arith) (ground arith)
        (changed id a r 0 0 _ w (λ row. omega arith) (λ row. omega arith) t)
  on_event-IsTotalled (pool_deleted id) a r lost w _ t =
      retotalled (ground arith) (ground arith)
        (changed id a r 0 0 _ w (λ row. omega arith) (λ row. omega arith) t)
  on_event-IsTotalled timer a r lost w _ t = record {
    sorted = t.sorted;
    all_accepted = omega (arith, t.all_accepted);
    all_rejected = omega (arith, t.all_rejected);
  }

  -- Histories, with the number of shares that were accepted and rejected for a worker that is shown,
  -- and with the records that the archive has dropped.
  pub data Reach : ℕ → ℕ → List (Row F) → Workers F → Type 0 where
    begin : Reach 0 0 [] (record { workers = []; archive = []; update_mini = [] })
    next :
        (e : Event F) {a r : ℕ} {lost : List (Row F)} {w : Workers F}
        → Reach a r lost w
        → IsTimely e w
        → Reach (a + new_accepted e w) (r + new_rejected e w) (after e w lost) (on_event fl e w)

  -- In every history in which each worker connects with an id of its own, the accepted and the
  -- rejected shares of the workers that are shown, of those in the archive and of the records that the
  -- archive has dropped for want of room sum up to the shares that were accepted and rejected for a
  -- worker while it was shown.
  pub Reach-IsTotalled :
      {a r : ℕ} {lost : List (Row F)} {w : Workers F} → Reach a r lost w → IsTotalled a r lost w
  Reach-IsTotalled begin = record { sorted = tt; all_accepted = refl; all_rejected = refl }
  Reach-IsTotalled (next e {a} {r} {lost} {w} h t) =
      on_event-IsTotalled e a r lost w t (Reach-IsTotalled h)
