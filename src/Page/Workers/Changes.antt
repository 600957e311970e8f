-- ===== src/Page/Workers/Changes.antt =====
-- The events of ControlServer/WebStat/Workers.js that change a row, and what the page makes of them.
use mathlib.Core.Option
use perfect_miner.Prelude.{
  ℕ, ◌≡◌, ◌≢◌, refl, sym, ap, ◌∙◌, Option, none, some, Option-cases, Bool, true, false, ==_refl,
  Bool-cases, inl, inr, List, [], ◌∷◌, ◌++◌, arith, ◌==◌, if◌then◌else◌,
}
use perfect_miner.Prelude.Floats.{Floats}
use perfect_miner.Prelude.KeyMap.{
  lookup, insert, has, lookup-insert_cases, insert-Above, lookup-insert,
}
use perfect_miner.Page.Table.{DataTable, update, info_of-update}
use perfect_miner.WebStat.Workers.{Row, Workers, Counts, at_worker, worker_info, take_counts}
use perfect_miner.WebStat.Workers.Told.{
  Value, Changes, count, double, told_of, worker_update_mini, flat, workers_info_mini_v2,
}
use perfect_miner.Page.Workers.{Info, Page, set_fields, receive_all, receive, update_mini}
use perfect_miner.Page.Workers.Pending.{
  counts_of, last_counts, settled, settled-Same, settled-counts, last_counts-append, Below-append,
  info_of-update_mini_v2,
}
use perfect_miner.Page.Workers.Mirror.{Agrees, counts, IsMirror, touch-IsMirror, shown}

module _ (fl : Floats) {H : Type 0} (dt : DataTable H) (view : Info fl.F → H) where
  open fl use {F, of_ℕ}

  abbrev sent : ℕ → Changes F → List (Value F)
  sent id c =
      some (count id)
      ∷ c.difficulty
      ∷ c.job_count
      ∷ c.accepted_share_count
      ∷ c.rejected_share_count
      ∷ c.hash_count
      ∷ c.share_count
      ∷ c.hashrate
      ∷ c.pool_id
      ∷ c.hash_rate
      ∷ c.name
      ∷ []

  -- A change of a row that the page is told of by worker_info_mini.
  pub mini-IsMirror :
      {n : ℕ} {w : Workers F} {page : Page fl dt view} (id : ℕ) (change : Row F → Row F)
      (c : Row F → Changes F)
      → IsMirror fl dt view n w page
      → ((row : Row F) → (change row).id ≡ row.id)
      → ((row : Row F) → (change row).alive ≡ row.alive)
      → ((row : Row F) → counts fl dt view (change row) ≡ counts fl dt view row)
      → ((row : Row F) (info : Info F)
          → Agrees fl dt view row info
          → Agrees fl dt view (change row) (set_fields fl (sent id (c row)) info))
      → ((row : Row F) (info : Info F)
          → counts_of fl (set_fields fl (sent id (c row)) info) ≡ counts_of fl info)
      → IsMirror fl dt view n
          (at_worker fl id change w)
          (receive_all fl dt view (told_of fl id (λ row. worker_update_mini fl id (c row)) w) page)
  unfolding at_worker told_of receive_all receive worker_update_mini update_mini set_fields
  mini-IsMirror {n} {w} {page} id change c v same_id same_alive same_counts agree kept =
      elim (Option-cases (lookup id w.workers)) [
        | inl e ↦ rw (e, at_worker, told_of) v
        | inr (row, e) ↦
            rw (e, at_worker, told_of)
              (touch-IsMirror fl dt view v id row (change row) (set_fields fl (sent id (c row)))
                (update dt view id (set_fields fl (sent id (c row))) page) e (same_id row)
                (same_alive row) (same_counts row)
                (λ j. info_of-update dt view id j (set_fields fl (sent id (c row))) page)
                (agree row) (kept row) (λ info. refl))
      ]

  map_self : (b : Bool) (o : Option (Info F)) → o ≡ (if b then Option.map (λ i. i) o else o)
  map_self true none = refl
  map_self true (some i) = refl
  map_self false o = refl

  -- A change that the page is not told of, of fields that it does not keep up to date.
  pub silent-IsMirror :
      {n : ℕ} {w : Workers F} {page : Page fl dt view} (id : ℕ) (change : Row F → Row F)
      → IsMirror fl dt view n w page
      → ((row : Row F) → (change row).id ≡ row.id)
      → ((row : Row F) → (change row).alive ≡ row.alive)
      → ((row : Row F) → counts fl dt view (change row) ≡ counts fl dt view row)
      → ((row : Row F) (info : Info F)
          → Agrees fl dt view row info
          → Agrees fl dt view (change row) info)
      → IsMirror fl dt view n (at_worker fl id change w) page
  unfolding at_worker
  silent-IsMirror {n} {w} {page} id change v same_id same_alive same_counts agree =
      elim (Option-cases (lookup id w.workers)) [
        | inl e ↦ rw (e, at_worker) v
        | inr (row, e) ↦
            rw (e, at_worker)
              (touch-IsMirror fl dt view v id row (change row) (λ i. i) page e (same_id row)
                (same_alive row) (same_counts row)
                (λ j. map_self (j == id) (shown fl dt view j page)) (agree row) (λ info. refl)
                (λ info. refl))
      ]

  map_inv :
      (g : Info F → Info F) (o : Option (Info F)) {b : Info F}
      → Option.map g o ≡ some b
      → (a : Info F) × (o ≡ some a) × (g a ≡ b)
  map_inv g none e = cc
  map_inv g (some a) e = (a, refl, cc)

  module _ {n : ℕ} {w : Workers F} {page : Page fl dt view} (v : IsMirror fl dt view n w page) where
    pub timer-IsMirror :
        IsMirror fl dt view n
          (record w { update_mini = [] })
          (receive_all fl dt view (workers_info_mini_v2 (flat fl w.update_mini) ∷ []) page)
    unfolding receive_all receive
    timer-IsMirror = record {
      sorted = v.sorted;
      queued = tt;
      known = λ id row e. let k = v.known id row e in (k.0, k.1, k.2, refl);
      gone = v.gone;
      shows = λ id row e.
          let (info, here, (a, b, c, d, l), same) = v.shows id row e in
          let (sa, sb, sc, sd, sl) = settled-Same fl id w.update_mini info in
          (
            settled fl id w.update_mini info,
            info_of-update_mini_v2 fl dt view id w.update_mini page
                ∙ ap (Option.map (settled fl id w.update_mini)) here,
            (sa ∙ a, sb ∙ b, sc ∙ c, sd ∙ d, sl ∙ l),
            settled-counts fl id w.update_mini info ∙ same,
          );
      live = λ id info e a.
          let (old, here, same) =
            map_inv (settled fl id w.update_mini) (shown fl dt view id page)
              (sym (info_of-update_mini_v2 fl dt view id w.update_mini page) ∙ e) in
          let (_, _, _, _, l) = settled-Same fl id w.update_mini old in
          v.live id old here (sym l ∙ ap (λ i. i.alive) same ∙ a);
    }

    -- The row that takes the counts.
    module _ (id : ℕ) (k : Counts F) (row : Row F) (found : lookup id w.workers ≡ some row) where
      abbrev longer : List (ℕ × F × F × Option F)
      longer = w.update_mini ++ (id, k.hash_count, k.share_count, k.hash_rate) ∷ []

      abbrev counted : Workers F
      counted = record w {
        workers = insert id (take_counts fl k row) w.workers;
        update_mini = longer;
      }

      at_end :
          (cur : Value F × Value F)
          → last_counts fl id longer cur ≡ counts fl dt view (take_counts fl k row)
      unfolding take_counts
      at_end cur =
          last_counts-append fl id id k.hash_count k.share_count k.hash_rate w.update_mini cur
          ∙ ap
              (λ b.
                if b
                then (some (double k.hash_count), some (double k.share_count))
                else last_counts fl id w.update_mini cur)
              (==_refl id)

      elsewhere :
          (j : ℕ) (cur : Value F × Value F)
          → j ≢ id
          → last_counts fl j longer cur ≡ last_counts fl j w.update_mini cur
      elsewhere j cur other =
          let apart : (j == id) ≡ false = ground arith in
          last_counts-append fl j id k.hash_count k.share_count k.hash_rate w.update_mini cur
          ∙ ap
              (λ b.
                if b
                then (some (double k.hash_count), some (double k.share_count))
                else last_counts fl j w.update_mini cur)
              apart

      queued-IsMirror : IsMirror fl dt view n counted page
      unfolding take_counts
      queued-IsMirror = record {
        sorted = insert-Above 0 id (take_counts fl k row) w.workers v.sorted (omega arith);
        queued =
            Below-append fl n id k.hash_count k.share_count k.hash_rate w.update_mini v.queued
              (v.known id row found).0;
        known = λ j r e. elim (lookup-insert_cases id j (take_counts fl k row) r w.workers e) [
          | inl (same, new) ↦
              let m = v.known id row found in rw same (rw new (m.0, m.1, m.2, at_end _))
          | inr (other, old) ↦ let m = v.known j r old in (m.0, m.1, m.2, elsewhere j _ other ∙ m.3)
        ];
        gone = v.gone;
        shows = λ j r e. elim (lookup-insert_cases id j (take_counts fl k row) r w.workers e) [
          | inl (same, new) ↦
              let (info, here, ok, _) = v.shows id row found in
              rw same (rw new (info, here, ok, at_end _))
          | inr (other, old) ↦
              let (info, here, ok, c) = v.shows j r old in (info, here, ok, elsewhere j _ other ∙ c)
        ];
        live = λ j info e a.
            let old : has j w.workers ≡ true = v.live j info e a in
            elim (Bool-cases (j == id)) [
              | inl same ↦ ground (arith, lookup-insert id j (take_counts fl k row) w.workers)
              | inr other ↦ ground (arith, lookup-insert id j (take_counts fl k row) w.workers)
            ];
      }

    -- Counts of a worker, which wait in the queue for the timer.
    pub worker_info-IsMirror :
        (id : ℕ) (k : Counts F) → IsMirror fl dt view n (worker_info fl id k w) page
    unfolding worker_info
    worker_info-IsMirror id k = elim (Option-cases (lookup id w.workers)) [
      | inl e ↦ rw (e, worker_info) v
      | inr (row, e) ↦ rw (e, worker_info) (queued-IsMirror id k row e)
    ]
