-- ===== src/Page/Workers/Rows.antt =====
-- The messages of ControlServer/WebStat/Workers.js that bring whole rows: a worker that comes or goes,
-- and the greeting of a browser.
use mathlib.Core.Option
use perfect_miner.Prelude.{
  ℕ, zero, suc, ◌≤◌, ◌≡◌, refl, sym, ap, ◌∙◌, Option, none, some, Option-cases, true, false,
  Bool-cases, inl, inr, List, [], ◌∷◌, ◌++◌, drop, arith, ◌==◌, if◌then◌else◌,
}
use perfect_miner.Prelude.Text.{Text}
use perfect_miner.Prelude.Floats.{Floats}
use perfect_miner.Prelude.KeyMap.{
  KeyMap, lookup, insert, remove, has, Above, lookup-insert_cases, lookup_kept, insert-Above,
  remove-Above, lookup-insert, lookup-remove, lookup_below,
}
use perfect_miner.Page.Table.{DataTable, list_process, info_of-add_item, add_item}
use perfect_miner.WebStat.Workers.{Row, Workers, worker_disconnect, archived, new_row}
use perfect_miner.WebStat.Workers.Told.{workers, told_of, values, greeting}
use perfect_miner.Page.Workers.{Info, Page, receive_all, receive, arrived, keyed}
use perfect_miner.Page.Workers.Pending.{last_counts_absent, Below-mono}
use perfect_miner.Page.Workers.Mirror.{IsMirror, shown, AllGone}

module _ (fl : Floats) {H : Type 0} (dt : DataTable H) (view : Info fl.F → H) where
  open fl use {F, of_ℕ}

  AllGone-append :
      (rows : List (Row F)) (row : Row F)
      → AllGone fl dt view rows
      → row.alive ≡ false
      → AllGone fl dt view (rows ++ row ∷ [])
  AllGone-append [] row g h = (h, tt)
  AllGone-append (r ∷ rows) row (e, g) h = (e, AllGone-append rows row g h)

  AllGone-drop :
      (k : ℕ) (rows : List (Row F)) → AllGone fl dt view rows → AllGone fl dt view (drop k rows)
  AllGone-drop zero rows g = g
  AllGone-drop (suc k) [] g = g
  AllGone-drop (suc k) (r ∷ rows) (_, g) = AllGone-drop k rows g

  module _ {n : ℕ} {w : Workers F} {page : Page fl dt view} (v : IsMirror fl dt view n w page) where
    pub connected-IsMirror :
        (id : ℕ) (r : Option F)
        → n ≤ id
        → IsMirror fl dt view
            (suc id)
            (record w { workers = insert id (new_row fl id r) w.workers })
            (receive_all fl dt view (workers (new_row fl id r ∷ []) ∷ []) page)
    unfolding receive_all receive list_process new_row
    connected-IsMirror id r fresh = record {
      sorted = insert-Above 0 id (new_row fl id r) w.workers v.sorted (omega arith);
      queued = Below-mono fl n (suc id) w.update_mini v.queued (omega arith);
      known = λ j u e. elim (lookup-insert_cases id j (new_row fl id r) u w.workers e) [
        | inl (same, new) ↦ rw same (
            rw new
              (omega arith, refl, refl, last_counts_absent fl n id w.update_mini _ v.queued fresh))
        | inr (_, old) ↦ let k = v.known j u old in (omega (arith, k.0), k.1, k.2, k.3)
      ];
      gone = v.gone;
      shows = λ j u e. elim (lookup-insert_cases id j (new_row fl id r) u w.workers e) [
        | inl (same, new) ↦ rw same (
            rw new (
              arrived fl (new_row fl id r),
              ground (arith, info_of-add_item dt view id id (arrived fl (new_row fl id r)) page),
              (refl, refl, refl, refl, refl),
              last_counts_absent fl n id w.update_mini _ v.queued fresh,
            ))
        | inr (other, old) ↦
            let (info, here, ok, c) = v.shows j u old in
            (
              info,
              ground
                  (arith, info_of-add_item dt view id j (arrived fl (new_row fl id r)) page, here),
              ok,
              c,
            )
      ];
      live = λ j info e a. elim (Bool-cases (j == id)) [
        | inl same ↦ ground (arith, lookup-insert id j (new_row fl id r) w.workers)
        | inr other ↦
            let old : has j w.workers ≡ true =
              v.live j info
                (ground (arith, info_of-add_item dt view id j (arrived fl (new_row fl id r)) page))
                a in
            ground (arith, lookup-insert id j (new_row fl id r) w.workers)
      ];
    }

    module _ (id : ℕ) (msg : Text) (cut : ℕ) (row : Row F)
        (found : lookup id w.workers ≡ some row) where
      told :
          (j : ℕ)
          → shown fl dt view j (add_item dt view row.id (arrived fl (archived fl msg row)) page)
            ≡ (if j == id then some (arrived fl (archived fl msg row)) else shown fl dt view j page)
      told j =
          info_of-add_item dt view row.id j (arrived fl (archived fl msg row)) page
          ∙ ap
              (λ k.
                if j == k then some (arrived fl (archived fl msg row)) else shown fl dt view j page)
              (v.known id row found).1

      disconnected :
          IsMirror fl dt view n
            (record w {
              workers = remove id w.workers;
              archive = drop cut (w.archive ++ archived fl msg row ∷ []);
            })
            (add_item dt view row.id (arrived fl (archived fl msg row)) page)
      unfolding archived
      disconnected = record {
        sorted = remove-Above 0 id w.workers v.sorted;
        queued = v.queued;
        known = λ j u e. v.known j u (lookup_kept id j u w.workers e).1;
        gone =
            AllGone-drop cut (w.archive ++ archived fl msg row ∷ [])
              (AllGone-append w.archive (archived fl msg row) v.gone refl);
        shows = λ j u e.
            let (other, old) = lookup_kept id j u w.workers e in
            let (info, here, ok, c) = v.shows j u old in
            (info, ground (arith, told j, here, other), ok, c);
        live = λ j info e a. elim (Bool-cases (j == id)) [
          | inl same ↦ absurd (ground (arith, told j))
          | inr other ↦
              let old : has j w.workers ≡ true = v.live j info (ground (arith, told j)) a in
              ground (arith, lookup-remove id j w.workers)
        ];
      }

    pub disconnected-IsMirror :
        (id : ℕ) (msg : Text) (cut : ℕ)
        → IsMirror fl dt view n (worker_disconnect fl id msg cut w) (
            receive_all fl dt view
              (told_of fl id (λ row. workers (archived fl msg row ∷ []) ∷ []) w)
              page)
    unfolding worker_disconnect told_of receive_all receive list_process archived
    disconnected-IsMirror id msg cut = elim (Option-cases (lookup id w.workers)) [
      | inl e ↦ rw (e, worker_disconnect, told_of) v
      | inr (row, e) ↦ rw (e, worker_disconnect, told_of) (disconnected id msg cut row e)
    ]

  -- A list of the rows of a table, as the page takes it.
  taken : Option (Row F) → Option (Info F) → Option (Info F)
  taken none o = o
  taken (some row) o = some (arrived fl row)

  listed :
      (lo j : ℕ) (m : KeyMap (Row F)) (t : Page fl dt view)
      → Above lo m
      → ((id : ℕ) (row : Row F) → lookup id m ≡ some row → row.id ≡ id)
      → shown fl dt view j (list_process dt view (keyed fl dt view (values fl m)) t)
        ≡ taken (lookup j m) (shown fl dt view j t)
  unfolding lookup values list_process taken
  listed lo j [] t a h = refl
  listed lo j ((k, row) ∷ m) t (le, a) h =
      let same : row.id ≡ k = h k row (ground arith) in
      listed (suc k) j m (add_item dt view row.id (arrived fl row) t) a
        (λ id r e. h id r (ground (arith, e, lookup_below (suc k) k m a)))
      ∙ ap (taken (lookup j m)) (info_of-add_item dt view row.id j (arrived fl row) t)
      ∙ ap
          (λ i. taken (lookup j m) (if j == i then some (arrived fl row) else shown fl dt view j t))
          same
      ∙ (elim (Bool-cases (j == k)) [
        | inl e ↦
            rw e (
              ap (λ o. taken o (some (arrived fl row))) (lookup_below (suc k) j m a (ground arith)))
        | inr e ↦ rw e
      ])

  abbrev Dead : Page fl dt view → Type 0
  Dead t = (j : ℕ) (info : Info F) → shown fl dt view j t ≡ some info → info.alive ≡ false

  listed-Dead :
      (rows : List (Row F)) (t : Page fl dt view)
      → AllGone fl dt view rows
      → Dead t
      → Dead (list_process dt view (keyed fl dt view rows) t)
  unfolding list_process
  listed-Dead [] t g d = d
  listed-Dead (row ∷ rows) t (e, g) d =
      listed-Dead rows (add_item dt view row.id (arrived fl row) t) g
        (λ j info h. ground (arith, info_of-add_item dt view row.id j (arrived fl row) t, d j info))

  -- A browser that connects: what is left of the archive, and the table.
  pub greeting-IsMirror :
      {n : ℕ} {w : Workers F} {page : Page fl dt view} (k : ℕ) (blank : Page fl dt view)
      → blank.items ≡ []
      → IsMirror fl dt view n w page
      → IsMirror fl dt view n w (receive_all fl dt view (greeting fl (drop k w.archive) w) blank)
  unfolding greeting receive_all receive taken lookup
  greeting-IsMirror {n} {w} k blank e v = record {
    sorted = v.sorted;
    queued = v.queued;
    known = v.known;
    gone = v.gone;
    shows = λ id row h. (
      arrived fl row,
      all_listed id ∙ ap (λ o. taken o (shown fl dt view id archive_page)) h,
      (refl, refl, refl, refl, refl),
      (v.known id row h).3,
    );
    live = λ id info h a. elim (Option-cases (lookup id w.workers)) [
      | inl absent ↦
          let here : shown fl dt view id archive_page ≡ some info =
            sym (all_listed id ∙ ap (λ o. taken o (shown fl dt view id archive_page)) absent) ∙ h in
          absurd (ground (arith, archive-Dead id info here))
      | inr (row, present) ↦ rw present
    ];
  }
    where
      archive_page : Page fl dt view
      archive_page = list_process dt view (keyed fl dt view (drop k w.archive)) blank

      all_listed :
          (id : ℕ)
          → shown fl dt view id
              (list_process dt view (keyed fl dt view (values fl w.workers)) archive_page)
            ≡ taken (lookup id w.workers) (shown fl dt view id archive_page)
      all_listed id = listed 0 id w.workers archive_page v.sorted (λ i row h. (v.known i row h).1)

      archive-Dead : Dead archive_page
      archive-Dead =
          listed-Dead (drop k w.archive) blank (AllGone-drop k w.archive v.gone) (λ j info h.
            let nothing : none ≡ some info =
              sym (ap (λ m. Option.map (λ w. w.info) (lookup j m)) e) ∙ h in
            cc)
