-- ===== src/Page/Workers/Mirror.antt =====
-- The table of the workers in a browser (web/public/app/Workers.js) against the one of the server
-- (ControlServer/WebStat/Workers.js), through the messages between them.
use mathlib.Core.Option
use perfect_miner.Prelude.{
  ℕ, ◌<◌, ◌≡◌, sym, ap, ◌∙◌, Option, some, true, false, Bool-cases, inl, inr, List, [], ◌∷◌, arith,
  ◌==◌, if◌then◌else◌,
}
use perfect_miner.Prelude.Floats.{Floats}
use perfect_miner.Prelude.KeyMap.{
  lookup, insert, has, Above, lookup-insert_cases, insert-Above, lookup-insert,
}
use perfect_miner.Page.Table.{DataTable, info_of}
use perfect_miner.WebStat.Workers.{Row, Workers}
use perfect_miner.WebStat.Workers.Told.{Value, count, double, text}
use perfect_miner.Page.Workers.{Info, Page}
use perfect_miner.Page.Workers.Pending.{counts_of, last_counts, Below}

module _ (fl : Floats) {H : Type 0} (dt : DataTable H) (view : Info fl.F → H) where
  open fl use {F}

  abbrev pub shown : ℕ → Page fl dt view → Option (Info F)
  shown = info_of dt view

  -- The fields that the page keeps up to date.
  abbrev pub Agrees : Row F → Info F → Type 0
  Agrees row info =
      (info.name ≡ some (text row.name))
      × (info.pool_id ≡ some (count row.pool_id))
      × (info.accepted_share_count ≡ some (count row.accepted_share_count))
      × (info.rejected_share_count ≡ some (count row.rejected_share_count))
      × (info.alive ≡ row.alive)

  abbrev pub counts : Row F → Value F × Value F
  counts row = (some (double row.hash_count), some (double row.share_count))

  abbrev pub AllGone : List (Row F) → Type 0
  AllGone [] = Unit {0}
  AllGone (row ∷ rows) = (row.alive ≡ false) × AllGone rows

  -- `n` is above all ids so far.
  pub record IsMirror (n : ℕ) (w : Workers F) (page : Page fl dt view) : Type 0 where
    pub sorted : Above 0 w.workers
    pub queued : Below fl n w.update_mini
    pub known :
        (id : ℕ) (row : Row F)
        → lookup id w.workers ≡ some row
        → (id < n)
          × (row.id ≡ id)
          × (row.alive ≡ true)
          × (last_counts fl id w.update_mini (counts row) ≡ counts row)
    pub gone : AllGone w.archive
    pub shows :
        (id : ℕ) (row : Row F)
        → lookup id w.workers ≡ some row
        → (info : Info F) × (shown id page ≡ some info)
          × Agrees row info
          × (last_counts fl id w.update_mini (counts_of fl info) ≡ counts row)
    pub live :
        (id : ℕ) (info : Info F)
        → shown id page ≡ some info
        → info.alive ≡ true
        → has id w.workers ≡ true

  -- A change of one row, and of its object on the page.
  module _ {n : ℕ} {w : Workers F} {page : Page fl dt view} (v : IsMirror n w page) (id : ℕ)
      (row row' : Row F) (g : Info F → Info F) (page' : Page fl dt view)
      (found : lookup id w.workers ≡ some row) (same_id : row'.id ≡ row.id)
      (same_alive : row'.alive ≡ row.alive) (same_counts : counts row' ≡ counts row)
      (told : (j : ℕ)
        → shown j page' ≡ (if j == id then Option.map g (shown j page) else shown j page))
      (agree : (info : Info F) → Agrees row info → Agrees row' (g info))
      (kept : (info : Info F) → counts_of fl (g info) ≡ counts_of fl info)
      (lives : (info : Info F) → (g info).alive ≡ info.alive) where
    abbrev after : Workers F
    after = record w { workers = insert id row' w.workers }

    touch-known :
        (j : ℕ) (r : Row F)
        → lookup j after.workers ≡ some r
        → (j < n)
          × (r.id ≡ j)
          × (r.alive ≡ true)
          × (last_counts fl j w.update_mini (counts r) ≡ counts r)
    touch-known j r e = elim (lookup-insert_cases id j row' r w.workers e) [
      | inl (same, new) ↦
          let k = v.known id row found in
          rw same (
            rw new (
              k.0,
              same_id ∙ k.1,
              same_alive ∙ k.2,
              ap (last_counts fl id w.update_mini) same_counts ∙ k.3 ∙ sym same_counts,
            ))
      | inr (_, old) ↦ v.known j r old
    ]

    touch-shows :
        (j : ℕ) (r : Row F)
        → lookup j after.workers ≡ some r
        → (info : Info F) × (shown j page' ≡ some info)
          × Agrees r info
          × (last_counts fl j w.update_mini (counts_of fl info) ≡ counts r)
    touch-shows j r e = elim (lookup-insert_cases id j row' r w.workers e) [
      | inl (same, new) ↦
          let (info, here, ok, c) = v.shows id row found in
          rw same (
            rw new (
              g info,
              ground (arith, told id, here),
              agree info ok,
              ap (last_counts fl id w.update_mini) (kept info) ∙ c ∙ sym same_counts,
            ))
      | inr (other, old) ↦
          let (info, here, ok, c) = v.shows j r old in (info, ground (arith, told j, here), ok, c)
    ]

    touch-live :
        (j : ℕ) (info : Info F)
        → shown j page' ≡ some info
        → info.alive ≡ true
        → has j after.workers ≡ true
    touch-live j info e a = elim (Bool-cases (j == id)) [
      | inl same ↦ ground (arith, lookup-insert id j row' w.workers)
      | inr other ↦
          let old : has j w.workers ≡ true = v.live j info (ground (arith, told j)) a in
          ground (arith, lookup-insert id j row' w.workers)
    ]

    pub touch-IsMirror : IsMirror n after page'
    touch-IsMirror = record {
      sorted = insert-Above 0 id row' w.workers v.sorted (omega arith);
      queued = v.queued;
      known = touch-known;
      gone = v.gone;
      shows = touch-shows;
      live = touch-live;
    }
