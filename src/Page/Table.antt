-- ===== src/Page/Table.antt =====
-- The table that Workers.js, Pools.js, Jobs.js, Shares.js and Logs.js of web/public/app each keep:
-- the items by their ids, every one with its row of the page. The library DataTables is a parameter.
pub mod Shown
pub mod Plain
mod Tests
use mathlib.Core.Option
use perfect_miner.Prelude.{
  ℕ, suc, ◌+◌, ◌<◌, ◌≡◌, Option, none, some, List, [], ◌∷◌, arith, ap, ◌∙◌, ◌==◌, if◌then◌else◌,
  Option-cases, inl, inr,
}
use perfect_miner.Prelude.KeyMap.{KeyMap, lookup, insert, lookup-insert}

-- What the pages use of DataTables: `row.add` appends a row and `row(i).data(h)` fills the row i.
pub record DataTable (H : Type 0) : Type 1 where
  pub T : Type 0
  pub size : T → ℕ
  pub add : T → T
  pub fill : ℕ → H → T → T
  pub read : ℕ → T → Option H
  pub size-add : (t : T) → size (add t) ≡ suc (size t)
  pub size-fill : (i : ℕ) (h : H) (t : T) → size (fill i h t) ≡ size t
  pub read-add : (i : ℕ) (t : T) → i < size t → read i (add t) ≡ read i t
  pub read-fill :
      (i j : ℕ) (h : H) (t : T)
      → i < size t
      → read j (fill i h t) ≡ (if j == i then some h else read j t)

-- The handle that `row.add` gave, and the item.
pub record Wrap (V : Type 0) : Type 0 where
  pub row_index : ℕ
  pub info : V

-- `view` makes the cells of a row.
module _ {V H : Type 0} (dt : DataTable H) (view : V → H) where
  open dt use {T, size, add, fill}

  pub record Table : Type 0 where
    pub items : KeyMap (Wrap V)
    pub rows : T

  -- `syncWorker`, `syncPool` and `sync`
  unfoldable pub sync : ℕ → Table → Table
  sync id t = elim (lookup id t.items) [
    | none ↦ t
    | some w ↦ record t { rows = fill w.row_index (view w.info) t.rows }
  ]

  unfoldable pub put_item : ℕ → V → Table → Table
  put_item id item t = elim (lookup id t.items) [
    | none ↦ record t {
      items = insert id (record { row_index = size t.rows; info = item }) t.items;
      rows = add t.rows;
    }
    | some w ↦ record t { items = insert id (record w { info = item }) t.items }
  ]

  unfoldable pub add_item : ℕ → V → Table → Table
  add_item id item t = sync id (put_item id item t)

  -- `updateMini`: an item that is not there is left out.
  unfoldable pub update : ℕ → (V → V) → Table → Table
  update id change t = elim (lookup id t.items) [
    | none ↦ t
    | some w ↦ sync id (record t { items = insert id (record w { info = change w.info }) t.items })
  ]

  unfoldable pub list_process : List (ℕ × V) → Table → Table
  list_process [] t = t
  list_process ((id, item) ∷ items) t = list_process items (add_item id item t)

  -- The item under an id.
  abbrev pub info_of : ℕ → Table → Option V
  info_of id t = Option.map (λ w. w.info) (lookup id t.items)

  pub items-sync : (id : ℕ) (t : Table) → (sync id t).items ≡ t.items
  unfolding sync
  items-sync id t = ground arith

  items-put_item :
      (id j : ℕ) (item : V) (t : Table)
      → info_of j (put_item id item t) ≡ (if j == id then some item else info_of j t)
  unfolding put_item
  items-put_item id j item t = elim (Option-cases (lookup id t.items)) [
    | inl e ↦ rw (e, put_item) (rw lookup-insert (ground arith))
    | inr (w, e) ↦ rw (e, put_item) (rw lookup-insert (ground arith))
  ]

  pub info_of-add_item :
      (id j : ℕ) (item : V) (t : Table)
      → info_of j (add_item id item t) ≡ (if j == id then some item else info_of j t)
  unfolding add_item
  info_of-add_item id j item t =
      ap (λ m. Option.map (λ w. w.info) (lookup j m)) (items-sync id (put_item id item t))
      ∙ items-put_item id j item t

  pub info_of-update :
      (id j : ℕ) (change : V → V) (t : Table)
      → info_of j (update id change t)
        ≡ (if j == id then Option.map change (info_of j t) else info_of j t)
  unfolding update
  info_of-update id j change t = elim (Option-cases (lookup id t.items)) [
    | inl e ↦ rw (e, update) (ground (arith, e))
    | inr (w, e) ↦ rw (e, update) (rw items-sync (rw lookup-insert (ground (arith, e))))
  ]
