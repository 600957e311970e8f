-- ===== src/Page/Table/Shown.antt =====
-- Every item of a page stands in a row of its own, which shows its last state.
use perfect_miner.Prelude.{
  ℕ, ◌≤◌, ◌<◌, ◌≡◌, ◌≢◌, ◌⊎◌, sym, ap, refl, ◌∙◌, none, some, List, [], ◌∷◌, arith, if◌then◌else◌,
  Option-cases, inl, inr, ==_refl,
}
use perfect_miner.Prelude.KeyMap.{lookup, insert, lookup-insert, lookup-insert_cases}
use perfect_miner.Page.Table.{
  DataTable, Wrap, Table, sync, put_item, add_item, update, list_process,
}

module _ {V H : Type 0} (dt : DataTable H) (view : V → H) where
  open dt use {T, size, add, fill, read, size-add, size-fill, read-add, read-fill}

  pub record IsShown (t : Table dt view) : Type 0 where
    pub inside : (id : ℕ) (w : Wrap V) → lookup id t.items ≡ some w → w.row_index < size t.rows
    pub filled :
        (id : ℕ) (w : Wrap V)
        → lookup id t.items ≡ some w
        → read w.row_index t.rows ≡ some (view w.info)
    pub apart :
        (i j : ℕ) (w u : Wrap V)
        → lookup i t.items ≡ some w
        → lookup j t.items ≡ some u
        → w.row_index ≡ u.row_index
        → i ≡ j

  module _ (id : ℕ) (w : Wrap V) (r : T) (t : Table dt view) (s : IsShown t) where
    abbrev put : Table dt view
    put = record { items = insert id w t.items; rows = fill w.row_index (view w.info) r }

    looked :
        (j : ℕ) (u : Wrap V)
        → lookup j put.items ≡ some u
        → ((j ≡ id) × (u ≡ w)) ⊎ ((j ≢ id) × (lookup j t.items ≡ some u))
    looked j u e = lookup-insert_cases id j w u t.items e

    module _ (longer : size t.rows ≤ size r)
        (same_rows : (i : ℕ) → i < size t.rows → read i r ≡ read i t.rows)
        (room : w.row_index < size r)
        (own : (j : ℕ) (u : Wrap V)
          → lookup j t.items ≡ some u
          → u.row_index ≡ w.row_index
          → j ≡ id) where
      put-inside : (j : ℕ) (u : Wrap V) → lookup j put.items ≡ some u → u.row_index < size put.rows
      put-inside j u e = elim (looked j u e) [
        | inl (_, same) ↦ ground (arith, size-fill w.row_index (view w.info) r)
        | inr (_, old) ↦ ground (arith, size-fill w.row_index (view w.info) r, s.inside j u old)
      ]

      put-filled :
          (j : ℕ) (u : Wrap V)
          → lookup j put.items ≡ some u
          → read u.row_index put.rows ≡ some (view u.info)
      put-filled j u e = elim (looked j u e) [
        | inl (_, same) ↦
            rw same (ground (arith, read-fill w.row_index w.row_index (view w.info) r room))
        | inr (other, old) ↦ ground (
          arith,
          read-fill w.row_index u.row_index (view w.info) r room,
          s.filled j u old,
          same_rows u.row_index (s.inside j u old),
          own j u old,
        )
      ]

      put-apart :
          (i j : ℕ) (v u : Wrap V)
          → lookup i put.items ≡ some v
          → lookup j put.items ≡ some u
          → v.row_index ≡ u.row_index
          → i ≡ j
      put-apart i j v u ei ej same_row = elim (looked i v ei) [
        | inl (ii, vw) ↦ elim (looked j u ej) [
          | inl (jj, uw) ↦ cc
          | inr (_, old) ↦ ii ∙ sym (own j u old (sym same_row ∙ ap (λ x. x.row_index) vw))
        ]
        | inr (_, old) ↦ elim (looked j u ej) [
          | inl (jj, uw) ↦ own i v old (same_row ∙ ap (λ x. x.row_index) uw) ∙ sym jj
          | inr (_, also) ↦ s.apart i j v u old also same_row
        ]
      ]

      put-IsShown : IsShown put
      put-IsShown = record { inside = put-inside; filled = put-filled; apart = put-apart }

  sync_stored :
      (id : ℕ) (w : Wrap V) (r : T) (t : Table dt view) (s : IsShown t)
      → sync dt view id (record { items = insert id w t.items; rows = r }) ≡ put id w r t s
  unfolding sync
  sync_stored id w r t s =
      let e : lookup id (insert id w t.items) ≡ some w =
        lookup-insert id id w t.items
        ∙ ap (λ b. if b then some w else lookup id t.items) (==_refl id) in
      rw (e, sync) refl

  add_item-IsShown :
      (id : ℕ) (item : V) (t : Table dt view) → IsShown t → IsShown (add_item dt view id item t)
  unfolding add_item put_item
  add_item-IsShown id item t s = elim (Option-cases (lookup id t.items)) [
    | inl e ↦
        rw (e, put_item)
          (rw (sync_stored id (record { row_index = size t.rows; info = item }) (add t.rows) t s) (
            put-IsShown id (record { row_index = size t.rows; info = item }) (add t.rows) t s
              (omega (arith, size-add t.rows)) (λ i h. read-add i t.rows h)
              (omega (arith, size-add t.rows))
              (λ j u old same. absurd (omega (arith, s.inside j u old)))))
    | inr (w, e) ↦
        rw (e, put_item)
          (rw (sync_stored id (record w { info = item }) t.rows t s) (
            put-IsShown id (record w { info = item }) t.rows t s (omega arith) (λ i h. refl)
              (s.inside id w e) (λ j u old same. s.apart j id u w old e same)))
  ]

  update-IsShown :
      (id : ℕ) (change : V → V) (t : Table dt view)
      → IsShown t
      → IsShown (update dt view id change t)
  unfolding update
  update-IsShown id change t s = elim (Option-cases (lookup id t.items)) [
    | inl e ↦ rw (e, update) s
    | inr (w, e) ↦
        rw (e, update)
          (rw (sync_stored id (record w { info = change w.info }) t.rows t s) (
            put-IsShown id (record w { info = change w.info }) t.rows t s (omega arith)
              (λ i h. refl) (s.inside id w e) (λ j u old same. s.apart j id u w old e same)))
  ]

  -- What a page has been told, from the start on.
  pub data Reach : Table dt view → Type 0 where
    begin : (t : Table dt view) → t.items ≡ [] → Reach t
    listed :
        {t : Table dt view} (items : List (ℕ × V)) → Reach t → Reach (list_process dt view items t)
    changed :
        {t : Table dt view} (id : ℕ) (change : V → V) → Reach t → Reach (update dt view id change t)

  list_process-IsShown :
      (items : List (ℕ × V)) (t : Table dt view)
      → IsShown t
      → IsShown (list_process dt view items t)
  unfolding list_process
  list_process-IsShown [] t s = s
  list_process-IsShown ((id, item) ∷ items) t s =
      list_process-IsShown items (add_item dt view id item t) (add_item-IsShown id item t s)

  empty-IsShown : (t : Table dt view) → t.items ≡ [] → IsShown t
  unfolding lookup
  empty-IsShown t e = record {
    inside = λ id w h. absurd (nothing id w h);
    filled = λ id w h. absurd (nothing id w h);
    apart = λ i j w u h _ _. absurd (nothing i w h);
  }
    where
      nothing : (id : ℕ) (w : Wrap V) → lookup id t.items ≡ some w → ⊥
      nothing id w h = let gone : none ≡ some w = sym (ap (lookup id) e) ∙ h in cc

  -- Whatever a page is told, in whatever order, every item stands in a row of its own of the
  -- table, and that row shows the state of the item that was told last.
  pub Reach-IsShown : {t : Table dt view} → Reach t → IsShown t
  Reach-IsShown (begin t e) = empty-IsShown t e
  Reach-IsShown (listed {t} items r) = list_process-IsShown items t (Reach-IsShown r)
  Reach-IsShown (changed {t} id change r) = update-IsShown id change t (Reach-IsShown r)
