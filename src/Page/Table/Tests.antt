-- ===== src/Page/Table/Tests.antt =====
-- A page that is told of an item twice.
use perfect_miner.Prelude.{suc, ◌+◌, refl, [], ◌∷◌}
use perfect_miner.Page.Table.{Table, list_process, update}
use perfect_miner.Page.Table.Plain.{plain_rows}
use perfect_miner.Page.Table.Shown.{begin, listed, changed, IsShown, Reach-IsShown}

abbrev blank : Table plain_rows (λ v. v + 100)
blank = record { items = []; rows = [] }

Reach-IsShown_example :
    IsShown plain_rows
      (λ v. v + 100)
      (update plain_rows
        (λ v. v + 100)
        4
        suc
        (list_process plain_rows (λ v. v + 100) ((4, 1) ∷ (2, 1) ∷ (4, 7) ∷ []) blank))
Reach-IsShown_example =
    Reach-IsShown plain_rows (λ v. v + 100)
      (changed 4 suc (listed ((4, 1) ∷ (2, 1) ∷ (4, 7) ∷ []) (begin blank refl)))
