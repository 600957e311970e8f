-- ===== src/Page/Workers/Tests.antt =====
-- A worker that comes, gets a name and a share accepted, and counts that wait for the timer; then a
-- browser connects.
use perfect_miner.Prelude.{ℕ, refl, none, some, [], arith}
use perfect_miner.Prelude.Text.{codes}
use perfect_miner.Prelude.Floats.{whole}
use perfect_miner.WebStat.Workers.{
  Workers, Counts, connected, named, told_info, share_accepted, on_event,
}
use perfect_miner.WebStat.Workers.Told.{greeting}
use perfect_miner.Page.Table.Plain.{plain_rows}
use perfect_miner.Page.Workers.{Info, Page, receive_all}
use perfect_miner.Page.Workers.Mirror.{IsMirror}
use perfect_miner.Page.Workers.History.{begin, next, join, Reach-IsMirror}

abbrev view : Info ℕ → ℕ
view info = info.id

abbrev at_start : Workers ℕ
at_start = record { workers = []; archive = []; update_mini = [] }

abbrev blank : Page whole plain_rows view
blank = record { items = []; rows = [] }

abbrev told : Counts ℕ
told = record { hash_count = 900; share_count = 3; hash_rate = some 30; job_count = 2 }

-- The server's table, step by step; the page of the browser that connects last owes nothing to the
-- pages before it.
abbrev come : Workers ℕ
come = on_event whole (connected 7 none) at_start

abbrev named_rig : Workers ℕ
named_rig = on_event whole (named 7 (codes "rig")) come

abbrev mined : Workers ℕ
mined = on_event whole (share_accepted 7) named_rig

abbrev counted : Workers ℕ
counted = on_event whole (told_info 7 told) mined

Reach-IsMirror_example :
    IsMirror whole plain_rows view 8 counted
      (receive_all whole plain_rows view (greeting whole counted.archive counted) blank)
Reach-IsMirror_example = Reach-IsMirror whole plain_rows view (
    join 0 blank refl (
      next (told_info 7 told) tt (
        next (share_accepted 7) tt (
          next (named 7 (codes "rig")) tt
            (next (connected 7 none) (omega arith) (begin at_start blank refl refl refl refl))))))
