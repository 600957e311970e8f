-- ===== src/WebStat/Workers/Tests.antt =====
-- A worker that gets a share accepted and goes.
use perfect_miner.Prelude.{ℕ, refl, none, []}
use perfect_miner.Prelude.Text.{codes}
use perfect_miner.Prelude.Floats.{whole}
use perfect_miner.Prelude.KeyMap.{lookup, insert}
use perfect_miner.WebStat.Workers.{
  Workers, connected, disconnected, share_accepted, on_event, count_share, at_worker,
}
use perfect_miner.WebStat.Workers.Totals.{Reach, begin, next, IsTotalled, Reach-IsTotalled}

abbrev empty : Workers ℕ
empty = record { workers = []; archive = []; update_mini = [] }

abbrev mined : Workers ℕ
mined = on_event whole (share_accepted 7) (on_event whole (connected 7 none) empty)

abbrev gone : Workers ℕ
gone = on_event whole (disconnected 7 (codes "bye") 0) mined

gone-Reach : Reach whole 1 0 [] gone
unfolding on_event lookup insert count_share at_worker
gone-Reach =
    next (disconnected 7 (codes "bye") 0)
      (next (share_accepted 7) (next (connected 7 none) begin refl) tt) tt

Reach-IsTotalled_example : IsTotalled whole 1 0 [] gone
Reach-IsTotalled_example = Reach-IsTotalled whole gone-Reach
