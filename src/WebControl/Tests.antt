-- ===== src/WebControl/Tests.antt =====
-- Two pools, and the developers' time.
use perfect_miner.Prelude.{false, none, some, List, [], ◌∷◌}
use perfect_miner.Prelude.Int.{pos}
use perfect_miner.Prelude.Text.{codes}
use perfect_miner.WebControl.{
  PoolInfo, WebControl, new_web_control, handle, dev_begun, dev_pools, asked_connect,
}
use perfect_miner.WebControl.Kept.{IsFair}
use perfect_miner.WebControl.History.{Reach, begin, next, Reach-IsFair}

abbrev pool : PoolInfo
pool = record {
  pool_address = codes "pool:3333";
  keepalive = some (pos 5);
  emu_nicehash = false;
  max_workers = pos 500;
  retry_count_connect = none;
  pool_count = 0;
}

abbrev pools : List PoolInfo
pools = pool ∷ pool ∷ []

abbrev busy : WebControl
busy = handle dev_begun (
    handle (dev_pools (codes "dev:1" ∷ []))
      (handle (asked_connect 1) (new_web_control pools false none)))

busy-Reach : Reach pools false none busy
busy-Reach = next dev_begun (next (dev_pools (codes "dev:1" ∷ [])) (next (asked_connect 1) begin))

Reach-IsFair_example : IsFair false busy
Reach-IsFair_example = Reach-IsFair pools false none busy-Reach
