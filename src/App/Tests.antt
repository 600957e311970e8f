-- ===== src/App/Tests.antt =====
-- A program that is started twice, with whole numbers for doubles.
use perfect_miner.Prelude.{ℕ, refl, true, none, some}
use perfect_miner.Prelude.Int.{pos}
use perfect_miner.Prelude.Text.{codes}
use perfect_miner.Prelude.Floats.{whole}
use perfect_miner.Json.{null}
use perfect_miner.App.{
  App, StartOptions, new_app, handle, connected, start, net_client_emit, control_start,
  control_close, close_current,
}
use perfect_miner.App.Single.{IsSingle, Reach, begin, next, Reach-IsSingle}

abbrev wanted : StartOptions
wanted = record {
  thread_count = some (pos 4);
  process_priority = some (pos 1);
  thread_priority = none;
  worker_x64 = true;
  worker_path = codes "worker-a.exe";
}

abbrev idle : App ℕ
idle = new_app whole 1 (codes "x86/") (codes "x64/") null

abbrev once : App ℕ
once = handle whole 1 (start 100 wanted) (handle whole 1 connected idle)

abbrev twice : App ℕ
twice = handle whole 1 (start 200 wanted) once

twice-Reach : Reach whole 1 (codes "x86/") (codes "x64/") null twice
unfolding handle net_client_emit control_start control_close close_current new_app
twice-Reach = next (start 200 wanted) (next (start 100 wanted) (next connected begin tt) refl) refl

Reach-IsSingle_example : IsSingle whole 1 twice
Reach-IsSingle_example = Reach-IsSingle whole 1 twice-Reach
