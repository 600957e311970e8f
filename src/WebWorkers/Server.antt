-- ===== src/WebWorkers/Server.antt =====
-- `WebControlWorkers` (ControlServer/WebControlWorkers.js): one `ControlWorker` for each worker that is
-- connected, and the events that reach it.
use perfect_miner.Prelude.{ℕ, none, some, Option}
use perfect_miner.Prelude.KeyMap.{KeyMap, lookup, insert, remove}
use perfect_miner.Prelude.Floats.{Floats}
use perfect_miner.WebWorkers.{
  Settings, AppOptions, Control, Method, new_control, control, app_options_received,
  app_workers_info, app_info, app_close,
}

-- What a browser asks for, and what the program of the worker tells.
pub data Event (F : Type 0) : Type 0 where
  asked : Method → Option (Settings F) → Event F
  told_options : AppOptions F → Event F
  told_workers_info : Event F
  told_info : F → F → Event F
  told_close : Event F

module _ (fl : Floats) where
  open fl use {F}

  unfoldable pub handle : Event F → Control F → Control F
  handle (asked method params) c = control fl method params c
  handle (told_options o) c = app_options_received fl o c
  handle told_workers_info c = app_workers_info fl c
  handle (told_info hash_rate min_delta) c = app_info fl hash_rate min_delta c
  handle told_close c = app_close fl c

  unfoldable pub worker_connect : ℕ → KeyMap (Control F) → KeyMap (Control F)
  worker_connect id m = insert id (new_control fl) m

  -- The event for a worker that is not known is dropped.
  unfoldable pub worker_event : ℕ → Event F → KeyMap (Control F) → KeyMap (Control F)
  worker_event id e m = elim (lookup id m) [ none ↦ m | some c ↦ insert id (handle e c) m ]

  unfoldable pub worker_disconnect : ℕ → KeyMap (Control F) → KeyMap (Control F)
  worker_disconnect id m = elim (lookup id m) [ none ↦ m | some c ↦ remove id m ]
