-- ===== src/WebWorkers/Types.antt =====
-- The data of `ControlWorker` (ControlServer/WebControlWorkers.js).
use perfect_miner.Prelude.{ℕ, Bool, Option, List}
use perfect_miner.Prelude.Int.{ℤ}
use perfect_miner.Prelude.Text.{Text}

pub data State : Type 0 where
  stopped working : State

pub record Program : Type 0 where
  pub worker_path : Text
  pub worker_x64 : Bool

-- An entry of `workers_perfomance`.
pub record Measured (F : Type 0) : Type 0 where
  pub program : Program
  pub min_delta_micro_sec_hash : F

-- The settings that a browser or a worker sends, after the conversions of their types: a number that
-- is none is no number, and a path or a list that is none is falsy.
pub record Settings (F : Type 0) : Type 0 where
  pub name : Text
  pub thread_count : Option ℤ
  pub process_priority : ℤ
  pub thread_priority : ℤ
  pub target_state : Text
  pub worker_path : Option Text
  pub worker_x64 : Bool
  pub workers_perfomance : Option (List (Measured F))
  pub support_x86 : Bool
  pub support_x64 : Bool

pub record Worker (F : Type 0) : Type 0 where
  pub name : Text
  pub state : State
  pub cpu_count : ℤ
  pub thread_count : ℤ
  pub process_priority : ℤ
  pub thread_priority : ℤ
  pub lock : Bool
  pub target_state : Text
  pub worker_path : Option Text
  pub worker_x64 : Bool
  pub workers_perfomance : Option (List (Measured F))
  pub support_x86 : Bool
  pub support_x64 : Bool
  pub hash_rate : F

-- `options` of the worker's program: its settings, its processors and its programs.
pub record AppOptions (F : Type 0) : Type 0 where
  pub options : Option (Settings F)
  pub os_cpu_count : Option (Option ℤ)
  pub worker_x86_list : Option (List Text)
  pub worker_x64_list : Option (List Text)

pub record Saved : Type 0 where
  pub thread_count : ℤ
  pub process_priority : ℤ
  pub thread_priority : ℤ

-- The callbacks: `() => this.unlock()`; `this.unlock.bind(this)`; a start, a self test and the end of
-- `appOptions`; and the two of the self test, when a program has started or not, and has stopped.
pub data Then (F : Type 0) : Type 0 where
  unlock_shown unlock_by_result : Then F
  start_then test_then : Then F → Then F
  set_working : Then F
  tested : Program → List Program → Saved → List (Measured F) → Then F → Then F
  next_test : List Program → Saved → List (Measured F) → Then F → Then F

-- `onInfo`: the program that runs, what follows, and the count.
pub record OnInfo (F : Type 0) : Type 0 where
  pub program : Program
  pub rest : List Program
  pub saved : Saved
  pub measured : List (Measured F)
  pub next : Then F
  pub count : ℕ

pub data Message (F : Type 0) : Type 0 where
  show save_options app_options app_start : Worker F → Message F
  app_stop : Message F

pub record Control (F : Type 0) : Type 0 where
  pub worker : Worker F
  pub worker_x86_list : Option (List Text)
  pub worker_x64_list : Option (List Text)
  pub on_info : Option (OnInfo F)
  pub next_cb : Option (Then F)
  pub messages : List (Message F)

pub data Method : Type 0 where
  start stop options options_name selftest restart : Method
