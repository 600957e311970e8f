-- ===== src/WebWorkers.antt =====
-- `ControlWorker` of ControlServer/WebControlWorkers.js: what a browser does with a worker, and the
-- self test that finds the fastest program. A callback is a value of `Then`; a list of programs that
-- are still to be tested stands for the index into all of them. Left out is the text of the progress.
mod Types
pub mod Live
pub mod History
pub mod Ranking
pub mod SelfTest
pub mod Server
mod Tests
use perfect_miner.Prelude.{
  ℕ, suc, ◌+◌, Bool, true, false, ◌&&◌, Option, none, some, List, [], ◌∷◌, ◌++◌, map, leb,
  if◌then◌else◌, is_some,
}
use perfect_miner.Prelude.Int.{ℤ, pos}
use perfect_miner.Prelude.Text.{Text, codes, text_eq}
use perfect_miner.Prelude.Floats.{Floats}
use perfect_miner.Common.{parse_integer}
use perfect_miner.Constants.{parse_proc_prio}
pub use Types.*

module _ (fl : Floats) where
  open fl use {F, lt, of_ℕ}

  unfoldable pub new_control : Control F
  new_control = record {
    worker = record {
      name = [];
      state = stopped;
      cpu_count = pos 1;
      thread_count = pos 1;
      process_priority = pos 1;
      thread_priority = pos 2;
      lock = false;
      target_state = [];
      worker_path = none;
      worker_x64 = false;
      workers_perfomance = none;
      support_x86 = false;
      support_x64 = false;
      hash_rate = of_ℕ 0;
    };
    worker_x86_list = none;
    worker_x64_list = none;
    on_info = none;
    next_cb = none;
    messages = [];
  }

  unfoldable pub send : (Worker F → Message F) → Control F → Control F
  send message c = record c { messages = c.messages ++ message c.worker ∷ [] }

  unfoldable pub lock : Control F → Control F
  lock c = send show (record c { worker = record c.worker { lock = true } })

  unfoldable pub unlock : Bool → Control F → Control F
  unlock true c = send show (record c { worker = record c.worker { lock = false } })
  unlock false c = record c { worker = record c.worker { lock = false } }

  unfoldable pub control_options : Control F → Control F
  control_options c = send app_options (send save_options c)

  unfoldable pub control_start : Then F → Control F → Control F
  control_start k c = record (send app_start c) { next_cb = some k }

  unfoldable pub control_stop : Then F → Control F → Control F
  control_stop k c = record (send (λ w. app_stop) c) { next_cb = some k }

  unfoldable pub control_restart : Then F → Control F → Control F
  control_restart k c = elim c.worker.state [
    | working ↦ control_stop (start_then k) c
    | stopped ↦ control_start k c
  ]

  -- `setWorker`; only the worker's own program has the last settings.
  unfoldable pub set_common : Settings F → Worker F → Worker F
  set_common s w = record w {
    name = s.name;
    thread_count = parse_integer s.thread_count (some (pos 1)) (some (pos 1)) (some (pos 1048576));
    process_priority = parse_proc_prio s.process_priority (pos 1);
    thread_priority = parse_proc_prio s.thread_priority (pos 2);
    target_state = s.target_state;
  }

  unfoldable pub set_worker : Option (Settings F) → Bool → Control F → Control F
  set_worker none is_sv c = c
  set_worker (some s) false c = record c { worker = set_common s c.worker }
  set_worker (some s) true c = record c {
    worker = record (set_common s c.worker) {
      worker_path = s.worker_path;
      worker_x64 = s.worker_x64;
      workers_perfomance = s.workers_perfomance;
      support_x86 = s.support_x86;
      support_x64 = s.support_x64;
    };
  }

  -- `sort` by the time: the fastest first, and equal times in the order of the tests.
  unfoldable pub insert_sorted : Measured F → List (Measured F) → List (Measured F)
  insert_sorted m [] = m ∷ []
  insert_sorted m (n ∷ ms) =
      let later = insert_sorted m ms in
      if lt n.min_delta_micro_sec_hash m.min_delta_micro_sec_hash then n ∷ later else m ∷ n ∷ ms

  unfoldable pub sort_measured : List (Measured F) → List (Measured F)
  sort_measured [] = []
  sort_measured (m ∷ ms) = insert_sorted m (sort_measured ms)

  -- `workers_perfomance[0]`
  unfoldable pub choose : List (Measured F) → Worker F → Worker F
  choose [] w = record w { worker_path = none; worker_x64 = false }
  choose (m ∷ ms) w = record w {
    worker_path = some m.program.worker_path;
    worker_x64 = m.program.worker_x64;
  }

  unfoldable pub finish_test : Saved → List (Measured F) → Control F → Control F
  finish_test saved measured c = control_options (record c {
    worker = record (choose (sort_measured measured) c.worker) {
      workers_perfomance = some (sort_measured measured);
      thread_count = saved.thread_count;
      process_priority = saved.process_priority;
      thread_priority = saved.thread_priority;
    };
  })

  -- `controlStartLongTest`, given what is done with the result.
  unfoldable pub start_long_test :
      (Bool → Control F → Control F)
      → List Program
      → Saved
      → List (Measured F)
      → Then F
      → Control F
      → Control F
  start_long_test done [] saved measured k c = done true (finish_test saved measured c)
  start_long_test done (p ∷ rest) saved measured k c =
      let shown = send show c in
      control_start (tested p rest saved measured k) (record shown {
        worker = record shown.worker {
          worker_path = some p.worker_path;
          worker_x64 = p.worker_x64;
          thread_count = pos 1;
          process_priority = pos 3;
          thread_priority = pos 4;
        };
      })

  unfoldable pub programs : List Text → List Text → List Program
  programs x86 x64 =
      map (λ path. record { worker_path = path; worker_x64 = false }) x86
      ++ map (λ path. record { worker_path = path; worker_x64 = true }) x64

  unfoldable pub save_worker : Worker F → Saved
  save_worker w = record {
    thread_count = w.thread_count;
    process_priority = w.process_priority;
    thread_priority = w.thread_priority;
  }

  unfoldable pub run_test :
      (Bool → Control F → Control F)
      → Option (List Text)
      → Option (List Text)
      → Then F
      → Control F
      → Control F
  run_test done (some x86) (some x64) k c =
      start_long_test done (programs x86 x64) (save_worker c.worker) [] k
        (record c { worker = record c.worker { support_x86 = false; support_x64 = false } })
  run_test done _ _ k c = done false c

  unfoldable pub control_test : (Bool → Control F → Control F) → Then F → Control F → Control F
  control_test done k c = run_test done c.worker_x86_list c.worker_x64_list k c

  -- A callback is called, with the truth of its result.
  unfoldable pub run : Then F → Bool → Control F → Control F
  run unlock_shown b c = unlock true c
  run unlock_by_result b c = unlock b c
  run (start_then k) b c = control_start k c
  run (test_then k) b c = control_test (run k) k c
  run set_working b c =
      unlock true
        (control_options (record c { worker = record c.worker { target_state = codes "working" } }))
  run (tested p rest saved measured k) true c = record c {
    on_info = some (record {
      program = p;
      rest = rest;
      saved = saved;
      measured = measured;
      next = k;
      count = 0;
    });
  }
  run (tested p rest saved measured k) false c = start_long_test (run k) rest saved measured k c
  run (next_test rest saved measured k) b c = start_long_test (run k) rest saved measured k c

  -- `nextEmit` of the callback of `controlWaitStartOrClose`.
  unfoldable pub next_emit : Bool → Control F → Control F
  next_emit is_start c = elim c.next_cb [
    | none ↦ c
    | some k ↦ run k is_start (record c { next_cb = none })
  ]

  unfoldable pub want : Text → Control F → Control F
  want target c =
      lock (control_options (record c { worker = record c.worker { target_state = target } }))

  unfoldable pub is_working : State → Bool
  is_working stopped = false
  is_working working = true

  -- `restart`, which a browser may ask for as well, has no case.
  unfoldable pub run_method : Method → Option (Settings F) → Control F → Control F
  run_method start params c = control_start unlock_shown (want (codes "working") c)
  run_method stop params c = control_stop unlock_shown (want (codes "stopped") c)
  run_method options params c =
      let c' = control_options (set_worker params false (lock c)) in
      if is_working c'.worker.state then control_restart unlock_by_result c' else unlock true c'
  run_method options_name params c = control_options (set_worker params false c)
  run_method selftest params c =
      let c' = lock c in
      if is_working c'.worker.state
      then control_stop (test_then (start_then unlock_by_result)) c'
      else control_test (run unlock_by_result) unlock_by_result c'
  run_method restart params c = c

  unfoldable pub control : Method → Option (Settings F) → Control F → Control F
  control method params c = if c.worker.lock then c else run_method method params c

  unfoldable pub take_options : AppOptions F → Control F → Control F
  take_options o c = set_worker o.options true (record c {
    worker_x86_list = o.worker_x86_list;
    worker_x64_list = o.worker_x64_list;
    worker = record c.worker {
      cpu_count = elim o.os_cpu_count [
        | none ↦ c.worker.cpu_count
        | some n ↦ parse_integer n (some (pos 1)) (some (pos 1)) (some (pos 1048576))
      ];
    };
  })

  unfoldable pub is_tested : Worker F → Bool
  is_tested w = is_some w.workers_perfomance && is_some w.worker_path

  unfoldable pub app_options_received : AppOptions F → Control F → Control F
  app_options_received o c =
      let c' = lock (send show (take_options o c)) in
      if is_tested c'.worker
      then (if text_eq c'.worker.target_state (codes "working")
          then control_start unlock_by_result c'
          else unlock true c')
      else control_test (run (start_then set_working)) (start_then set_working) c'

  unfoldable pub app_workers_info : Control F → Control F
  app_workers_info c =
      next_emit true (send show (record c { worker = record c.worker { state = working } }))

  unfoldable pub app_close : Control F → Control F
  app_close c =
      next_emit false (send show (record c { worker = record c.worker { state = stopped } }))

  -- The hash rate and the time of the fastest hash that a program reports; the tenth report counts.
  unfoldable pub take_info : F → F → OnInfo F → Control F → Control F
  take_info hash_rate min_delta o c =
      let shown = send show (record c { worker = record c.worker { hash_rate = hash_rate } }) in
      if leb 10 (o.count + 1)
      then control_stop
          (next_test o.rest o.saved
            (o.measured
              ++ record { program = o.program; min_delta_micro_sec_hash = min_delta } ∷ [])
            o.next)
          (record shown { on_info = none })
      else record shown { on_info = some (record o { count = o.count + 1 }) }

  unfoldable pub app_info : F → F → Control F → Control F
  app_info hash_rate min_delta c = elim c.on_info [
    | none ↦ c
    | some o ↦ take_info hash_rate min_delta o c
  ]
