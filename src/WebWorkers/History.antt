-- ===== src/WebWorkers/History.antt =====
-- Every history of a worker that browsers control.
use perfect_miner.Prelude.{
  ◌≡◌, refl, ap, ◌∙◌, Bool, true, false, Option, none, is_some, if◌then◌else◌,
}
use perfect_miner.Prelude.Floats.{Floats}
use perfect_miner.WebWorkers.{
  unlock_by_result, start_then, test_then, set_working, Settings, AppOptions, Control, Method,
  start, stop, options, options_name, selftest, restart, new_control, send, lock, unlock,
  control_options, control_start, control_stop, control_restart, set_worker, control_test, run,
  next_emit, want, run_method, control, take_options, app_options_received, app_workers_info,
  app_close,
}
use perfect_miner.WebWorkers.Server.{
  Event, asked, told_options, told_workers_info, told_info, told_close, handle,
}
use perfect_miner.WebWorkers.Live.{
  quiet, IsPhased, IsBusy, IsIdle, phased, start-IsPhased, stop-IsPhased, unlock-IsPhased,
  control_test-IsPhased, run-IsPhased, next_emit-IsPhased, app_info-IsPhased, restart-IsPhased,
  set_worker-IsIdle, set_worker-lock, rests, none_of, measures,
}

module _ (fl : Floats) where
  open fl use {F}

  IsIdle-of : (c : Control F) → IsPhased fl c → c.worker.lock ≡ false → IsIdle fl c
  IsIdle-of c p e = let (n, i) = rests fl p e in (none_of fl c.next_cb n, none_of fl c.on_info i)

  quiet_of : (c : Control F) → c.worker.lock ≡ false → IsIdle fl c → IsPhased fl c
  quiet_of c e (n, i) = phased fl e (ap is_some n) (ap is_some i) quiet

  options-IsPhased :
      (b : Bool) (c : Control F)
      → IsBusy fl c
      → IsPhased fl (if b then control_restart fl unlock_by_result c else unlock fl true c)
  options-IsPhased true c h = restart-IsPhased fl unlock_by_result c h
  options-IsPhased false c h = unlock-IsPhased fl true c h

  selftest-IsPhased :
      (b : Bool) (c : Control F)
      → IsBusy fl c
      → IsPhased fl (
          if b
          then control_stop fl (test_then (start_then unlock_by_result)) c
          else control_test fl (run fl unlock_by_result) unlock_by_result c)
  selftest-IsPhased true c h = stop-IsPhased fl _ c h
  selftest-IsPhased false c h = control_test-IsPhased fl _ _ c (run-IsPhased fl unlock_by_result) h

  run_method-IsPhased :
      (m : Method) (params : Option (Settings F)) (c : Control F)
      → c.worker.lock ≡ false
      → IsIdle fl c
      → IsPhased fl (run_method fl m params c)
  unfolding run_method want lock control_options send
  run_method-IsPhased start params c e (n, i) = start-IsPhased fl _ _ (refl, n, i)
  run_method-IsPhased stop params c e (n, i) = stop-IsPhased fl _ _ (refl, n, i)
  run_method-IsPhased options params c e (n, i) =
      let (n', i') = set_worker-IsIdle fl params false (lock fl c) (n, i) in
      options-IsPhased _ _ (set_worker-lock fl params false (lock fl c), n', i')
  run_method-IsPhased options_name params c e h =
      quiet_of (control_options fl (set_worker fl params false c))
        (set_worker-lock fl params false c ∙ e) (set_worker-IsIdle fl params false c h)
  run_method-IsPhased selftest params c e (n, i) = selftest-IsPhased _ _ (refl, n, i)
  run_method-IsPhased restart params c e h = quiet_of c e h

  control-IsPhased :
      (m : Method) (params : Option (Settings F)) (c : Control F)
      → IsPhased fl c
      → IsPhased fl (control fl m params c)
  unfolding control
  control-IsPhased m params c p = decided c.worker.lock refl
    where
      decided :
          (b : Bool) → c.worker.lock ≡ b → IsPhased fl (if b then c else run_method fl m params c)
      decided true e = p
      decided false e = run_method-IsPhased m params c e (IsIdle-of c p e)

  received :
      (b w : Bool) (c : Control F)
      → IsBusy fl c
      → IsPhased fl (
          if b
          then (if w then control_start fl unlock_by_result c else unlock fl true c)
          else control_test fl (run fl (start_then set_working)) (start_then set_working) c)
  received true true c h = start-IsPhased fl unlock_by_result c h
  received true false c h = unlock-IsPhased fl true c h
  received false w c h = control_test-IsPhased fl _ _ c (run-IsPhased fl (start_then set_working)) h

  app_options-IsPhased :
      (o : AppOptions F) (c : Control F) → IsIdle fl c → IsPhased fl (app_options_received fl o c)
  unfolding app_options_received take_options lock send
  app_options-IsPhased o c h =
      let (n, i) = set_worker-IsIdle fl o.options true _ h in received _ _ _ (refl, n, i)

  handle-IsPhased :
      (e : Event F) (c : Control F)
      → IsPhased fl c
      → ((o : AppOptions F) → e ≡ told_options o → c.worker.lock ≡ false)
      → IsPhased fl (handle fl e c)
  unfolding handle app_workers_info app_close send
  handle-IsPhased (asked m params) c p timely = control-IsPhased m params c p
  handle-IsPhased (told_options o) c p timely =
      app_options-IsPhased o c (IsIdle-of c p (timely o refl))
  handle-IsPhased told_workers_info c p timely = next_emit-IsPhased fl true _ p
  handle-IsPhased (told_info hash_rate min_delta) c p timely =
      app_info-IsPhased fl hash_rate min_delta c p
  handle-IsPhased told_close c p timely = next_emit-IsPhased fl false _ p

  -- Events in which the program tells its options only while the worker is not locked.
  pub data Reach : Control F → Type 0 where
    connected : Reach (new_control fl)
    handled :
        (e : Event F) {c : Control F}
        → Reach c
        → ((o : AppOptions F) → e ≡ told_options o → c.worker.lock ≡ false)
        → Reach (handle fl e c)

  -- In every history of a worker whose program tells its options only while the worker is not locked,
  -- a locked worker waits either for the program's next start or close, or for its reports, and never
  -- for both; a worker that is not locked waits for nothing.
  pub Reach-IsPhased : {c : Control F} → Reach c → IsPhased fl c
  unfolding new_control
  Reach-IsPhased connected = quiet
  Reach-IsPhased (handled e {c} r timely) = handle-IsPhased e c (Reach-IsPhased r) timely

  -- A program that closes in the middle of a self test, while it is measured, leaves the worker locked
  -- and still waiting for its reports; what a browser asks for then is dropped.
  pub closed_test-stuck :
      (m : Method) (params : Option (Settings F)) (c : Control F)
      → Reach c
      → is_some c.on_info ≡ true
      → ((app_close fl c).worker.lock ≡ true)
        × ((app_close fl c).next_cb ≡ none)
        × ((app_close fl c).on_info ≡ c.on_info)
        × (control fl m params (app_close fl c) ≡ app_close fl c)
  unfolding app_close next_emit send control
  closed_test-stuck m params c r h =
      let (l, n) = measures fl (Reach-IsPhased r) h in
      let e : c.next_cb ≡ none = none_of fl c.next_cb n in
      (simp e l, simp e refl, simp e refl, simp e (simp l refl))
