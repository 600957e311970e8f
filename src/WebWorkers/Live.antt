-- ===== src/WebWorkers/Live.antt =====
-- A worker that is locked waits for something that unlocks it.
use perfect_miner.Prelude.{
  ◌≡◌, refl, ap, subst, sym, ◌∙◌, Bool, true, false, Option, none, some, List, [], ◌∷◌, arith, leb,
  ◌+◌, is_some, Bool-cases, Option-cases, inl, inr,
}
use perfect_miner.Prelude.Text.{Text}
use perfect_miner.Prelude.Floats.{Floats}
use perfect_miner.WebWorkers.{
  Program, Measured, Saved, Then, unlock_shown, unlock_by_result, start_then, test_then,
  set_working, tested, next_test, OnInfo, Settings, Control, Worker, choose, sort_measured, send,
  unlock, control_options, control_start, control_stop, control_restart, set_worker, set_common,
  start_long_test, run_test, control_test, run, next_emit, take_info, app_info, finish_test, State,
}

module _ (fl : Floats) where
  open fl use {F}

  -- The lock, a callback for the next start or close of the program, and one for its reports.
  pub data Phase : Bool → Bool → Bool → Type 0 where
    quiet : Phase false false false
    waiting : Phase true true false
    measuring : Phase true false true

  abbrev pub IsPhased : Control F → Type 0
  IsPhased c = Phase c.worker.lock (is_some c.next_cb) (is_some c.on_info)

  -- Locked, and about to wait.
  abbrev pub IsBusy : Control F → Type 0
  IsBusy c = (c.worker.lock ≡ true) × (c.next_cb ≡ none) × (c.on_info ≡ none)

  pub phased : {l n i l' n' i' : Bool} → l ≡ l' → n ≡ n' → i ≡ i' → Phase l' n' i' → Phase l n i
  phased l n i p = rw (l, n, i) p

  pub start-IsPhased : (k : Then F) (c : Control F) → IsBusy c → IsPhased (control_start fl k c)
  unfolding control_start send
  start-IsPhased k c (l, n, i) = phased l refl (ap is_some i) waiting

  pub stop-IsPhased : (k : Then F) (c : Control F) → IsBusy c → IsPhased (control_stop fl k c)
  unfolding control_stop send
  stop-IsPhased k c (l, n, i) = phased l refl (ap is_some i) waiting

  pub unlock-IsPhased : (b : Bool) (c : Control F) → IsBusy c → IsPhased (unlock fl b c)
  unfolding unlock send
  unlock-IsPhased true c (l, n, i) = phased refl (ap is_some n) (ap is_some i) quiet
  unlock-IsPhased false c (l, n, i) = phased refl (ap is_some n) (ap is_some i) quiet

  choose-lock : (ms : List (Measured F)) (w : Worker F) → (choose fl ms w).lock ≡ w.lock
  unfolding choose
  choose-lock [] w = refl
  choose-lock (m ∷ ms) w = refl

  finish-IsBusy :
      (s : Saved) (ms : List (Measured F)) (c : Control F)
      → IsBusy c
      → IsBusy (finish_test fl s ms c)
  unfolding finish_test control_options send
  finish-IsBusy s ms c (l, n, i) = (choose-lock (sort_measured fl ms) c.worker ∙ l, n, i)

  -- What a callback does to a worker that waits for it alone.
  abbrev Answers : (Bool → Control F → Control F) → Type 0
  Answers done = (b : Bool) (c : Control F) → IsBusy c → IsPhased (done b c)

  start_long_test-IsPhased :
      (done : Bool → Control F → Control F) (ps : List Program) (s : Saved) (ms : List (Measured F))
      (k : Then F) (c : Control F)
      → Answers done
      → IsBusy c
      → IsPhased (start_long_test fl done ps s ms k c)
  unfolding start_long_test send
  start_long_test-IsPhased done [] s ms k c a h = a true _ (finish-IsBusy s ms c h)
  start_long_test-IsPhased done (p ∷ ps) s ms k c a h = start-IsPhased _ _ h

  pub control_test-IsPhased :
      (done : Bool → Control F → Control F) (k : Then F) (c : Control F)
      → Answers done
      → IsBusy c
      → IsPhased (control_test fl done k c)
  unfolding control_test
  control_test-IsPhased done k c a h = tried c.worker_x86_list c.worker_x64_list
    where
      tried : (x86 x64 : Option (List Text)) → IsPhased (run_test fl done x86 x64 k c)
      tried none x64 = unfold run_test in a false c h
      tried (some x86) none = unfold run_test in a false c h
      tried (some x86) (some x64) = unfold run_test in start_long_test-IsPhased done _ _ _ k _ a h

  pub run-IsPhased : (k : Then F) → Answers (run fl k)
  unfolding run control_options send
  run-IsPhased unlock_shown b c h = unlock-IsPhased true c h
  run-IsPhased unlock_by_result b c h = unlock-IsPhased b c h
  run-IsPhased (start_then k) b c h = start-IsPhased k c h
  run-IsPhased (test_then k) b c h = control_test-IsPhased (run fl k) k c (run-IsPhased k) h
  run-IsPhased set_working b c h = unlock-IsPhased true _ h
  run-IsPhased (tested p rest s ms k) true c (l, n, i) = phased l (ap is_some n) refl measuring
  run-IsPhased (tested p rest s ms k) false c h =
      start_long_test-IsPhased (run fl k) rest s ms k c (run-IsPhased k) h
  run-IsPhased (next_test rest s ms k) b c h =
      start_long_test-IsPhased (run fl k) rest s ms k c (run-IsPhased k) h

  waits : {l n i : Bool} → Phase l n i → n ≡ true → (l ≡ true) × (i ≡ false)
  waits quiet h = absurd (ground arith)
  waits waiting h = (refl, refl)
  waits measuring h = absurd (ground arith)

  pub measures : {l n i : Bool} → Phase l n i → i ≡ true → (l ≡ true) × (n ≡ false)
  measures quiet h = absurd (ground arith)
  measures waiting h = absurd (ground arith)
  measures measuring h = (refl, refl)

  pub rests : {l n i : Bool} → Phase l n i → l ≡ false → (n ≡ false) × (i ≡ false)
  rests quiet h = (refl, refl)
  rests waiting h = absurd (ground arith)
  rests measuring h = absurd (ground arith)

  pub none_of : {A : Type 0} (o : Option A) → is_some o ≡ false → o ≡ none
  none_of none h = refl
  none_of (some a) h = absurd (ground arith)

  pub next_emit-IsPhased : (b : Bool) (c : Control F) → IsPhased c → IsPhased (next_emit fl b c)
  unfolding next_emit
  next_emit-IsPhased b c p = elim (Option-cases c.next_cb) [
    | inl e ↦ subst IsPhased (sym (idle e)) p
    | inr (k, e) ↦
        let (l, i) = waits p (ap is_some e) in
        subst IsPhased (sym (called k e)) (run-IsPhased k b _ (l, refl, none_of c.on_info i))
  ]
    where
      idle : c.next_cb ≡ none → next_emit fl b c ≡ c
      idle e = unfold next_emit in rw e refl

      called :
          (k : Then F)
          → c.next_cb ≡ some k
          → next_emit fl b c ≡ run fl k b (record c { next_cb = none })
      called k e = unfold next_emit in rw e refl

  take_info-IsPhased :
      (hash_rate min_delta : F) (o : OnInfo F) (c : Control F)
      → c.worker.lock ≡ true
      → c.next_cb ≡ none
      → IsPhased (take_info fl hash_rate min_delta o c)
  unfolding take_info send control_stop
  take_info-IsPhased hash_rate min_delta o c l n = elim (Bool-cases (leb 10 (o.count + 1))) [
    | inl e ↦ rw e (phased l refl refl waiting)
    | inr e ↦ rw e (phased l (ap is_some n) refl measuring)
  ]

  pub app_info-IsPhased :
      (hash_rate min_delta : F) (c : Control F)
      → IsPhased c
      → IsPhased (app_info fl hash_rate min_delta c)
  unfolding app_info
  app_info-IsPhased hash_rate min_delta c p = elim (Option-cases c.on_info) [
    | inl e ↦ rw (e, app_info) p
    | inr (o, e) ↦
        let (l, n) = measures p (ap is_some e) in
        rw (e, app_info) (take_info-IsPhased hash_rate min_delta o c l (none_of c.next_cb n))
  ]

  -- No lock, and nothing that waits.
  abbrev pub IsIdle : Control F → Type 0
  IsIdle c = (c.next_cb ≡ none) × (c.on_info ≡ none)

  pub set_worker-IsIdle :
      (s : Option (Settings F)) (b : Bool) (c : Control F) → IsIdle c → IsIdle (set_worker fl s b c)
  unfolding set_worker
  set_worker-IsIdle none b c h = h
  set_worker-IsIdle (some s) false c h = h
  set_worker-IsIdle (some s) true c h = h

  pub set_worker-lock :
      (s : Option (Settings F)) (b : Bool) (c : Control F)
      → (set_worker fl s b c).worker.lock ≡ c.worker.lock
  unfolding set_worker set_common
  set_worker-lock none b c = refl
  set_worker-lock (some s) false c = refl
  set_worker-lock (some s) true c = refl

  pub restart-IsPhased : (k : Then F) (c : Control F) → IsBusy c → IsPhased (control_restart fl k c)
  unfolding control_restart
  restart-IsPhased k c h = at c.worker.state
    where
      at :
          (s : State)
          → IsPhased (elim s [
            | State.working ↦ control_stop fl (start_then k) c
            | State.stopped ↦ control_start fl k c
          ])
      at State.working = stop-IsPhased _ c h
      at State.stopped = start-IsPhased k c h
