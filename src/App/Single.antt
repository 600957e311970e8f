-- ===== src/App/Single.antt =====
-- No program is left running behind another by `App` of ControlClient/Main.js.
use perfect_miner.Prelude.{
  ℕ, ◌≡◌, refl, ap, sym, subst, ◌∙◌, true, false, Option, none, some, List, [], ◌∷◌, inl, inr,
  arith, ==_refl, if◌then◌else◌, Bool-cases,
}
use perfect_miner.Prelude.Text.{Text}
use perfect_miner.Prelude.Floats.{Floats}
use perfect_miner.Json.{Value, undefined, null, boolean, number, string, array, object}
use perfect_miner.App.{
  App, Job, StartOptions, Message, remove_control, is_open, new_app, net_client_emit,
  closed_control, close_current, control_close, control_start, set_job_of, control_set_job,
  set_options, Event, connected, disconnected, start, stop, job, options, workers_info, info, share,
  closed, handle,
}

module _ (fl : Floats) (milli : fl.F) where
  open fl use {F}

  -- The open controls are none, or the current one alone.
  pub data Runs : Option ℕ → List ℕ → Type 0 where
    nothing_runs : {c : Option ℕ} → Runs c []
    one_runs : (id : ℕ) → Runs (some id) (id ∷ [])

  -- While there is no connection none is open.
  pub record IsSingle (a : App F) : Type 0 where
    pub runs : Runs a.control a.open_controls
    pub offline : a.connected ≡ false → a.open_controls ≡ []

  closed_open :
      (id : ℕ) (a : App F)
      → (close_current fl milli (some id) a).open_controls ≡ (
          if is_open id a.open_controls then remove_control id a.open_controls else a.open_controls)
  unfolding close_current closed_control net_client_emit
  closed_open id a = elim (Bool-cases (is_open id a.open_controls)) [
    | inl e ↦ simp e refl
    | inr e ↦ simp e refl
  ]

  closes :
      {c : Option ℕ} {os : List ℕ}
      → Runs c os
      → (a : App F) → a.open_controls ≡ os
      → (close_current fl milli c a).open_controls ≡ []
  unfolding close_current is_open remove_control
  closes (nothing_runs {c = none}) a e = e
  closes (nothing_runs {c = some id}) a e =
      closed_open id a ∙ ap (λ l. if is_open id l then remove_control id l else l) e
  closes (one_runs id) a e =
      closed_open id a
      ∙ ap (λ l. if is_open id l then remove_control id l else l) e
      ∙ rw (==_refl id) refl

  same_connection :
      (c : Option ℕ) (a : App F) → (close_current fl milli c a).connected ≡ a.connected
  unfolding close_current closed_control net_client_emit
  same_connection none a = refl
  same_connection (some id) a = ground arith

  control_close-IsSingle :
      (a : App F) → Runs a.control a.open_controls → IsSingle (control_close fl milli a)
  unfolding control_close
  control_close-IsSingle a r =
      let gone : (close_current fl milli a.control a).open_controls ≡ [] = closes r a refl in
      record { runs = subst (Runs none) (sym gone) nothing_runs; offline = λ _. gone }

  removed :
      {c : Option ℕ} {os : List ℕ} (id : ℕ)
      → Runs c os
      → is_open id os ≡ true
      → remove_control id os ≡ []
  unfolding is_open remove_control
  removed id nothing_runs h = refl
  removed id (one_runs x) h = ground arith

  emit-IsSingle : (m : Message F) (a : App F) → IsSingle a → IsSingle (net_client_emit fl milli m a)
  unfolding net_client_emit
  emit-IsSingle m a k = record { runs = k.runs; offline = k.offline }

  set_job-IsSingle : (j : Job) (a : App F) → IsSingle a → IsSingle (control_set_job fl milli j a)
  unfolding control_set_job
  set_job-IsSingle j a k = given a.control
    where
      given : (c : Option ℕ) → IsSingle (set_job_of fl milli c j a)
      given none = unfold set_job_of in k
      given (some id) = unfold set_job_of in record { runs = k.runs; offline = k.offline }

  options-IsSingle : (v : Value F) (a : App F) → IsSingle a → IsSingle (set_options fl milli v a)
  unfolding set_options
  options-IsSingle undefined a k = record { runs = k.runs; offline = k.offline }
  options-IsSingle null a k = record { runs = k.runs; offline = k.offline }
  options-IsSingle (boolean b) a k = record { runs = k.runs; offline = k.offline }
  options-IsSingle (number n) a k = record { runs = k.runs; offline = k.offline }
  options-IsSingle (string s) a k = record { runs = k.runs; offline = k.offline }
  options-IsSingle (array vs) a k = record { runs = k.runs; offline = k.offline }
  options-IsSingle (object fs) a k = record { runs = k.runs; offline = k.offline }

  -- The server asks while there is a connection; a `Control` that is closed tells nothing.
  abbrev pub IsTimely : Event fl milli → App F → Type 0
  IsTimely (start now o) a = a.connected ≡ true
  IsTimely (closed id) a = is_open id a.open_controls ≡ true
  IsTimely e a = Unit {0}

  started-IsSingle :
      (now : F) (o : StartOptions) (a : App F)
      → a.connected ≡ true
      → IsSingle a
      → IsSingle (control_start fl milli now o (control_close fl milli a))
  unfolding control_start control_close
  started-IsSingle now o a up k =
      let gone : (close_current fl milli a.control a).open_controls ≡ [] = closes k.runs a refl in
      let still : (close_current fl milli a.control a).connected ≡ true =
        same_connection a.control a ∙ up in
      record { runs = rw gone (one_runs _); offline = λ down. absurd (ground arith) }

  handle-IsSingle :
      (e : Event fl milli) (a : App F) → IsTimely e a → IsSingle a → IsSingle (handle fl milli e a)
  unfolding handle closed_control
  handle-IsSingle connected a t k =
      emit-IsSingle _ _ (record { runs = k.runs; offline = λ down. absurd (ground arith) })
  handle-IsSingle disconnected a t k = control_close-IsSingle _ k.runs
  handle-IsSingle (start now o) a t k = started-IsSingle now o a t k
  handle-IsSingle stop a t k = control_close-IsSingle a k.runs
  handle-IsSingle (job j) a t k = set_job-IsSingle j a k
  handle-IsSingle (options v) a t k = options-IsSingle v a k
  handle-IsSingle (workers_info id j) a t k = emit-IsSingle _ _ (set_job-IsSingle j a k)
  handle-IsSingle (info id hash_count time) a t k =
      emit-IsSingle _ _ (record { runs = k.runs; offline = k.offline })
  handle-IsSingle (share id job_id nonce hash) a t k = emit-IsSingle _ _ k
  handle-IsSingle (closed id) a t k =
      let gone : remove_control id a.open_controls ≡ [] = removed id k.runs t in
      emit-IsSingle _ _
        (record { runs = subst (Runs a.control) (sym gone) nothing_runs; offline = λ _. gone })

  pub data Reach (dir_x86 dir_x64 : Text) (data_options : Value F) : App F → Type 0 where
    begin : Reach dir_x86 dir_x64 data_options (new_app fl milli dir_x86 dir_x64 data_options)
    next :
        (e : Event fl milli) {a : App F}
        → Reach dir_x86 dir_x64 data_options a
        → IsTimely e a
        → Reach dir_x86 dir_x64 data_options (handle fl milli e a)

  -- In every history of the program on a miner's machine, in which the server asks for a start only
  -- over a connection, and a closed Control tells nothing, no Control is open but the current one, and
  -- none while there is no connection.
  pub Reach-IsSingle : {x86 x64 : Text} {v : Value F} {a : App F} → Reach x86 x64 v a → IsSingle a
  unfolding new_app
  Reach-IsSingle begin = record { runs = nothing_runs; offline = λ _. refl }
  Reach-IsSingle (next e {a} r t) = handle-IsSingle e a t (Reach-IsSingle r)
