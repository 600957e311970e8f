-- ===== src/App.antt =====
-- `App` of ControlClient/Main.js (under src/apps/Control/app): the program on a miner's machine, which
-- starts and closes `Control`s as the server asks. A `Control` is known by its number; it tells of its
-- close once, at once. The file of the settings and the console are left out.
pub mod Settings
pub mod Single
mod Tests
use perfect_miner.Prelude.{
  ℕ, ◌+◌, Bool, true, false, ◌&&◌, ◌||◌, Option, none, some, List, [], ◌∷◌, ◌++◌, leb, ◌==◌,
  if◌then◌else◌,
}
use perfect_miner.Prelude.Int.{ℤ, pos}
use perfect_miner.Prelude.Text.{Text}
use perfect_miner.Prelude.Floats.{Floats}
use perfect_miner.Common.{parse_integer}
use perfect_miner.Json.{Value, array, object, Fields}

-- What the server asks for; a number that is none is no number.
pub record StartOptions : Type 0 where
  pub thread_count : Option ℤ
  pub process_priority : Option ℤ
  pub thread_priority : Option ℤ
  pub worker_x64 : Bool
  pub worker_path : Text

pub record ControlOptions : Type 0 where
  pub thread_count : ℤ
  pub process_priority : ℤ
  pub thread_priority : ℤ
  pub worker_x64 : Bool
  pub worker_path : Text

-- What goes to the server; an info has its sum of hashes and its rate.
pub data Message (F : Type 0) : Type 0 where
  options_sent : Value F → Message F
  workers_info_sent close_sent : Message F
  info_sent : F → Option F → Message F
  share_sent : Text → Text → Text → Message F

pub record Job : Type 0 where
  pub job_id : Text
  pub target : Text
  pub blob : Text

pub record App (F : Type 0) : Type 0 where
  pub dir_x86 : Text
  pub dir_x64 : Text
  pub options : Value F
  pub connected : Bool
  pub control : Option ℕ
  pub open_controls : List ℕ
  pub started : List (ℕ × ControlOptions)
  pub next_control : ℕ
  pub jobs : List (ℕ × Job)
  pub prev_hash_count : F
  pub prev_time_mili_sec : F
  pub messages : List (Message F)

-- `replace(/[^a-zA-Z0-9\_\-\.\/]/g, "")`
unfoldable pub is_path_char : ℕ → Bool
is_path_char c =
    (leb 97 c && leb c 122)
    || (leb 65 c && leb c 90)
    || (leb 48 c && leb c 57)
    || (c == 95)
    || (c == 45)
    || (c == 46)
    || (c == 47)

unfoldable pub clean_path : Text → Text
clean_path [] = []
clean_path (c ∷ t) = let rest = clean_path t in if is_path_char c then c ∷ rest else rest

unfoldable pub remove_control : ℕ → List ℕ → List ℕ
remove_control id [] = []
remove_control id (x ∷ xs) = let rest = remove_control id xs in if x == id then rest else x ∷ rest

unfoldable pub is_open : ℕ → List ℕ → Bool
is_open id [] = false
is_open id (x ∷ xs) = (x == id) || is_open id xs

-- The default of `thread_priority` is `Constants.TPROC_PRIO_NORMAL`, which does not exist.
unfoldable pub control_options : Text → Text → StartOptions → ControlOptions
control_options dir_x86 dir_x64 o = record {
  thread_count = parse_integer o.thread_count (some (pos 1)) (some (pos 1)) (some (pos 4095));
  process_priority = parse_integer o.process_priority (some (pos 1)) none none;
  thread_priority = parse_integer o.thread_priority none none none;
  worker_x64 = o.worker_x64;
  worker_path = (if o.worker_x64 then dir_x64 else dir_x86) ++ clean_path o.worker_path;
}

module _ (fl : Floats) (milli : fl.F) where
  open fl use {F, of_ℕ, sub, mul, div, lt}

  unfoldable pub new_app : Text → Text → Value F → App F
  new_app dir_x86 dir_x64 options = record {
    dir_x86 = dir_x86;
    dir_x64 = dir_x64;
    options = options;
    connected = false;
    control = none;
    open_controls = [];
    started = [];
    next_control = 0;
    jobs = [];
    prev_hash_count = of_ℕ 0;
    prev_time_mili_sec = of_ℕ 0;
    messages = [];
  }

  -- The emitter of the connection sends nothing while it is not connected.
  unfoldable pub net_client_emit : Message F → App F → App F
  net_client_emit m a = record a {
    messages = if a.connected then a.messages ++ m ∷ [] else a.messages;
  }

  -- A `Control` closes, and says so.
  unfoldable pub closed_control : ℕ → App F → App F
  closed_control id a =
      net_client_emit close_sent (record a { open_controls = remove_control id a.open_controls })

  unfoldable pub close_current : Option ℕ → App F → App F
  close_current none a = a
  close_current (some id) a = if is_open id a.open_controls then closed_control id a else a

  unfoldable pub control_close : App F → App F
  control_close a = record (close_current a.control a) { control = none }

  unfoldable pub control_start : F → StartOptions → App F → App F
  control_start now o a = record a {
    control = some a.next_control;
    open_controls = a.next_control ∷ a.open_controls;
    started = a.started ++ (a.next_control, control_options a.dir_x86 a.dir_x64 o) ∷ [];
    next_control = a.next_control + 1;
    prev_hash_count = of_ℕ 0;
    prev_time_mili_sec = now;
  }

  unfoldable pub set_job_of : Option ℕ → Job → App F → App F
  set_job_of none j a = a
  set_job_of (some id) j a = record a { jobs = a.jobs ++ (id, j) ∷ [] }

  unfoldable pub control_set_job : Job → App F → App F
  control_set_job j a = set_job_of a.control j a

  unfoldable pub set_options : Value F → App F → App F
  set_options (array vs) a = record a { options = array vs }
  set_options (object fs) a = record a { options = object fs }
  set_options _ a = record a { options = object Fields.end }

  -- The rate since the last info, in hashes a second.
  unfoldable pub hash_rate : F → F → App F → Option F
  hash_rate hash_count time a =
      if lt a.prev_time_mili_sec time
      then some (div (sub hash_count a.prev_hash_count) (mul (sub time a.prev_time_mili_sec) milli))
      else none

  -- The connection, what the server asks for, and what a `Control` tells.
  pub data Event : Type 0 where
    connected disconnected : Event
    start : F → StartOptions → Event
    stop : Event
    job : Job → Event
    options : Value F → Event
    workers_info : ℕ → Job → Event
    info : ℕ → F → F → Event
    share : ℕ → Text → Text → Text → Event
    closed : ℕ → Event

  -- `base_job` comes with the event of the first workers; the connection is gone when its close is told.
  unfoldable pub handle : Event → App F → App F
  handle connected a = net_client_emit (options_sent a.options) (record a { connected = true })
  handle disconnected a = control_close (record a { connected = false })
  handle (start now o) a = control_start now o (control_close a)
  handle stop a = control_close a
  handle (job j) a = control_set_job j a
  handle (options v) a = set_options v a
  handle (workers_info id base_job) a =
      net_client_emit workers_info_sent (control_set_job base_job a)
  handle (info id hash_count time) a =
      net_client_emit (info_sent hash_count (hash_rate hash_count time a))
        (record a { prev_hash_count = hash_count; prev_time_mili_sec = time })
  handle (share id job_id nonce hash) a = net_client_emit (share_sent job_id nonce hash) a
  handle (closed id) a = closed_control id a
