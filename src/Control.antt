-- ===== src/Control.antt =====
-- `Control` of ControlClient/Control.js (under src/apps/Control/app): the miner's side, which hands
-- the jobs of the server to the worker program over UDP and takes its shares. What is sent and what
-- is emitted is one list of outputs. The fields of a datagram are read by the package `c-struct`,
-- which is a parameter.
pub mod Jobs
pub mod Packet
pub mod Life
mod Tests
use perfect_miner.Prelude.{
  ℕ, zero, suc, ◌+◌, ◌*◌, Bool, true, false, not, ◌&&◌, ◌||◌, Option, none, some, List, [], ◌∷◌,
  ◌++◌, length, take, drop, ltb, leb, ◌==◌, is_some, if◌then◌else◌,
}
use perfect_miner.Prelude.Text.{Text}
use perfect_miner.Prelude.KeyMap.{KeyMap, lookup, insert, remove}
use perfect_miner.Bytes.{Bytes, copy, int32_le, le_value}
use perfect_miner.Bytes.Hex.{all_hex, from_hex, to_hex}

pub record PoolJob : Type 0 where
  pub job_seq : ℕ
  pub job_id : Text
  pub target_hex : Text
  pub blob_hex : Text

pub record WorkerInfo : Type 0 where
  pub process_priority : ℕ
  pub thread_priority : ℕ
  pub processor_package_index : ℕ
  pub processor_core_index : ℕ
  pub processor_logical_index : ℕ
  pub numa_node_index : ℕ
  pub large_page : ℕ

-- A 64-bit number in four parts of 16 bits, the lowest first.
pub record Parts : Type 0 where
  pub u16_0 : ℕ
  pub u16_1 : ℕ
  pub u16_2 : ℕ
  pub u16_3 : ℕ

pub record HashInfo : Type 0 where
  pub hash_count : Parts
  pub share_count : Parts
  pub min_delta_micro_sec_hash : ℕ
  pub time_mili_sec : Parts

pub data Output : Type 0 where
  send_ping send_hello_reply : ℕ → Output
  send_job : Bytes → Output
  connect closing : Output
  workers_info : List WorkerInfo → Output
  info : ℕ → ℕ → ℕ → ℕ → Output
  share : Text → Text → Text → Output

pub record Control : Type 0 where
  pub thread_count : ℕ
  pub job_seq : ℕ
  pub jobs : KeyMap PoolJob
  pub ping_id : ℕ
  pub pongs : KeyMap ℕ
  pub ping_timer : Bool
  pub workers : List WorkerInfo
  pub workers_ready : Bool
  pub closed : Bool
  pub outputs : List Output

unfoldable pub new_control : ℕ → Control
new_control threads = record {
  thread_count = threads;
  job_seq = 1;
  jobs = [];
  ping_id = 1;
  pongs = [];
  ping_timer = false;
  workers = [];
  workers_ready = false;
  closed = false;
  outputs = [];
}

abbrev pub put : Output → Control → Control
put o c = record c { outputs = c.outputs ++ o ∷ [] }

-- The datagram of a job, in a buffer whose old contents are unknown.
unfoldable pub job_packet : PoolJob → Bytes → Bytes
job_packet j old =
    let with_cmd = copy (int32_le 2) old 0 in
    let with_seq = copy (int32_le j.job_seq) with_cmd 4 in
    let with_target = copy (from_hex j.target_hex) with_seq 8 in
    copy (from_hex j.blob_hex) with_target 40

-- `Object.keys(this.jobs).sort((l,r) => l-r).pop()`
unfoldable pub newest : KeyMap PoolJob → Option PoolJob
newest [] = none
newest ((k, j) ∷ []) = some j
newest ((k, j) ∷ x ∷ m) = newest (x ∷ m)

unfoldable pub send_newest : Option PoolJob → Bytes → Control → Control
send_newest none old c = c
send_newest (some j) old c = put (send_job (job_packet j old)) c

-- `old` is what the fresh buffer holds.
unfoldable pub sv_job : Bytes → Control → Control
sv_job old c = if c.workers_ready then send_newest (newest c.jobs) old c else c

-- The loop that drops the oldest job; a round leaves one job less, so their number is fuel enough.
unfoldable pub drop_oldest : KeyMap PoolJob → KeyMap PoolJob
drop_oldest [] = []
drop_oldest ((k, j) ∷ m) = remove k ((k, j) ∷ m)

unfoldable pub trim_jobs : ℕ → KeyMap PoolJob → KeyMap PoolJob
trim_jobs zero m = m
trim_jobs (suc fuel) m =
    let trimmed = trim_jobs fuel (drop_oldest m) in if ltb (length m) 10 then m else trimmed

unfoldable pub is_valid_job : Text → Text → Bool
is_valid_job target_hex blob_hex =
    (length target_hex == 64) && all_hex target_hex && leb 160 (length blob_hex) && all_hex blob_hex

unfoldable pub store_job : Bytes → Text → Text → Text → Control → Control
store_job old job_id target_hex blob_hex c =
    let job : PoolJob = record {
      job_seq = c.job_seq;
      job_id = job_id;
      target_hex = target_hex;
      blob_hex = take 160 blob_hex;
    } in
    let c' =
      sv_job old (record c { jobs = insert c.job_seq job c.jobs; job_seq = c.job_seq + 1 }) in
    record c' { jobs = trim_jobs (length c'.jobs) c'.jobs }

-- `_setJob`
unfoldable pub set_checked_job : Bytes → Text → Text → Text → Control → Control
set_checked_job old job_id target_hex blob_hex c =
    if is_valid_job target_hex blob_hex then store_job old job_id target_hex blob_hex c else c

-- `setJob`, of an object with these three fields as strings.
unfoldable pub set_job : Bytes → Text → Text → Text → Control → Control
set_job old job_id target blob c =
    if (length job_id == 0) || (length target == 0) || (length blob == 0)
    then c
    else set_checked_job old job_id target blob c

-- `close`: the socket and the program are told each time, the listeners once.
unfoldable pub close : Control → Control
close c =
    let told = if c.closed then c.outputs else c.outputs ++ closing ∷ [] in
    record c { ping_timer = false; closed = true; outputs = told }

unfoldable pub sv_ping : ℕ → Control → Control
sv_ping now c = record (put (send_ping c.ping_id) c) {
  pongs = insert c.ping_id now c.pongs;
  ping_id = c.ping_id + 1;
}

-- `clientConnect`, with the start-up information as the reply.
unfoldable pub cl_hello : Control → Control
cl_hello c = put (send_hello_reply c.thread_count) (record (put connect c) { ping_timer = true })

unfoldable pub cl_pong : ℕ → Control → Control
cl_pong id c = if is_some (lookup id c.pongs) then c else close c

unfoldable pub cl_worker_info : Bytes → WorkerInfo → Control → Control
cl_worker_info old w c =
    let ws = c.workers ++ w ∷ [] in
    if length ws == c.thread_count
    then sv_job old (put (workers_info ws) (record c { workers = ws; workers_ready = true }))
    else record c { workers = ws }

unfoldable pub u16_64_to_double : Parts → ℕ
u16_64_to_double n =
    n.u16_0 + n.u16_1 * 65536 + n.u16_2 * (65536 * 65536) + n.u16_3 * (65536 * 65536 * 65536)

unfoldable pub cl_info : HashInfo → Control → Control
cl_info i c =
    put
      (info (u16_64_to_double i.hash_count) (u16_64_to_double i.share_count)
        i.min_delta_micro_sec_hash (u16_64_to_double i.time_mili_sec))
      c

unfoldable pub cl_share : ℕ → Bytes → Control → Control
cl_share seq buf c = elim (lookup seq c.jobs) [
  | none ↦ c
  | some j ↦ put (share j.job_id (to_hex (take 4 (drop 40 buf))) (to_hex (take 32 (drop 8 buf)))) c
]

-- What `c-struct` reads from a datagram.
pub record Struct : Type 0 where
  pub pong_id : Bytes → ℕ
  pub worker_info : Bytes → WorkerInfo
  pub hash_info : Bytes → HashInfo
  pub share_job_id : Bytes → ℕ

-- The size that is registered for a command, with the command itself.
unfoldable pub registered_size : ℕ → Option ℕ
registered_size cmd =
    if cmd == 1
    then some 520
    else if (cmd == 2) || (cmd == 81)
    then some 44
    else if (cmd == 3) || (cmd == 84)
    then some 8
    else if cmd == 82
    then some 24
    else if cmd == 85
    then some 4
    else if cmd == 87
    then some 28
    else none

-- `auto_unpack`: the command of a datagram that is as long as its command wants.
unfoldable pub auto_unpack : Bytes → Option ℕ
auto_unpack buf =
    let cmd = le_value (take 4 buf) in
    if ltb (length buf) 4 then none else elim (registered_size cmd) [
      | none ↦ none
      | some size ↦ if ltb (length buf) size then none else some cmd
    ]

module _ (struct : Struct) where
  -- The table of handlers; a command of the server has none.
  unfoldable pub dispatch : Bytes → ℕ → Bytes → Control → Control
  dispatch old cmd buf c =
      if cmd == 85
      then cl_hello c
      else if cmd == 84
      then cl_pong (struct.pong_id buf) c
      else if cmd == 87
      then cl_worker_info old (struct.worker_info buf) c
      else if cmd == 82
      then cl_info (struct.hash_info buf) c
      else if cmd == 81
      then cl_share (struct.share_job_id buf) buf c
      else close c

  unfoldable pub parse_cl_message : Bytes → Bytes → Control → Control
  parse_cl_message old buf c = elim (auto_unpack buf) [
    | none ↦ close c
    | some cmd ↦ dispatch old cmd buf c
  ]
