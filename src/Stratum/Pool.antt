-- ===== src/Stratum/Pool.antt =====
-- The handlers of `StratumClient` (ControlServer/Stratum/StratumClient.js): what a pool says, checked
-- and passed to `JobMng`. The values of the messages are JSON. How JavaScript turns a value into a
-- number, `parseFloat` and `parseInt(Math.round(..))`, are parameters.
pub mod Notify
pub mod Kept
pub mod Steps
pub mod History
pub mod Headers
mod Tests
use perfect_miner.Prelude.{
  ◌>>=◌, ℕ, zero, suc, ◌+◌, ◌*◌, ◌/◌, Bool, true, false, not, ◌&&◌, ◌||◌, Option, none, some, List,
  [], ◌∷◌, ◌++◌, length, ltb, ◌==◌, if◌then◌else◌,
}
use perfect_miner.Prelude.Int.{ℤ, pos, negsuc, ltb_ℤ}
use perfect_miner.Prelude.Text.{Text, codes, text_eq}
use perfect_miner.Prelude.Floats.{Floats}
use perfect_miner.Bytes.{Bytes}
use perfect_miner.Bytes.Hex.{from_hex}
use perfect_miner.Json.{
  Value, undefined, null, boolean, number, string, array, object, Values, items, truthy,
}
use perfect_miner.Common.{parse_integer}
use perfect_miner.Common.Checks.{check_string, check_hex, check_array}
use perfect_miner.Stratum.Header.{Notice}
use perfect_miner.Stratum.Values.{
  is_null, has_no_length, second, pair_at, read_hex, read_merkle, read_array, subscription,
  find_sid, new_sid,
}
use perfect_miner.Stratum.Job.{same_job}
use perfect_miner.Stratum.Client.{Client, new_client, update_client, set_extranonce}

-- What the client tells the pool and the program, `disconnect` being the `close` of its connection.
pub data Message : Type 0 where
  subscribe authorize disconnect : Message
  accepted_job update_job : Message

pub record Pool (F : Type 0) : Type 0 where
  pub client : Client F
  pub difficulty : F
  pub difficulty_pool : F
  pub difficulty_real : F
  pub extranonce1 : Value F
  pub extranonce2_size : Option ℤ
  pub sid : Value F
  pub job_count : ℕ
  pub closed : Bool
  pub messages : List Message

-- What a handler ends with: the truth of the value that it returns, or an exception.
pub data Outcome (F : Type 0) : Type 0 where
  done : Bool → Pool F → Outcome F
  type_error reference_error : Pool F → Outcome F

module _ {F : Type 0} where
  unfoldable pub tell : Message → Pool F → Pool F
  tell m p = record p { messages = p.messages ++ m ∷ [] }

  unfoldable pub close : Pool F → Pool F
  close p = record p {
    closed = true;
    messages = if p.closed then p.messages else p.messages ++ disconnect ∷ [];
  }

  -- `return this.logErrorDisconnect(..)`
  unfoldable pub refuse : Pool F → Outcome F
  refuse p = done false (close p)

  unfoldable pub has_extranonce : Pool F → Bool
  has_extranonce p =
      not (is_null p.extranonce1) && elim p.extranonce2_size [ none ↦ false | some _ ↦ true ]

  unfoldable pub tell_job : Bool → Client F → Pool F → Pool F
  tell_job true c p = tell update_job (record p { client = c })
  tell_job false c p = tell accepted_job (record p { client = c; job_count = p.job_count + 1 })

  unfoldable pub on_connect : Pool F → Pool F
  on_connect p = tell subscribe p

  unfoldable pub ask_authorize : Outcome F → Outcome F
  ask_authorize (done true p) = done false (tell authorize p)
  ask_authorize o = o

module _ (fl : Floats) (sha256d : Bytes → Bytes) where
  open fl use {F, of_ℕ, mul, div}

  unfoldable pub diff_process : F → F
  diff_process diff = div diff (of_ℕ 65536)

  unfoldable pub diff_to_real_diff : F → F
  diff_to_real_diff diff = mul diff (of_ℕ 65536)

  unfoldable pub new_pool : ℕ → ℕ → Pool F
  new_pool job_id now = record {
    client = new_client fl sha256d job_id now;
    difficulty = of_ℕ 1;
    difficulty_pool = of_ℕ 1;
    difficulty_real = diff_to_real_diff (of_ℕ 1);
    extranonce1 = null;
    extranonce2_size = none;
    sid = null;
    job_count = 0;
    closed = false;
    messages = [];
  }

  unfoldable pub set_size : Bytes → ℤ → Pool F → Outcome F
  set_size extranonce1 (pos n) p =
      if ltb n 2 || ltb 16 n
      then refuse p
      else done true (record p { client = set_extranonce fl sha256d extranonce1 n p.client })
  set_size extranonce1 (negsuc n) p = refuse p

  -- `jobMng.updateJob`, and what is told of it. `fresh` is the next global id.
  unfoldable pub take_notice : ℕ → Notice F → Pool F → Outcome F
  take_notice fresh n p = elim (update_client fl sha256d fresh n p.client) [
    | none ↦ type_error p
    | some c ↦ done false (tell_job (same_job fl sha256d n p.client.job) c p)
  ]

module _ (fl : Floats) (sha256d : Bytes → Bytes) (parse_float : Value fl.F → fl.F)
    (to_integer : Value fl.F → Option ℤ) where
  open fl use {F, is_finite}

  -- Each refusal names `errPrefix`, which is not declared there.
  unfoldable pub mining_set_difficulty : Value F → Pool F → Outcome F
  mining_set_difficulty params p = elim (check_array 0 params) [
    | none ↦ reference_error p
    | some vs ↦
        let diff = parse_float (pair_at 0 vs).0 in
        if is_finite diff
        then done false (record p {
          difficulty_pool = diff;
          difficulty = diff_process fl sha256d diff;
          difficulty_real = diff_to_real_diff fl sha256d diff;
        })
        else reference_error p
  ]

  -- `-1` is the default of `extranonce2_size`.
  unfoldable pub read_size : Value F → ℤ
  read_size v = parse_integer (to_integer v) (some (negsuc 0)) none none

  unfoldable pub set_extranonce1 : Value F → Value F → Pool F → Outcome F
  set_extranonce1 v size p = if has_no_length v then type_error p else elim (read_hex none v) [
    | none ↦ refuse p
    | some blob ↦
        if ltb 16 (length blob)
        then refuse p
        else set_size fl sha256d blob (read_size size)
            (record p { extranonce2_size = some (read_size size) })
  ]

  unfoldable pub mining_set_extranonce : Value F → ℕ → Pool F → Outcome F
  mining_set_extranonce params id p = elim (check_array (suc id) params) [
    | none ↦ refuse p
    | some vs ↦
        let (v, size) = pair_at id vs in set_extranonce1 v size (record p { extranonce1 = v })
  ]

  -- The nine values of a notice, with the difficulties at hand.
  unfoldable pub read_notice : List (Value F) → Pool F → Option (Notice F)
  read_notice (v0 ∷ v1 ∷ v2 ∷ v3 ∷ v4 ∷ v5 ∷ v6 ∷ v7 ∷ v8 ∷ []) p = do
    job_id ← check_string none none v0
    prevhash ← read_hex (some 32) v1
    coinb1 ← read_hex none v2
    coinb2 ← read_hex none v3
    merkles ← read_array v4
    merkle_branch ← read_merkle merkles
    version ← read_hex (some 4) v5
    nbits ← read_hex (some 4) v6
    ntime ← read_hex (some 4) v7
    some (record {
      job_id = job_id;
      difficulty = p.difficulty;
      difficulty_pool = p.difficulty_pool;
      difficulty_real = p.difficulty_real;
      prevhash = prevhash;
      coinb1 = coinb1;
      coinb2 = coinb2;
      merkle_branch = merkle_branch;
      version = version;
      nbits = nbits;
      ntime = ntime;
      clean_jobs = truthy fl v8;
    })
  read_notice _ p = none

  unfoldable pub mining_notify : ℕ → Value F → Pool F → Outcome F
  mining_notify fresh params p =
      if has_extranonce p
      then (elim (read_array params) [
        | none ↦ refuse p
        | some vs ↦ elim (read_notice vs p) [
          | none ↦ refuse p
          | some n ↦ take_notice fl sha256d fresh n p
        ]
      ])
      else refuse p

  -- The event `notify` of the JSON-RPC client.
  unfoldable pub on_notify : ℕ → Text → Value F → Pool F → Outcome F
  on_notify fresh method params p =
      if text_eq method (codes "mining.set_difficulty")
      then mining_set_difficulty params p
      else if text_eq method (codes "mining.set_extranonce")
      then mining_set_extranonce params 0 p
      else if text_eq method (codes "mining.notify")
      then mining_notify fresh params p
      else refuse p

  -- The answer to `mining.subscribe`; an error of the pool never reaches the callback.
  unfoldable pub take_subscription : Value F → List (Value F) → Pool F → Outcome F
  take_subscription result (arr ∷ e1 ∷ size ∷ []) p =
      ask_authorize (mining_set_extranonce result 1 (record p { sid = new_sid arr p.sid }))
  take_subscription result _ p = refuse p

  unfoldable pub on_subscribed : Value F → Value F → Pool F → Outcome F
  on_subscribed result error p =
      if truthy fl error
      then refuse p
      else elim (read_array result) [ none ↦ refuse p | some vs ↦ take_subscription result vs p ]

  unfoldable pub on_authorized : Value F → Value F → Pool F → Outcome F
  on_authorized result error p =
      if truthy fl error then refuse p else if truthy fl result then done false p else refuse p
