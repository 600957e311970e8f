-- ===== src/JsonRpc.antt =====
-- `JsonRpcClient` of Share/JsonRpc/JsonRpcClient.js (under src/apps/Control/app): calls to the pool,
-- each with an id, and the results that come back under these ids. Times are in milliseconds. What
-- the client calls on its `NetClient`, and the events and callbacks that it makes, are a list of
-- outputs; a callback is known by the id of its call.
pub mod Results
mod Tests
use perfect_miner.Prelude.{
  ℕ, ◌+◌, ◌-◌, Bool, true, false, Option, none, some, List, [], ◌∷◌, ◌++◌, ltb, if◌then◌else◌,
}
use perfect_miner.Prelude.KeyMap.{KeyMap, lookup, insert, remove}

-- The `id` of an object: `canonical` where it is a number or a string that `parseInt` prints back, at
-- least 0, and `never_given` where `parseInt` prints a number below 0 or `NaN`.
pub data IdField : Type 0 where
  canonical : ℕ → IdField
  never_given odd : IdField

-- A JSON value as `onrecv` looks at it.
pub data Data : Type 0 where
  not_object json_null : Data
  object : IdField → Bool → Data

pub data Reason : Type 0 where
  raw_json no_json_rpc unexpected_result timeout : Reason

pub data Output : Type 0 where
  sent_method answered : ℕ → Output
  notify : Output
  net_close : Reason → Output

pub record Client : Type 0 where
  pub id_seq : ℕ
  pub expected_result : KeyMap ℕ
  pub timer : Bool
  pub ping : Option ℕ
  pub outputs : List Output

unfoldable pub new_client : Client
new_client = record { id_seq = 1; expected_result = []; timer = true; ping = none; outputs = [] }

unfoldable pub put : Output → Client → Client
put o c = record c { outputs = c.outputs ++ o ∷ [] }

unfoldable pub close : Reason → Client → Client
close why c = put (net_close why) (record c { timer = false })

unfoldable pub send_method : ℕ → Client → Client
send_method now c =
    put (sent_method c.id_seq)
      (record c { id_seq = c.id_seq + 1; expected_result = insert c.id_seq now c.expected_result })

-- `expectedResult_GetCbAndDel`, and the callback.
unfoldable pub on_result : ℕ → ℕ → Client → Client
on_result now id c = elim (lookup id c.expected_result) [
  | none ↦ close unexpected_result c
  | some time ↦
      put (answered id)
        (record c { ping = some (now - time); expected_result = remove id c.expected_result })
]

-- `none` is the TypeError of `"id" in null`. No call has such an id as `never_given`.
unfoldable pub on_recv : ℕ → Data → Client → Option Client
on_recv now not_object c = some (close raw_json c)
on_recv now json_null c = none
on_recv now (object (canonical id) has_method) c = some (on_result now id c)
on_recv now (object never_given has_method) c = some (close unexpected_result c)
on_recv now (object odd has_method) c =
    some (if has_method then put notify c else close no_json_rpc c)

-- The timer, every 2 seconds: the first call that is late closes the client.
unfoldable pub is_late : ℕ → KeyMap ℕ → Bool
is_late now [] = false
is_late now ((id, time) ∷ m) =
    let more = is_late now m in if ltb (time + 20000) now then true else more

unfoldable pub on_timer : ℕ → Client → Client
on_timer now c =
    if c.timer then (if is_late now c.expected_result then close timeout c else c) else c
