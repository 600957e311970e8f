-- ===== src/WebControl.antt =====
-- ControlServer/WebControl.js (under src/apps/Control/app): the pools that a browser edits, which of
-- them is mined for, and the time that is mined for the developers. The timers are events. The check
-- of an address by `StratumConfig`, which only logs, and the messages to the browsers are left out.
pub mod Settings
pub mod Told
pub mod Kept
pub mod History
mod Tests
use perfect_miner.Prelude.{
  ℕ, zero, suc, ◌+◌, ◌%◌, Bool, true, false, not, ◌||◌, Option, none, some, List, [], ◌∷◌, ◌++◌,
  map, length, get_elem?, ◌==◌, if◌then◌else◌,
}
use perfect_miner.Prelude.Int.{ℤ, pos, negsuc, ◌+ℤ◌, ◌-ℤ◌}
use perfect_miner.Prelude.Text.{Text}
use perfect_miner.Common.{parse_integer, max_ℤ, min_ℤ}

-- An entry of `settings.pools`. A number stands for what `parseInt(..) | 0` gives; `keepalive` is none
-- where it is falsy, and `retry_count_connect` where it is `null` or `undefined`.
pub record PoolInfo : Type 0 where
  pub pool_address : Text
  pub keepalive : Option ℤ
  pub emu_nicehash : Bool
  pub max_workers : ℤ
  pub retry_count_connect : Option ℤ
  pub pool_count : ℕ

-- What the proxy is told, a pool of the developers being an address, and what is saved.
pub data Message : Type 0 where
  pool_connect_sent : PoolInfo → Message
  dev_connect_sent : Text → Message
  pool_disconnect_sent : Message
  save : ℤ → List PoolInfo → Message

pub record WebControl : Type 0 where
  pub pools : List PoolInfo
  pub dev_fee : ℤ
  pub settings_lock : Bool
  pub settings_dev_time : Bool
  pub dev_pool_list : List Text
  pub dev_pool_index : ℕ
  pub dev_time : Bool
  pub lock : Bool
  pub open_pool_count : ℤ
  pub user_pool_index : ℕ
  pub disconnect_count : ℤ
  pub switch_timers : ℕ
  pub messages : List Message

-- One round of `trySettingsPools`.
unfoldable pub keep_interval : Option ℤ → Option ℤ
keep_interval none = none
keep_interval (some n) = some (max_ℤ n (pos 20))

unfoldable pub limit_workers : Bool → ℤ → ℤ
limit_workers emu n = min_ℤ (max_ℤ n (pos 1)) (if emu then pos 256 else pos 100)

unfoldable pub retries : Option ℤ → ℤ
retries none = max_ℤ (pos 5) (pos 1)
retries (some n) = max_ℤ n (pos 1)

unfoldable pub try_pool : PoolInfo → PoolInfo
try_pool p = record p {
  keepalive = keep_interval p.keepalive;
  max_workers = limit_workers p.emu_nicehash p.max_workers;
  retry_count_connect = some (retries p.retry_count_connect);
}

unfoldable pub try_pools : List PoolInfo → List PoolInfo
try_pools ps = map try_pool ps

unfoldable pub send : Message → WebControl → WebControl
send m c = record c { messages = c.messages ++ m ∷ [] }

unfoldable pub save_settings : WebControl → WebControl
save_settings c = let ps = try_pools c.pools in send (save c.dev_fee ps) (record c { pools = ps })

unfoldable pub set_dev_fee : Option ℤ → WebControl → WebControl
set_dev_fee fee c =
    save_settings
      (record c { dev_fee = parse_integer fee (some (pos 4)) (some (pos 1)) (some (pos 4)) })

unfoldable pub set_count : ℕ → PoolInfo → PoolInfo
set_count n p = record p { pool_count = n }

unfoldable pub set_count_at : ℕ → List PoolInfo → List PoolInfo
set_count_at i [] = []
set_count_at zero (p ∷ ps) = set_count 1 p ∷ ps
set_count_at (suc i) (p ∷ ps) = p ∷ set_count_at i ps

unfoldable pub pool_disconnect : WebControl → WebControl
pool_disconnect c = record (send pool_disconnect_sent c) { pools = map (set_count 0) c.pools }

-- `disconnect_count` is the number of retries, which `trySettingsPools` has set.
unfoldable pub connect_to : ℕ → PoolInfo → WebControl → WebControl
connect_to index p c =
    let c' = pool_disconnect c in
    send (pool_connect_sent (set_count 1 p)) (record c' {
      pools = set_count_at index c'.pools;
      disconnect_count = retries p.retry_count_connect;
    })

unfoldable pub pool_connect : ℕ → WebControl → WebControl
pool_connect index c = elim (get_elem? c.pools index) [
  | none ↦ record c { user_pool_index = index }
  | some p ↦ connect_to index p (record c { user_pool_index = index })
]

unfoldable pub settings_pools_change : List PoolInfo → WebControl → WebControl
settings_pools_change pools c =
    let c' = pool_disconnect (record c { pools = pools }) in
    save_settings (record c' { pools = try_pools c'.pools })

-- The constructor, with the pools and the lock of the settings from the file; it clears the mark of
-- the developers' time there, and not the lock.
unfoldable pub first_control : List PoolInfo → Bool → WebControl
first_control pools file_lock = record {
  pools = pools;
  dev_fee = pos 4;
  settings_lock = file_lock;
  settings_dev_time = false;
  dev_pool_list = [];
  dev_pool_index = 0;
  dev_time = false;
  lock = false;
  open_pool_count = pos 0;
  user_pool_index = 0;
  disconnect_count = pos 0;
  switch_timers = 0;
  messages = [];
}

unfoldable pub new_web_control : List PoolInfo → Bool → Option ℤ → WebControl
new_web_control pools file_lock fee =
    pool_connect 0 (set_dev_fee fee (first_control pools file_lock))

-- The first pool that is mined for.
unfoldable pub first_connected : ℕ → List PoolInfo → Option ℕ
first_connected i [] = none
first_connected i (p ∷ ps) =
    let later = first_connected (i + 1) ps in if p.pool_count == 0 then later else some i

unfoldable pub next_pool : WebControl → WebControl
next_pool c = elim (first_connected 0 c.pools) [
  | none ↦ c
  | some i ↦ pool_connect ((i + 1) % length c.pools) c
]

unfoldable pub is_up : ℤ → Bool
is_up (pos zero) = false
is_up _ = true

unfoldable pub nth_dev : ℕ → List Text → Option Text
nth_dev i ps = get_elem? ps (i % length ps)

unfoldable pub dev_fee_connect : WebControl → WebControl
dev_fee_connect c =
    if is_up c.open_pool_count || not c.dev_time
    then c
    else elim (nth_dev c.dev_pool_index c.dev_pool_list) [
      | none ↦ c
      | some a ↦
          send (dev_connect_sent a)
            (record (pool_disconnect c) { dev_pool_index = c.dev_pool_index + 1 })
    ]

unfoldable pub is_empty_list : List Text → Bool
is_empty_list [] = true
is_empty_list (a ∷ rest) = false

-- The timers of `devFeeLoop`: the developers' time begins, goes on, and ends.
unfoldable pub dev_begin : WebControl → WebControl
dev_begin c =
    if is_empty_list c.dev_pool_list
    then c
    else record (pool_disconnect (record c {
      dev_time = true;
      lock = true;
      settings_lock = true;
      settings_dev_time = true;
    })) { dev_pool_index = 0 }

unfoldable pub dev_end : WebControl → WebControl
dev_end c = pool_connect c.user_pool_index (
    pool_disconnect (record c {
      dev_time = false;
      settings_dev_time = false;
      lock = false;
      settings_lock = false;
    }))

unfoldable pub if_free : (WebControl → WebControl) → WebControl → WebControl
if_free f c = if c.lock then c else f c

-- What happens: the pools' clients open and close, the timer after a close fires, the developers'
-- pools come in, their time runs, and a browser asks for something.
pub data Event : Type 0 where
  client_opened client_closed switch_timer dev_begun dev_tick dev_ended : Event
  dev_pools : List Text → Event
  asked_connect : ℕ → Event
  asked_disconnect : Event
  asked_change : List PoolInfo → Event
  asked_dev_fee : Option ℤ → Event

unfoldable pub is_positive : ℤ → Bool
is_positive (pos (suc n)) = true
is_positive _ = false

-- A close starts the timer once the retries are used up.
unfoldable pub count_retry : WebControl → WebControl
count_retry c =
    let c' = record c { disconnect_count = c.disconnect_count -ℤ pos 1 } in
    if is_positive c.disconnect_count
    then c'
    else record c' { switch_timers = c'.switch_timers + 1 }

unfoldable pub count_close : WebControl → WebControl
count_close c =
    let c' = record c { open_pool_count = c.open_pool_count -ℤ pos 1 } in
    if c'.dev_time then c' else count_retry c'

-- The timer fires, if one runs.
unfoldable pub fire_timer : ℕ → WebControl → WebControl
fire_timer zero c = c
fire_timer (suc n) c =
    let c' = record c { switch_timers = n } in if c.dev_time then c' else next_pool c'

unfoldable pub keep_list : List Text → WebControl → WebControl
keep_list [] c = c
keep_list (a ∷ rest) c = record c { dev_pool_list = a ∷ rest }

unfoldable pub handle : Event → WebControl → WebControl
handle client_opened c = record c { open_pool_count = c.open_pool_count +ℤ pos 1 }
handle client_closed c = count_close c
handle switch_timer c = fire_timer c.switch_timers c
handle dev_begun c = dev_begin c
handle dev_tick c = dev_fee_connect c
handle dev_ended c = dev_end c
handle (dev_pools ps) c = keep_list ps c
handle (asked_connect i) c = if_free (pool_connect i) c
handle asked_disconnect c = if_free pool_disconnect c
handle (asked_change ps) c = if_free (settings_pools_change ps) c
handle (asked_dev_fee fee) c = set_dev_fee fee c
