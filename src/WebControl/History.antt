-- ===== src/WebControl/History.antt =====
-- Every history of the control, from the start of the program.
use perfect_miner.Prelude.{◌≡◌, refl, sym, ◌∙◌, Bool, false, Option, some, List, [], ◌∷◌, arith}
use perfect_miner.Prelude.Int.{ℤ, pos, ◌≤ℤ◌}
use perfect_miner.Common.Numbers.{parse_integer_bounds}
use perfect_miner.WebControl.{
  PoolInfo, WebControl, save, set_count, try_pools, send, save_settings, set_dev_fee,
  pool_disconnect, connect_to, pool_connect, settings_pools_change, new_web_control, first_control,
  Event, client_opened, client_closed, switch_timer, dev_begun, dev_tick, dev_ended, dev_pools,
  asked_connect, asked_disconnect, asked_change, asked_dev_fee, keep_list, handle,
}
use perfect_miner.WebControl.Told.{IsTold-connected}
use perfect_miner.WebControl.Kept.{
  IsFair, pool_disconnect-IsFair, pool_connect-IsFair, set_dev_fee-IsFair,
  settings_pools_change-IsFair, dev_begin-IsFair, dev_fee_connect-IsFair, count_close-IsFair,
  if_free-IsFair, fire_timer-IsFair, dev_end-IsFair,
}

handle-IsFair : (l : Bool) (e : Event) (c : WebControl) → IsFair l c → IsFair l (handle e c)
unfolding handle keep_list
handle-IsFair l client_opened c k = record {
  locked = k.locked;
  shown_lock = k.shown_lock;
  shown_time = k.shown_time;
  told = k.told;
  low_fee = k.low_fee;
}
handle-IsFair l client_closed c k = count_close-IsFair l c k
handle-IsFair l switch_timer c k = fire_timer-IsFair l c.switch_timers c k
handle-IsFair l dev_begun c k = dev_begin-IsFair l c k
handle-IsFair l dev_tick c k = dev_fee_connect-IsFair l c k
handle-IsFair l dev_ended c k = dev_end-IsFair l c k
handle-IsFair l (dev_pools []) c k = k
handle-IsFair l (dev_pools (a ∷ ps)) c k = record {
  locked = k.locked;
  shown_lock = k.shown_lock;
  shown_time = k.shown_time;
  told = k.told;
  low_fee = k.low_fee;
}
handle-IsFair l (asked_connect i) c k =
    if_free-IsFair l c k (pool_connect i) (pool_connect-IsFair l c k i)
handle-IsFair l asked_disconnect c k =
    if_free-IsFair l c k pool_disconnect (λ free. pool_disconnect-IsFair l c k)
handle-IsFair l (asked_change ps) c k =
    if_free-IsFair l c k (settings_pools_change ps) (λ free. settings_pools_change-IsFair l c k ps)
handle-IsFair l (asked_dev_fee fee) c k = set_dev_fee-IsFair l c k fee

-- At the start the first pool is mined for, if there is one.
start_from-IsFair :
    (l : Bool) (ps rs : List PoolInfo) (fee : ℤ) (c : WebControl)
    → c.dev_time ≡ false
    → c.lock ≡ false
    → c.settings_lock ≡ l
    → c.settings_dev_time ≡ false
    → c.messages ≡ save fee rs ∷ []
    → (pos 1 ≤ℤ c.dev_fee) × (c.dev_fee ≤ℤ pos 4)
    → IsFair l (pool_connect 0 (record c { pools = ps }))
unfolding pool_connect connect_to pool_disconnect send
start_from-IsFair l [] rs f c time lock shown mark told fee = record {
  locked = lock ∙ sym time;
  shown_lock = λ e. shown ∙ e ∙ sym time;
  shown_time = mark ∙ sym time;
  told = rw (time, told) (refl, (omega arith, omega arith));
  low_fee = fee;
}
start_from-IsFair l (p ∷ ps) rs f c time lock shown mark told fee = record {
  locked = lock ∙ sym time;
  shown_lock = λ e. shown ∙ e ∙ sym time;
  shown_time = mark ∙ sym time;
  told = rw time (IsTold-connected 0 (p ∷ ps) p (set_count 1 p) c.messages refl);
  low_fee = fee;
}

new_web_control-IsFair :
    (l : Bool) (ps : List PoolInfo) (fee : Option ℤ) → IsFair l (new_web_control ps l fee)
unfolding new_web_control set_dev_fee save_settings send first_control
new_web_control-IsFair l ps fee =
    let (low, high, _) = parse_integer_bounds fee (some (pos 4)) (pos 1) (pos 4) (omega arith) in
    start_from-IsFair l (try_pools ps) _ _ (set_dev_fee fee (first_control ps l)) refl refl refl
      refl refl (low, high)

pub data Reach (pools : List PoolInfo) (file_lock : Bool) (fee : Option ℤ)
    : WebControl → Type 0 where
  begin : Reach pools file_lock fee (new_web_control pools file_lock fee)
  next :
      (e : Event) {c : WebControl}
      → Reach pools file_lock fee c
      → Reach pools file_lock fee (handle e c)

-- In every history of the control, with any settings to start from: after what the proxy was
-- told, it mines for one pool of the user if one is marked as connected, for none if none is,
-- and never are two marked; in the developers' time it mines for no pool of the user, and for
-- one of the developers only then; the lock and the mark of the developers' time that browsers
-- see begin and end with the developers' time, and so does the lock that browsers see, unless
-- the file of settings held a lock at the start; and the developers' fee is 1 to 4 per cent.
pub Reach-IsFair :
    (pools : List PoolInfo) (file_lock : Bool) (fee : Option ℤ) {c : WebControl}
    → Reach pools file_lock fee c
    → IsFair file_lock c
Reach-IsFair pools l fee begin = new_web_control-IsFair l pools fee
Reach-IsFair pools l fee (next e {c} r) = handle-IsFair l e c (Reach-IsFair pools l fee r)
