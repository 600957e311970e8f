-- ===== src/WebControl/Kept.antt =====
-- What every event of ControlServer/WebControl.js keeps.
use perfect_miner.Prelude.{
  ℕ, zero, suc, ◌+◌, ◌%◌, ◌≡◌, refl, sym, ◌∙◌, Bool, true, false, not, ◌||◌, Option, none, some,
  List, [], ◌∷◌, ◌++◌, map, length, get_elem?, arith, if◌then◌else◌,
}
use perfect_miner.Prelude.Int.{ℤ, pos, ◌≤ℤ◌, ◌-ℤ◌}
use perfect_miner.Prelude.Text.{Text}
use perfect_miner.Common.Numbers.{parse_integer_bounds}
use perfect_miner.WebControl.{
  is_positive, count_retry, fire_timer, PoolInfo, WebControl, Message, pool_disconnect_sent,
  try_pools, send, save_settings, set_dev_fee, set_count, pool_disconnect, connect_to, pool_connect,
  settings_pools_change, next_pool, dev_fee_connect, dev_begin, dev_end, if_free, count_close,
  first_connected, is_up, nth_dev, is_empty_list,
}
use perfect_miner.WebControl.Told.{
  mines, nobody, IsTold, mined-try_pools, IsTold-cleared, IsTold-connected, IsTold-dev,
  IsTold-saved,
}

-- The locks stand together, and what is shown tells whom the proxy mines for; the fee is one of four.
pub record IsFair (file_lock : Bool) (c : WebControl) : Type 0 where
  pub locked : c.lock ≡ c.dev_time
  pub shown_lock : file_lock ≡ false → c.settings_lock ≡ c.dev_time
  pub shown_time : c.settings_dev_time ≡ c.dev_time
  pub told : IsTold c.dev_time c.pools (mines nobody c.messages)
  pub low_fee : (pos 1 ≤ℤ c.dev_fee) × (c.dev_fee ≤ℤ pos 4)

-- The other fields stand as they were.
module _ (l : Bool) (c : WebControl) (k : IsFair l c) where
  moved :
      (ps : List PoolInfo) (m : List Message)
      → IsTold c.dev_time ps (mines nobody m)
      → IsFair l (record c { pools = ps; messages = m })
  moved ps m h = record {
    locked = k.locked;
    shown_lock = k.shown_lock;
    shown_time = k.shown_time;
    told = h;
    low_fee = k.low_fee;
  }

  pub pool_disconnect-IsFair : IsFair l (pool_disconnect c)
  unfolding pool_disconnect send
  pool_disconnect-IsFair = moved _ _ (IsTold-cleared c.dev_time c.pools c.messages)

  pub pool_connect-IsFair : (i : ℕ) → c.dev_time ≡ false → IsFair l (pool_connect i c)
  unfolding pool_connect connect_to pool_disconnect send
  pool_connect-IsFair i free = chosen (get_elem? c.pools i) refl
    where
      asked : WebControl
      asked = record c { user_pool_index = i }

      chosen :
          (o : Option PoolInfo)
          → get_elem? c.pools i ≡ o
          → IsFair l (elim o [ none ↦ asked | some p ↦ connect_to i p asked ])
      chosen none e = record {
        locked = k.locked;
        shown_lock = k.shown_lock;
        shown_time = k.shown_time;
        told = k.told;
        low_fee = k.low_fee;
      }
      chosen (some p) e = record {
        locked = k.locked;
        shown_lock = k.shown_lock;
        shown_time = k.shown_time;
        told = rw free (IsTold-connected i c.pools p (set_count 1 p) c.messages e);
        low_fee = k.low_fee;
      }

  pub set_dev_fee-IsFair : (fee : Option ℤ) → IsFair l (set_dev_fee fee c)
  unfolding set_dev_fee save_settings send
  set_dev_fee-IsFair fee =
      let (low, high, _) = parse_integer_bounds fee (some (pos 4)) (pos 1) (pos 4) (omega arith) in
      record {
        locked = k.locked;
        shown_lock = k.shown_lock;
        shown_time = k.shown_time;
        told = IsTold-saved c.dev_time c.pools _ _ _ c.messages (mined-try_pools c.pools) k.told;
        low_fee = (low, high);
      }

  pub settings_pools_change-IsFair : (ps : List PoolInfo) → IsFair l (settings_pools_change ps c)
  unfolding settings_pools_change save_settings send pool_disconnect
  settings_pools_change-IsFair ps = moved _ _ (
      IsTold-saved c.dev_time (map (set_count 0) ps) _ _ _ (c.messages ++ pool_disconnect_sent ∷ [])
        (mined-try_pools (try_pools (map (set_count 0) ps))
          ∙ mined-try_pools (map (set_count 0) ps))
        (IsTold-cleared c.dev_time ps c.messages))

  pub next_pool-IsFair : c.dev_time ≡ false → IsFair l (next_pool c)
  unfolding next_pool
  next_pool-IsFair free = found (first_connected 0 c.pools)
    where
      found :
          (o : Option ℕ)
          → IsFair l (elim o [ none ↦ c | some i ↦ pool_connect ((i + 1) % length c.pools) c ])
      found none = k
      found (some i) = pool_connect-IsFair _ free

  pub dev_begin-IsFair : IsFair l (dev_begin c)
  unfolding dev_begin pool_disconnect send
  dev_begin-IsFair = chosen (is_empty_list c.dev_pool_list)
    where
      busy : WebControl
      busy = record c {
        dev_time = true;
        lock = true;
        settings_lock = true;
        settings_dev_time = true;
      }

      chosen :
          (b : Bool)
          → IsFair l (if b then c else record (pool_disconnect busy) { dev_pool_index = 0 })
      chosen true = k
      chosen false = record {
        locked = refl;
        shown_lock = λ _. refl;
        shown_time = refl;
        told = IsTold-cleared true c.pools c.messages;
        low_fee = k.low_fee;
      }

  pub dev_fee_connect-IsFair : IsFair l (dev_fee_connect c)
  unfolding dev_fee_connect pool_disconnect send
  dev_fee_connect-IsFair =
      chosen (is_up c.open_pool_count || not c.dev_time) (nth_dev c.dev_pool_index c.dev_pool_list)
        refl
    where
      chosen :
          (b : Bool) (o : Option Text)
          → (is_up c.open_pool_count || not c.dev_time) ≡ b
          → IsFair l (
              if b then c else elim o [
                | none ↦ c
                | some a ↦
                    send
                      (Message.dev_connect_sent a)
                      (record (pool_disconnect c) { dev_pool_index = c.dev_pool_index + 1 })
              ])
      chosen true o g = k
      chosen false none g = k
      chosen false (some a) g = record {
        locked = k.locked;
        shown_lock = k.shown_lock;
        shown_time = k.shown_time;
        told = let on : c.dev_time ≡ true = ground arith in rw on (IsTold-dev c.pools a c.messages);
        low_fee = k.low_fee;
      }

  count_retry-IsFair : IsFair l (count_retry c)
  unfolding count_retry
  count_retry-IsFair = chosen (is_positive c.disconnect_count)
    where
      counted : WebControl
      counted = record c { disconnect_count = c.disconnect_count -ℤ pos 1 }

      chosen :
          (b : Bool)
          → IsFair l
              (if b then counted else record counted { switch_timers = counted.switch_timers + 1 })
      chosen true = record {
        locked = k.locked;
        shown_lock = k.shown_lock;
        shown_time = k.shown_time;
        told = k.told;
        low_fee = k.low_fee;
      }
      chosen false = record {
        locked = k.locked;
        shown_lock = k.shown_lock;
        shown_time = k.shown_time;
        told = k.told;
        low_fee = k.low_fee;
      }

  -- What a browser asks for is done only while there is no lock.
  pub if_free-IsFair :
      (f : WebControl → WebControl) → (c.dev_time ≡ false → IsFair l (f c)) → IsFair l (if_free f c)
  unfolding if_free
  if_free-IsFair f h = chosen c.lock refl
    where
      chosen : (b : Bool) → c.lock ≡ b → IsFair l (if b then c else f c)
      chosen true e = k
      chosen false e = h (sym k.locked ∙ e)

-- After the developers' time no lock is left, whatever was before.
pub dev_end-IsFair : (l : Bool) (c : WebControl) → IsFair l c → IsFair l (dev_end c)
unfolding dev_end pool_disconnect send
dev_end-IsFair l c k =
    pool_connect-IsFair l _
      (record {
        locked = refl;
        shown_lock = λ _. refl;
        shown_time = refl;
        told = IsTold-cleared false c.pools c.messages;
        low_fee = k.low_fee;
      })
      c.user_pool_index refl

pub count_close-IsFair : (l : Bool) (c : WebControl) → IsFair l c → IsFair l (count_close c)
unfolding count_close
count_close-IsFair l c k = chosen c.dev_time
  where
    closed : WebControl
    closed = record c { open_pool_count = c.open_pool_count -ℤ pos 1 }

    fair : IsFair l closed
    fair = record {
      locked = k.locked;
      shown_lock = k.shown_lock;
      shown_time = k.shown_time;
      told = k.told;
      low_fee = k.low_fee;
    }

    chosen : (b : Bool) → IsFair l (if b then closed else count_retry closed)
    chosen true = fair
    chosen false = count_retry-IsFair l closed fair

pub fire_timer-IsFair : (l : Bool) (n : ℕ) (c : WebControl) → IsFair l c → IsFair l (fire_timer n c)
unfolding fire_timer
fire_timer-IsFair l zero c k = k
fire_timer-IsFair l (suc n) c k = chosen c.dev_time refl
  where
    fired : WebControl
    fired = record c { switch_timers = n }

    fair : IsFair l fired
    fair = record {
      locked = k.locked;
      shown_lock = k.shown_lock;
      shown_time = k.shown_time;
      told = k.told;
      low_fee = k.low_fee;
    }

    chosen : (b : Bool) → c.dev_time ≡ b → IsFair l (if b then fired else next_pool fired)
    chosen true e = fair
    chosen false e = next_pool-IsFair l fired fair e
