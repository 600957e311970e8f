-- ===== src/WebControl/Settings.antt =====
-- The bounds of the settings of a pool in ControlServer/WebControl.js.
use perfect_miner.Prelude.{
  ◌≡◌, refl, Bool, true, false, Option, none, some, List, [], ◌∷◌, arith, if◌then◌else◌,
}
use perfect_miner.Prelude.Int.{ℤ, pos, ◌≤ℤ◌}
use perfect_miner.WebControl.{PoolInfo, keep_interval, limit_workers, retries, try_pool, try_pools}

abbrev pub IsLongKept : Option ℤ → Type 0
IsLongKept none = Unit
IsLongKept (some n) = pos 20 ≤ℤ n

-- The settings of a pool, as they may be.
pub record IsTried (p : PoolInfo) : Type 0 where
  pub interval : IsLongKept p.keepalive
  pub some_workers : pos 1 ≤ℤ p.max_workers
  pub not_many : p.max_workers ≤ℤ (if p.emu_nicehash then pos 256 else pos 100)
  pub tries : (n : ℤ) × (p.retry_count_connect ≡ some n) × (pos 1 ≤ℤ n)

pub AllTried : List PoolInfo → Type 0
AllTried [] = Unit
AllTried (p ∷ ps) = IsTried p × AllTried ps

keep_interval_twice : (k : Option ℤ) → keep_interval (keep_interval k) ≡ keep_interval k
unfolding keep_interval
keep_interval_twice none = refl
keep_interval_twice (some n) = ground arith

limit_workers_twice : (b : Bool) (n : ℤ) → limit_workers b (limit_workers b n) ≡ limit_workers b n
unfolding limit_workers
limit_workers_twice true n = ground arith
limit_workers_twice false n = ground arith

retries_twice : (r : Option ℤ) → retries (some (retries r)) ≡ retries r
unfolding retries
retries_twice none = ground arith
retries_twice (some n) = ground arith

try_pool-IsTried : (p : PoolInfo) → IsTried (try_pool p)
unfolding try_pool keep_interval limit_workers retries
try_pool-IsTried p = record {
  interval = long p.keepalive;
  some_workers = many p.emu_nicehash p.max_workers;
  not_many = few p.emu_nicehash p.max_workers;
  tries = (_, refl, tried p.retry_count_connect);
}
  where
    long : (k : Option ℤ) → IsLongKept (keep_interval k)
    long none = tt
    long (some n) = ground arith

    many : (b : Bool) (n : ℤ) → pos 1 ≤ℤ limit_workers b n
    many true n = ground arith
    many false n = ground arith

    few : (b : Bool) (n : ℤ) → limit_workers b n ≤ℤ (if b then pos 256 else pos 100)
    few true n = ground arith
    few false n = ground arith

    tried : (r : Option ℤ) → pos 1 ≤ℤ retries r
    tried none = ground arith
    tried (some n) = ground arith

try_pool_twice : (p : PoolInfo) → try_pool (try_pool p) ≡ try_pool p
unfolding try_pool
try_pool_twice p = cc (
  keep_interval_twice p.keepalive,
  limit_workers_twice p.emu_nicehash p.max_workers,
  retries_twice p.retry_count_connect,
)

-- Whatever a browser or the file of settings gives, trySettingsPools brings each pool's keepalive,
-- number of workers and number of retries into their bounds, and leaves them so when it runs again.
pub try_pools_lem :
    (ps : List PoolInfo) → AllTried (try_pools ps) × (try_pools (try_pools ps) ≡ try_pools ps)
unfolding AllTried try_pools
try_pools_lem [] = (tt, refl)
try_pools_lem (p ∷ ps) =
    let (tried, same) = try_pools_lem ps in
    ((try_pool-IsTried p, tried), cc (try_pool_twice p, same))
