-- ===== src/WebControl/Told.antt =====
-- Whom the proxy mines for, after what ControlServer/WebControl.js has told it.
use perfect_miner.Prelude.{
  ℕ, zero, suc, ◌+◌, ◌≤◌, ◌≡◌, refl, ap, subst, sym, ◌∙◌, Bool, true, false, some, List, [], ◌∷◌,
  ◌++◌, map, get_elem?, arith, if◌then◌else◌,
}
use perfect_miner.Prelude.Int.{ℤ}
use perfect_miner.Prelude.Text.{Text}
use perfect_miner.WebControl.{
  PoolInfo, Message, pool_connect_sent, dev_connect_sent, pool_disconnect_sent, save, try_pool,
  try_pools, set_count, set_count_at,
}

abbrev pub mined : List PoolInfo → ℕ
mined [] = 0
mined (p ∷ ps) = p.pool_count + mined ps

-- Whom the proxy mines for, after what it was told: it lets its pools go when it is told so, and takes
-- up a pool when it is told to connect.
pub data Miner : Type 0 where
  nobody the_user developers : Miner

abbrev pub mines : Miner → List Message → Miner
mines who [] = who
mines who (pool_connect_sent p ∷ ms) = mines the_user ms
mines who (dev_connect_sent a ∷ ms) = mines developers ms
mines who (pool_disconnect_sent ∷ ms) = mines nobody ms
mines who (save fee ps ∷ ms) = mines who ms

abbrev pub users : Miner → ℕ
users the_user = 1
users _ = 0

abbrev pub devs : Miner → ℕ
devs developers = 1
devs _ = 0

-- Of the pools of the user as many are marked as the proxy was told to mine for; in the developers'
-- time it is none of them, and only then one of the developers.
abbrev pub IsTold : Bool → List PoolInfo → Miner → Type 0
IsTold dev_time ps who =
    (mined ps ≡ users who)
    × ((users who ≤ (if dev_time then 0 else 1)) × (devs who ≤ (if dev_time then 1 else 0)))

pub mines-append :
    (who : Miner) (ms ns : List Message) → mines who (ms ++ ns) ≡ mines (mines who ms) ns
mines-append who [] ns = refl
mines-append who (pool_connect_sent p ∷ ms) ns = mines-append the_user ms ns
mines-append who (dev_connect_sent a ∷ ms) ns = mines-append developers ms ns
mines-append who (pool_disconnect_sent ∷ ms) ns = mines-append nobody ms ns
mines-append who (save fee ps ∷ ms) ns = mines-append who ms ns

pub IsTold-after :
    (b : Bool) (ps : List PoolInfo) (ms ns : List Message)
    → IsTold b ps (mines (mines nobody ms) ns)
    → IsTold b ps (mines nobody (ms ++ ns))
IsTold-after b ps ms ns t = subst (IsTold b ps) (sym (mines-append nobody ms ns)) t

pub mined-try_pools : (ps : List PoolInfo) → mined (try_pools ps) ≡ mined ps
unfolding try_pools try_pool
mined-try_pools [] = refl
mined-try_pools (p ∷ ps) = ap (λ n. p.pool_count + n) (mined-try_pools ps)

pub mined-clear : (ps : List PoolInfo) → mined (map (set_count 0) ps) ≡ 0
unfolding set_count
mined-clear [] = refl
mined-clear (p ∷ ps) = omega (arith, mined-clear ps)

pub mined-one :
    (i : ℕ) (ps : List PoolInfo) (p : PoolInfo)
    → get_elem? ps i ≡ some p
    → mined (set_count_at i (map (set_count 0) ps)) ≡ 1
unfolding set_count set_count_at
mined-one i [] p h = absurd (ground arith)
mined-one zero (q ∷ ps) p h = omega (arith, mined-clear ps)
mined-one (suc i) (q ∷ ps) p h = omega (arith, mined-one i ps p h)

pub IsTold-cleared :
    (b : Bool) (ps : List PoolInfo) (ms : List Message)
    → IsTold b (map (set_count 0) ps) (mines nobody (ms ++ pool_disconnect_sent ∷ []))
IsTold-cleared b ps ms =
    IsTold-after b _ ms (pool_disconnect_sent ∷ []) (mined-clear ps, (no_user b, no_dev b))
  where
    no_user : (b : Bool) → 0 ≤ (if b then 0 else 1)
    no_user true = omega arith
    no_user false = omega arith

    no_dev : (b : Bool) → 0 ≤ (if b then 1 else 0)
    no_dev true = omega arith
    no_dev false = omega arith

pub IsTold-connected :
    (i : ℕ) (ps : List PoolInfo) (p q : PoolInfo) (ms : List Message)
    → get_elem? ps i ≡ some p
    → IsTold false
        (set_count_at i (map (set_count 0) ps))
        (mines nobody ((ms ++ pool_disconnect_sent ∷ []) ++ pool_connect_sent q ∷ []))
IsTold-connected i ps p q ms h =
    IsTold-after false _ (ms ++ pool_disconnect_sent ∷ []) (pool_connect_sent q ∷ [])
      (mined-one i ps p h, (omega arith, omega arith))

pub IsTold-dev :
    (ps : List PoolInfo) (a : Text) (ms : List Message)
    → IsTold true
        (map (set_count 0) ps)
        (mines nobody ((ms ++ pool_disconnect_sent ∷ []) ++ dev_connect_sent a ∷ []))
IsTold-dev ps a ms =
    IsTold-after true _ (ms ++ pool_disconnect_sent ∷ []) (dev_connect_sent a ∷ [])
      (mined-clear ps, (omega arith, omega arith))

-- Settings that are saved change nobody's mining.
pub IsTold-saved :
    (b : Bool) (ps qs rs : List PoolInfo) (fee : ℤ) (ms : List Message)
    → mined qs ≡ mined ps
    → IsTold b ps (mines nobody ms)
    → IsTold b qs (mines nobody (ms ++ save fee rs ∷ []))
IsTold-saved b ps qs rs fee ms e (m, t) = IsTold-after b qs ms (save fee rs ∷ []) (e ∙ m, t)
