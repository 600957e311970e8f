-- ===== src/Proxy/Signals.antt =====
-- The events that the proxy listens to as steps, and what every history of them keeps.
use perfect_miner.Prelude.{ℕ, ◌≡◌, true, none, arith, inl, inr, Option-cases, subst}
use perfect_miner.Prelude.KeyMap.{lookup, has}
use perfect_miner.Proxy.{
  Proxy, init, worker_connect, worker_disconnect, Outcome, done, type_error, pool_connect,
  pool_disconnect, pool_open, pool_close,
}
use perfect_miner.Proxy.Invariant.{IsConsistent}
use perfect_miner.Proxy.Connect.{
  init-IsConsistent, worker_connect-IsConsistent, pool_connect-IsConsistent,
}
use perfect_miner.Proxy.Disconnect.{forget-IsConsistent, pool_disconnect-IsConsistent}

-- The events that bear on the assignment, with the id of their worker or pool.
pub data Signal : Type 0 where
  worker_connected worker_disconnected : ℕ → Signal
  pool_opened pool_closed pool_connected pool_disconnected : ℕ → Signal

unfoldable pub handle : Signal → Proxy → Outcome
handle (worker_connected id) p = done (worker_connect id p)
handle (worker_disconnected id) p = worker_disconnect id p
handle (pool_opened id) p = done (pool_open id p)
handle (pool_closed id) p = done (pool_close id p)
handle (pool_connected id) p = done (pool_connect id p)
handle (pool_disconnected id) p = done (pool_disconnect id p)

-- Ids are handed out once, so an object that connects is not there yet; and a worker reports that
-- it is gone after it has connected.
abbrev pub IsTimely : Signal → Proxy → Type 0
IsTimely (worker_connected id) p = lookup id p.workers ≡ none
IsTimely (worker_disconnected id) p = has id p.workers ≡ true
IsTimely (pool_connected id) p = lookup id p.pools ≡ none
IsTimely s p = Unit {0}

pub data Reach (n : ℕ) : Proxy → Type 0 where
  start : Reach n (init n)
  next : {p q : Proxy} (s : Signal) → Reach n p → IsTimely s p → handle s p ≡ done q → Reach n q

abbrev pub Ends : (Proxy → Type 0) → Outcome → Type 0
Ends P (done p) = P p
Ends P type_error = ⊥

worker_disconnect-Ends :
    (id : ℕ) (p : Proxy)
    → IsConsistent p
    → has id p.workers ≡ true
    → Ends IsConsistent (worker_disconnect id p)
unfolding worker_disconnect
worker_disconnect-Ends id p v h = elim (Option-cases (lookup id p.workers)) [
  | inl e ↦ absurd (ground arith)
  | inr (w, e) ↦ rw (e, worker_disconnect) (forget-IsConsistent id w p v e)
]

-- Every timely event is handled without a TypeError, and afterwards each connected worker stands
-- once in the free list and in no pool, or in no free list and in the one pool that it names; no
-- other worker stands anywhere; and each pool counts its members and stays within its limit.
pub handle-IsConsistent :
    (s : Signal) (p : Proxy) → IsConsistent p → IsTimely s p → Ends IsConsistent (handle s p)
unfolding handle pool_open pool_close
handle-IsConsistent (worker_connected id) p v t = worker_connect-IsConsistent id p v t
handle-IsConsistent (worker_disconnected id) p v t = worker_disconnect-Ends id p v t
handle-IsConsistent (pool_opened id) p v t = record {
  waiting = v.waiting;
  mining = v.mining;
  valid = v.valid;
}
handle-IsConsistent (pool_closed id) p v t = record {
  waiting = v.waiting;
  mining = v.mining;
  valid = v.valid;
}
handle-IsConsistent (pool_connected id) p v t = pool_connect-IsConsistent id p v t
handle-IsConsistent (pool_disconnected id) p v t = pool_disconnect-IsConsistent id p v

-- The same after any history of timely events from a proxy with no worker and no pool.
pub Reach-IsConsistent : (n : ℕ) {p : Proxy} → Reach n p → IsConsistent p
Reach-IsConsistent n start = init-IsConsistent n
Reach-IsConsistent n (next {p} {q} s r t e) =
    subst (Ends IsConsistent) e (handle-IsConsistent s p (Reach-IsConsistent n r) t)
