-- ===== src/Stratum/Pool/History.antt =====
-- Every history of the client of a pool, whatever the pool sends.
use perfect_miner.Prelude.{ℕ, ◌≡◌, refl, ap, subst, ◌∙◌, Bool, Option, arith, is_some}
use perfect_miner.Prelude.Int.{ℤ}
use perfect_miner.Prelude.Text.{Text}
use perfect_miner.Prelude.Floats.{Floats}
use perfect_miner.Bytes.{Bytes}
use perfect_miner.Json.{Value}
use perfect_miner.Stratum.Client.{Share, get_job, submit_share, on_result}
use perfect_miner.Stratum.Client.History.{start, header_asked, share_found, answered}
use perfect_miner.Stratum.Client.Blobs.{get_job-extranonce, submit_share-job, on_result-job}
use perfect_miner.Stratum.Pool.{
  Pool, done, new_pool, subscribe, tell, has_extranonce, on_notify, on_connect, on_subscribed,
  on_authorized,
}
use perfect_miner.Stratum.Pool.Kept.{IsKept, Holds, tell-IsCounted}
use perfect_miner.Stratum.Pool.Steps.{on_notify-IsKept, on_subscribed-IsKept, on_authorized-IsKept}

module _ (fl : Floats) (sha256d : Bytes → Bytes) (parse_float : Value fl.F → fl.F)
    (to_integer : Value fl.F → Option ℤ) where
  open fl use {F}

  -- The messages and the answers of the pool, and what the workers ask for; an exception ends it.
  pub data Reach : Pool F → Type 0 where
    opened : (id now : ℕ) → Reach (new_pool fl sha256d id now)
    connected : {p : Pool F} → Reach p → Reach (on_connect p)
    told :
        (fresh : ℕ) (method : Text) (params : Value F) (b : Bool) {p p' : Pool F}
        → Reach p
        → on_notify fl sha256d parse_float to_integer fresh method params p ≡ done b p'
        → Reach p'
    subscribed :
        (result error : Value F) (b : Bool) {p p' : Pool F}
        → Reach p
        → on_subscribed fl sha256d parse_float to_integer result error p ≡ done b p'
        → Reach p'
    authorized :
        (result error : Value F) (b : Bool) {p p' : Pool F}
        → Reach p
        → on_authorized fl sha256d parse_float to_integer result error p ≡ done b p'
        → Reach p'
    asked :
        (key : Text) {p : Pool F}
        → Reach p
        → Reach (record p { client = (get_job fl sha256d key p.client).1 })
    submitted :
        (now id : ℕ) (s : Share) {p : Pool F}
        → Reach p
        → Reach (record p { client = submit_share fl sha256d now id s p.client })
    settled :
        (call : ℕ) (result : Bool) {p : Pool F}
        → Reach p
        → Reach (record p { client = on_result fl sha256d call result p.client })

  new_pool-IsKept : (id now : ℕ) → IsKept fl sha256d (new_pool fl sha256d id now)
  unfolding new_pool has_extranonce
  new_pool-IsKept id now = record {
    counted = record { history = start id now; told_once = refl; told_jobs = refl };
    ready = λ _ given. absurd (ground arith);
  }

  on_connect-IsKept : (p : Pool F) → IsKept fl sha256d p → IsKept fl sha256d (on_connect p)
  unfolding on_connect tell has_extranonce
  on_connect-IsKept p k = record {
    counted = tell-IsCounted fl sha256d subscribe p refl refl k.counted;
    ready = k.ready;
  }

  -- In every history of the client of a pool, the shares and headers have a history as the client's,
  -- the program was told of as many accepted jobs as are counted, the connection was asked to close
  -- once if the pool is closed and never if it is not, and a pool that is not closed has the
  -- extranonce of the job set once `mining_notify` would take a notice.
  pub Reach-IsKept : {p : Pool F} → Reach p → IsKept fl sha256d p
  unfolding has_extranonce
  Reach-IsKept (opened id now) = new_pool-IsKept id now
  Reach-IsKept (connected {p} r) = on_connect-IsKept p (Reach-IsKept r)
  Reach-IsKept (told fresh method params b {p} {p'} r e) =
      subst (Holds fl sha256d (IsKept fl sha256d)) e
        (on_notify-IsKept fl sha256d parse_float to_integer fresh method params p (Reach-IsKept r))
  Reach-IsKept (subscribed result error b {p} {p'} r e) =
      subst (Holds fl sha256d (IsKept fl sha256d)) e
        (on_subscribed-IsKept fl sha256d parse_float to_integer result error p (Reach-IsKept r))
  Reach-IsKept (authorized result error b {p} {p'} r e) =
      subst (Holds fl sha256d (IsKept fl sha256d)) e
        (on_authorized-IsKept fl sha256d parse_float to_integer result error p (Reach-IsKept r))
  Reach-IsKept (asked key {p} r) =
      let k : IsKept fl sha256d p = Reach-IsKept r in
      record {
        counted = record {
          history = header_asked key k.counted.history;
          told_once = k.counted.told_once;
          told_jobs = k.counted.told_jobs;
        };
        ready = λ still given. get_job-extranonce fl sha256d key p.client ∙ k.ready still given;
      }
  Reach-IsKept (submitted now id s {p} r) =
      let k : IsKept fl sha256d p = Reach-IsKept r in
      record {
        counted = record {
          history = share_found now id s k.counted.history;
          told_once = k.counted.told_once;
          told_jobs = k.counted.told_jobs;
        };
        ready = λ still given.
            ap (λ j. is_some j.extranonce) (submit_share-job fl sha256d now id s p.client)
            ∙ k.ready still given;
      }
  Reach-IsKept (settled call result {p} r) =
      let k : IsKept fl sha256d p = Reach-IsKept r in
      record {
        counted = record {
          history = answered call result k.counted.history;
          told_once = k.counted.told_once;
          told_jobs = k.counted.told_jobs;
        };
        ready = λ still given.
            ap (λ j. is_some j.extranonce) (on_result-job fl sha256d call result p.client)
            ∙ k.ready still given;
      }
