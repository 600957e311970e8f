-- ===== src/Stratum/Client/History.antt =====
-- Every history of a client, from its start.
use perfect_miner.Prelude.{ℕ, ◌≡◌, Bool, some}
use perfect_miner.Prelude.Text.{Text}
use perfect_miner.Prelude.Floats.{Floats}
use perfect_miner.Bytes.{Bytes}
use perfect_miner.Stratum.Header.{Notice}
use perfect_miner.Stratum.Client.{
  Share, Client, new_client, get_job, update_client, set_extranonce, submit_share, on_result,
}
use perfect_miner.Stratum.Client.Shares.{
  IsSound, get_job-IsSound, update_client-IsSound, submit_share-IsSound, on_result-IsSound,
  set_extranonce-IsSound, new_client-IsSound,
}

module _ (fl : Floats) (sha256d : Bytes → Bytes) where
  open fl use {F}

  -- What happens to a client: notices and extranonces of the pool, requests for a header, shares, and
  -- the results of the pool.
  pub data Reach : Client F → Type 0 where
    start : (id now : ℕ) → Reach (new_client fl sha256d id now)
    notified :
        (fresh : ℕ) (n : Notice F) {c c' : Client F}
        → Reach c
        → update_client fl sha256d fresh n c ≡ some c'
        → Reach c'
    extranonce_set :
        (e1 : Bytes) (size : ℕ) {c : Client F}
        → Reach c
        → Reach (set_extranonce fl sha256d e1 size c)
    header_asked : (key : Text) {c : Client F} → Reach c → Reach (get_job fl sha256d key c).1
    share_found :
        (now id : ℕ) (s : Share) {c : Client F}
        → Reach c
        → Reach (submit_share fl sha256d now id s c)
    answered :
        (call : ℕ) (result : Bool) {c : Client F}
        → Reach c
        → Reach (on_result fl sha256d call result c)

  -- In every history of a client, the shares that it counts are the accepted, the rejected and the
  -- pending ones; and every header that a share may be submitted for is one of the pool's job at hand.
  pub Reach-IsSound : {c : Client F} → Reach c → IsSound fl sha256d c
  Reach-IsSound (start id now) = new_client-IsSound fl sha256d id now
  Reach-IsSound (notified fresh n {c} {c'} r e) =
      update_client-IsSound fl sha256d fresh n c c' (Reach-IsSound r) e
  Reach-IsSound (extranonce_set e1 size {c} r) =
      set_extranonce-IsSound fl sha256d e1 size c (Reach-IsSound r)
  Reach-IsSound (header_asked key {c} r) = get_job-IsSound fl sha256d key c (Reach-IsSound r)
  Reach-IsSound (share_found now id s {c} r) =
      submit_share-IsSound fl sha256d now id s c (Reach-IsSound r)
  Reach-IsSound (answered call result {c} r) =
      on_result-IsSound fl sha256d call result c (Reach-IsSound r)
