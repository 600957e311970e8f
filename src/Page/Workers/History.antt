-- ===== src/Page/Workers/History.antt =====
-- The server's table of workers and the page of a browser, through any run of the server.
use mathlib.Core.Option
use perfect_miner.Prelude.{
  ℕ, suc, ◌≤◌, ◌≡◌, refl, sym, ap, ◌∙◌, none, some, Bool-cases, inl, inr, [], drop, ◌==◌,
  if◌then◌else◌,
}
use perfect_miner.Prelude.Floats.{Floats}
use perfect_miner.Prelude.KeyMap.{lookup}
use perfect_miner.Page.Table.{DataTable}
use perfect_miner.WebStat.Workers.{
  Row, Workers, Event, connected, disconnected, named, told_info, app_closed, share_accepted,
  share_rejected, pool_added, pool_deleted, timer, on_event, count_share, add_accepted,
  add_rejected, at_worker,
}
use perfect_miner.WebStat.Workers.Told.{
  messages, greeting, nothing, told_of, worker_update_mini, count, text, Changes,
}
use perfect_miner.Page.Workers.{Info, Page, receive_all, set_fields}
use perfect_miner.Page.Workers.Mirror.{IsMirror}
use perfect_miner.Page.Workers.Changes.{
  mini-IsMirror, silent-IsMirror, timer-IsMirror, worker_info-IsMirror,
}
use perfect_miner.Page.Workers.Rows.{connected-IsMirror, disconnected-IsMirror, greeting-IsMirror}

module _ (fl : Floats) {H : Type 0} (dt : DataTable H) (view : Info fl.F → H) where
  open fl use {F, of_ℕ}

  -- The ids of workers count up.
  abbrev pub Allowed : ℕ → Event F → Type 0
  Allowed n (connected id r) = n ≤ id
  Allowed n _ = Unit {0}

  abbrev pub bound : ℕ → Event F → ℕ
  bound n (connected id r) = suc id
  bound n _ = n

  -- The page gets all that the server sends, in order, as long as its socket stands in the list of
  -- `webEmit`, which may drop it (WebStat/Base); a dropped page is not in these runs. At any time a browser may take its place that
  -- connects then, and gets what is left of the archive.
  pub data Reach : ℕ → Workers F → Page fl dt view → Type 0 where
    begin :
        (w : Workers F) (page : Page fl dt view)
        → w.workers ≡ []
        → w.archive ≡ []
        → w.update_mini ≡ []
        → page.items ≡ []
        → Reach 0 w page
    next :
        {n : ℕ} {w : Workers F} {page : Page fl dt view} (e : Event F)
        → Allowed n e
        → Reach n w page
        → Reach (bound n e) (on_event fl e w) (receive_all fl dt view (messages fl e w) page)
    join :
        {n : ℕ} {w : Workers F} {page : Page fl dt view} (k : ℕ) (blank : Page fl dt view)
        → blank.items ≡ []
        → Reach n w page
        → Reach n w (receive_all fl dt view (greeting fl (drop k w.archive) w) blank)

  begin-IsMirror :
      (w : Workers F) (page : Page fl dt view)
      → w.workers ≡ []
      → w.archive ≡ []
      → w.update_mini ≡ []
      → page.items ≡ []
      → IsMirror fl dt view 0 w page
  unfolding lookup
  begin-IsMirror w page e a q i = record {
    sorted = rw e tt;
    queued = rw q tt;
    known = λ id row h. let no_row : none ≡ some row = sym (ap (lookup id) e) ∙ h in absurd (cc);
    gone = rw a tt;
    shows = λ id row h. let no_row : none ≡ some row = sym (ap (lookup id) e) ∙ h in absurd (cc);
    live = λ id info h _.
        let no_info : none ≡ some info =
          sym (ap (λ m. Option.map (λ w. w.info) (lookup id m)) i) ∙ h in
        absurd (cc);
  }

  -- A share of the worker 0 is of none.
  counted-IsMirror :
      {n : ℕ} {w : Workers F} {page : Page fl dt view} (id : ℕ) (change : Row F → Row F)
      (c : Row F → Changes F)
      → IsMirror fl dt view n w page
      → IsMirror fl dt view n
          (at_worker fl id change w)
          (receive_all fl dt view (told_of fl id (λ row. worker_update_mini fl id (c row)) w) page)
      → IsMirror fl dt view n (count_share fl change id w) (
          receive_all fl dt view
            (if id == 0 then [] else told_of fl id (λ row. worker_update_mini fl id (c row)) w)
            page)
  unfolding count_share receive_all
  counted-IsMirror id change c v changed = elim (Bool-cases (id == 0)) [
    | inl e ↦ rw e v
    | inr e ↦ rw e changed
  ]

  event-IsMirror :
      {n : ℕ} {w : Workers F} {page : Page fl dt view} (e : Event F)
      → Allowed n e
      → IsMirror fl dt view n w page
      → IsMirror fl dt view
          (bound n e)
          (on_event fl e w)
          (receive_all fl dt view (messages fl e w) page)
  unfolding on_event messages receive_all set_fields add_accepted add_rejected
  event-IsMirror (connected id r) h v = connected-IsMirror fl dt view v id r h
  event-IsMirror (disconnected id msg cut) h v = disconnected-IsMirror fl dt view v id msg cut
  event-IsMirror (named id name) h v =
      mini-IsMirror fl dt view id (λ row. record row { name = name })
        (λ row. record (nothing fl) { name = some (text name) }) v (λ _. refl) (λ _. refl)
        (λ _. refl) (λ row info a. (refl, a.1, a.2, a.3, a.4)) (λ row info. refl)
  event-IsMirror (told_info id k) h v = worker_info-IsMirror fl dt view v id k
  event-IsMirror (app_closed id) h v =
      silent-IsMirror fl dt view id (λ row. record row { hash_rate = some (of_ℕ 0) }) v (λ _. refl)
        (λ _. refl) (λ _. refl) (λ row info a. a)
  event-IsMirror (share_accepted id) h v =
      counted-IsMirror id (add_accepted fl)
        (λ row. record (nothing fl) {
          accepted_share_count = some (count (add_accepted fl row).accepted_share_count);
        })
        v
        (mini-IsMirror fl dt view id (add_accepted fl)
          (λ row. record (nothing fl) {
            accepted_share_count = some (count (add_accepted fl row).accepted_share_count);
          })
          v (λ _. refl) (λ _. refl) (λ _. refl) (λ row info a. (a.0, a.1, refl, a.3, a.4))
          (λ row info. refl))
  event-IsMirror (share_rejected id) h v =
      counted-IsMirror id (add_rejected fl)
        (λ row. record (nothing fl) {
          rejected_share_count = some (count (add_rejected fl row).rejected_share_count);
        })
        v
        (mini-IsMirror fl dt view id (add_rejected fl)
          (λ row. record (nothing fl) {
            rejected_share_count = some (count (add_rejected fl row).rejected_share_count);
          })
          v (λ _. refl) (λ _. refl) (λ _. refl) (λ row info a. (a.0, a.1, a.2, refl, a.4))
          (λ row info. refl))
  event-IsMirror (pool_added pool_id id) h v =
      mini-IsMirror fl dt view id (λ row. record row { pool_id = pool_id })
        (λ row. record (nothing fl) { pool_id = some (count pool_id) }) v (λ _. refl) (λ _. refl)
        (λ _. refl) (λ row info a. (a.0, refl, a.2, a.3, a.4)) (λ row info. refl)
  event-IsMirror (pool_deleted id) h v =
      mini-IsMirror fl dt view id (λ row. record row { pool_id = 0 })
        (λ row. record (nothing fl) { pool_id = some (count 0) }) v (λ _. refl) (λ _. refl)
        (λ _. refl) (λ row info a. (a.0, refl, a.2, a.3, a.4)) (λ row info. refl)
  event-IsMirror timer h v = timer-IsMirror fl dt view v

  -- For a browser that gets every message which the server sends from the moment it connected, in
  -- order (its socket was never dropped from the list, as webEmit may do): at any time of any run in
  -- which the ids of workers count up, whatever the workers do and whenever the browser connected,
  -- every worker of the server's table stands on the page as
  -- alive, with the name, the pool and the numbers of accepted and rejected shares of the server;
  -- its numbers of hashes and of shares will be the server's when what waits in the queue of the
  -- timer is read; and the page shows no worker as alive that the server does not have.
  pub Reach-IsMirror :
      {n : ℕ} {w : Workers F} {page : Page fl dt view}
      → Reach n w page
      → IsMirror fl dt view n w page
  Reach-IsMirror (begin w page e a q i) = begin-IsMirror w page e a q i
  Reach-IsMirror (next e h r) = event-IsMirror e h (Reach-IsMirror r)
  Reach-IsMirror (join k blank e r) = greeting-IsMirror fl dt view k blank e (Reach-IsMirror r)
