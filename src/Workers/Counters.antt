-- ===== src/Workers/Counters.antt =====
-- What the counters of a worker count.
use perfect_miner.Prelude.{ℕ, ◌+◌, ◌<◌, ◌≤◌, ◌≡◌, refl, List, [], ◌∷◌, ◌++◌, arith}
use perfect_miner.Workers.{
  Info, Worker, new_worker, rebase, count_info, app_info, app_close, set_job, Message, info,
  job_sent, closed, on_message, on_messages,
}

-- The reports of one run: its hashes rise from this number on.
abbrev pub Rises : ℕ → List Info → Type 0
Rises lo [] = Unit {0}
Rises lo (i ∷ is) = (lo < i.hash_count) × Rises i.hash_count is

abbrev pub last_of : Info → List Info → Info
last_of i [] = i
last_of i (j ∷ is) = last_of j is

-- A run is its first report and those after it. A run begins where the counter does not rise.
abbrev pub Run : Type 0
Run = Info × List Info

abbrev pub AreRuns : ℕ → List Run → Type 0
AreRuns prev [] = Unit {0}
AreRuns prev ((i, is) ∷ rs) =
    (i.hash_count ≤ prev) × (Rises i.hash_count is × AreRuns (last_of i is).hash_count rs)

abbrev pub reports : Run → List Info → List Info
reports (i, is) rest = i ∷ (is ++ rest)

abbrev pub all_reports : List Run → List Info
all_reports [] = []
all_reports (r ∷ rs) = reports r (all_reports rs)

unfoldable pub app_infos : List Info → Worker → Worker
app_infos [] w = w
app_infos (i ∷ is) w = app_infos is (app_info i w)

-- The sum of what the runs have reached.
abbrev pub total_hashes : List Run → ℕ
total_hashes [] = 0
total_hashes ((i, is) ∷ rs) = (last_of i is).hash_count + total_hashes rs

abbrev pub total_shares : List Run → ℕ
total_shares [] = 0
total_shares ((i, is) ∷ rs) = (last_of i is).share_count + total_shares rs

pub record IsAt (hashes shares prev : ℕ) (w : Worker) : Type 0 where
  pub hashes_at : w.hash_count ≡ hashes
  pub shares_at : w.share_count ≡ shares
  pub prev_at : w.prev_hash_count ≡ prev

pub record IsDuring (hashes shares : ℕ) (i : Info) (w : Worker) : Type 0 where
  pub hashes_from : w.hash_count_delta ≡ hashes
  pub shares_from : w.share_count_delta ≡ shares
  pub at : IsAt (hashes + i.hash_count) (shares + i.share_count) i.hash_count w

begins :
    (h s prev : ℕ) (i : Info) (w : Worker)
    → IsAt h s prev w
    → i.hash_count ≤ prev
    → IsDuring h s i (app_info i w)
unfolding app_info rebase count_info
begins h s prev i w a l = record {
  hashes_from = ground (arith, a.hashes_at, a.prev_at);
  shares_from = ground (arith, a.shares_at, a.prev_at);
  at = record {
    hashes_at = ground (arith, a.hashes_at, a.prev_at);
    shares_at = ground (arith, a.shares_at, a.prev_at);
    prev_at = refl;
  };
}

goes_on :
    (h s : ℕ) (i j : Info) (w : Worker)
    → IsDuring h s i w
    → i.hash_count < j.hash_count
    → IsDuring h s j (app_info j w)
unfolding app_info rebase count_info
goes_on h s i j w d l = record {
  hashes_from = ground (arith, d.hashes_from, d.at.prev_at);
  shares_from = ground (arith, d.shares_from, d.at.prev_at);
  at = record {
    hashes_at = ground (arith, d.hashes_from, d.at.prev_at);
    shares_at = ground (arith, d.shares_from, d.at.prev_at);
    prev_at = refl;
  };
}

-- A run and what follows it.
through :
    (h s : ℕ) (i : Info) (is rest : List Info) (w : Worker)
    → IsDuring h s i w
    → Rises i.hash_count is
    → (P : Worker → Type 0) → ((v : Worker) → IsDuring h s (last_of i is) v → P (app_infos rest v))
    → P (app_infos (is ++ rest) w)
unfolding app_infos
through h s i [] rest w d r P k = k w d
through h s i (j ∷ is) rest w d r P k =
    through h s j is rest (app_info j w) (goes_on h s i j w d r.0) r.1 P k

counts_from :
    (rs : List Run) (h s prev : ℕ) (w : Worker)
    → IsAt h s prev w
    → AreRuns prev rs
    → ((app_infos (all_reports rs) w).hash_count ≡ h + total_hashes rs)
      × ((app_infos (all_reports rs) w).share_count ≡ s + total_shares rs)
unfolding app_infos
counts_from [] h s prev w a r = (omega (arith, a.hashes_at), omega (arith, a.shares_at))
counts_from ((i, is) ∷ rs) h s prev w a r =
    through h s i is (all_reports rs) (app_info i w) (begins h s prev i w a r.0) r.1.0
      (λ v.
        (v.hash_count ≡ h + total_hashes ((i, is) ∷ rs))
        × (v.share_count ≡ s + total_shares ((i, is) ∷ rs)))
      (λ v d.
        let rest =
          counts_from rs (h + (last_of i is).hash_count) (s + (last_of i is).share_count)
            (last_of i is).hash_count v d.at r.1.1 in
        (omega (arith, rest.0), omega (arith, rest.1)))

-- A worker that has just connected and that reports any number of runs, the first from 0 hashes and
-- each later one from no more than the run before it had reached, is counted with the sum of what
-- the runs have reached, in hashes and in shares, if the hashes rise from report to report in a run.
pub app_infos_lem :
    (rs : List Run)
    → AreRuns 0 rs
    → ((app_infos (all_reports rs) new_worker).hash_count ≡ total_hashes rs)
      × ((app_infos (all_reports rs) new_worker).share_count ≡ total_shares rs)
unfolding new_worker
app_infos_lem rs r =
    let sums =
      counts_from rs 0 0 0 new_worker
        (record { hashes_at = refl; shares_at = refl; prev_at = refl }) r in
    (omega (arith, sums.0), omega (arith, sums.1))

-- A report that repeats the number of hashes of the report before it is counted as a run of its own:
-- the hashes of the run are added once more.
pub app_info-repeated :
    (i j : Info) (w : Worker)
    → i.hash_count ≡ j.hash_count
    → (app_info j (app_info i w)).hash_count ≡ (app_info i w).hash_count + i.hash_count
unfolding app_info rebase count_info
app_info-repeated i j w e = ground arith

pub record IsSplit (w : Worker) : Type 0 where
  pub split : w.hash_count ≡ w.hash_count_delta + w.prev_hash_count

on_message-IsSplit : (m : Message) (w : Worker) → IsSplit w → IsSplit (on_message m w)
unfolding on_message app_info rebase count_info app_close set_job
on_message-IsSplit (info i) w s = record { split = ground arith }
on_message-IsSplit job_sent w s = record { split = s.split }
on_message-IsSplit closed w s = record { split = s.split }

on_message_mono :
    (m : Message) (w : Worker) → IsSplit w → w.hash_count ≤ (on_message m w).hash_count
unfolding on_message app_info rebase count_info app_close set_job
on_message_mono (info i) w s = ground (arith, s.split)
on_message_mono job_sent w s = omega arith
on_message_mono closed w s = omega arith

on_messages_mono :
    (ms : List Message) (w : Worker) → IsSplit w → w.hash_count ≤ (on_messages ms w).hash_count
unfolding on_messages
on_messages_mono [] w s = omega arith
on_messages_mono (m ∷ ms) w s =
    omega (
      arith,
      on_message_mono m w s,
      on_messages_mono ms (on_message m w) (on_message-IsSplit m w s),
    )

on_messages-IsSplit : (ms : List Message) (w : Worker) → IsSplit w → IsSplit (on_messages ms w)
unfolding on_messages
on_messages-IsSplit [] w s = s
on_messages-IsSplit (m ∷ ms) w s =
    on_messages-IsSplit ms (on_message m w) (on_message-IsSplit m w s)

-- Whatever a worker sends, and whenever it starts its counters again, its total on the server never
-- goes down.
pub on_messages-never_falls :
    (before after : List Message)
    → (on_messages before new_worker).hash_count
      ≤ (on_messages after (on_messages before new_worker)).hash_count
unfolding new_worker
on_messages-never_falls before after =
    on_messages_mono after _ (on_messages-IsSplit before new_worker (record { split = refl }))
