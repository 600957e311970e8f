-- ===== src/HashRate/Minutes/Results.antt =====
-- The rates over minutes are taken from the marks of the last day.
use perfect_miner.Prelude.{
  ℕ, ◌+◌, ◌≡◌, refl, ap, sym, subst, ◌∙◌, true, false, List, [], ◌∷◌, ◌++◌, length, leb, arith,
  Bool-cases, inl, inr, append-nil, append_assoc,
}
use perfect_miner.HashRate.{Entry, add_result_job, new_hash_rate_last}
use perfect_miner.HashRate.Ring.{Holds, add_result_job-Holds, new_hash_rate_last-Holds}
use perfect_miner.HashRate.Minutes.{
  Callback, min1_event, min5_event, TimeEvent, HashRate, on, is_due, emit, min1, min5_add, min5,
  call, call_all, new_hash_rate, add_result, get_hash_rate,
}
use perfect_miner.HashRate.Minutes.Marks.{
  marks_from, marks, before, old_enough, add_all, ring, search_lem,
}

abbrev each_minute : ℕ → TimeEvent
each_minute last = record { interval = 60; last_time = last; cb = min1_event }

abbrev each_mark : ℕ → TimeEvent
each_mark last = record { interval = 300; last_time = last; cb = min5_event }

-- The marks so far, and the time of the last.
record IsMarked (es : List Entry) (last : ℕ) (h : HashRate) : Type 0 where
  held : Holds es (ring h)
  full : h.min5_count ≡ 288
  events : (a : ℕ) × (h.time_events ≡ each_minute a ∷ each_mark last ∷ [])

abbrev with_due : Entry → HashRate → List TimeEvent × List Callback → HashRate
with_due r h due = call_all due.1 (record h { hashes = r.0; time = r.1; time_events = due.0 })

module _ (r : Entry) (es : List Entry) (last : ℕ) (h : HashRate) (m : IsMarked es last h) where
  -- A result that comes late, and one that does not.
  late-IsMarked : leb (last + 300) r.1 ≡ true → IsMarked (es ++ r ∷ []) r.1 (add_result r h)
  unfolding add_result emit is_due call_all call min1 min5 min5_add add_result_job
  late-IsMarked late =
      let (a, evs) = m.events in
      elim (Bool-cases (leb (a + 60) r.1)) [
        | inl minute ↦
            subst (IsMarked (es ++ r ∷ []) r.1)
              (sym (ap (λ ev. with_due r h (emit r.1 ev)) evs ∙ ap (with_due r h) (both a minute)))
              (record {
                held = add_result_job-Holds r es (ring h) m.held;
                full = m.full;
                events = (r.1, refl);
              })
        | inr early ↦
            subst (IsMarked (es ++ r ∷ []) r.1)
              (sym (ap (λ ev. with_due r h (emit r.1 ev)) evs ∙ ap (with_due r h) (one a early)))
              (record {
                held = add_result_job-Holds r es (ring h) m.held;
                full = m.full;
                events = (a, refl);
              })
      ]
    where
      both :
          (a : ℕ)
          → leb (a + 60) r.1 ≡ true
          → emit r.1 (each_minute a ∷ each_mark last ∷ [])
            ≡ (each_minute r.1 ∷ each_mark r.1 ∷ [], min1_event ∷ min5_event ∷ [])
      both a e = rw (e, late)

      one :
          (a : ℕ)
          → leb (a + 60) r.1 ≡ false
          → emit r.1 (each_minute a ∷ each_mark last ∷ [])
            ≡ (each_minute a ∷ each_mark r.1 ∷ [], min5_event ∷ [])
      one a e = rw (e, late)

  early-IsMarked : leb (last + 300) r.1 ≡ false → IsMarked es last (add_result r h)
  unfolding add_result emit is_due call_all call min1
  early-IsMarked early =
      let (a, evs) = m.events in
      elim (Bool-cases (leb (a + 60) r.1)) [
        | inl minute ↦
            subst (IsMarked es last)
              (sym (ap (λ ev. with_due r h (emit r.1 ev)) evs ∙ ap (with_due r h) (one a minute)))
              (record { held = m.held; full = m.full; events = (r.1, refl) })
        | inr none_due ↦
            subst (IsMarked es last)
              (sym (
                ap (λ ev. with_due r h (emit r.1 ev)) evs ∙ ap (with_due r h) (neither a none_due)))
              (record { held = m.held; full = m.full; events = (a, refl) })
      ]
    where
      one :
          (a : ℕ)
          → leb (a + 60) r.1 ≡ true
          → emit r.1 (each_minute a ∷ each_mark last ∷ [])
            ≡ (each_minute r.1 ∷ each_mark last ∷ [], min1_event ∷ [])
      one a e = rw (e, early)

      neither :
          (a : ℕ)
          → leb (a + 60) r.1 ≡ false
          → emit r.1 (each_minute a ∷ each_mark last ∷ [])
            ≡ (each_minute a ∷ each_mark last ∷ [], [])
      neither a e = rw (e, early)

-- The time of the last result.
abbrev pub last_time : ℕ → List Entry → ℕ
last_time now [] = now
last_time now ((hashes, time) ∷ results) = last_time time results

time-call_all : (cs : List Callback) (h : HashRate) → (call_all cs h).time ≡ h.time
unfolding call_all call min1 min5 min5_add
time-call_all [] h = refl
time-call_all (min1_event ∷ cs) h = time-call_all cs (min1 h)
time-call_all (min5_event ∷ cs) h = time-call_all cs (min5 h)

time-add_all :
    (results : List Entry) (h : HashRate) → (add_all results h).time ≡ last_time h.time results
unfolding add_result
time-add_all [] h = refl
time-add_all ((hashes, time) ∷ results) h =
    time-add_all results (add_result (hashes, time) h)
    ∙ ap (λ t. last_time t results) (time-call_all (emit time h.time_events).1 _)

add_all-IsMarked :
    (results es : List Entry) (last : ℕ) (h : HashRate)
    → IsMarked es last h
    → (l : ℕ) × IsMarked (es ++ marks_from last results) l (add_all results h)
add_all-IsMarked [] es last h m = (last, subst (λ xs. IsMarked xs last h) (sym (append-nil es)) m)
add_all-IsMarked ((hashes, time) ∷ results) es last h m =
    elim (Bool-cases (leb (last + 300) time)) [
      | inl late ↦
          rw (late, marks_from)
            (rw (← append_assoc es ((hashes, time) ∷ []) (marks_from time results)) (
              add_all-IsMarked results (es ++ (hashes, time) ∷ []) time _
                (late-IsMarked (hashes, time) es last h m late)))
      | inr early ↦
          rw (early, marks_from)
            (add_all-IsMarked results es last _ (early-IsMarked (hashes, time) es last h m early))
    ]

new_hash_rate-IsMarked : (now : ℕ) → IsMarked ((0, now) ∷ []) now (new_hash_rate now)
unfolding new_hash_rate min5_add new_hash_rate_last add_result_job on
new_hash_rate-IsMarked now = record {
  held = new_hash_rate_last-Holds 288 now (omega arith);
  full = refl;
  events = (now, refl);
}

-- The rate over m minutes is taken from a mark that is m minutes old or older, or is not given; the
-- marks are the start and the results that come five minutes or more behind the mark before; they are
-- searched from the newest on, 288 of them at most, and each number of minutes takes the next mark
-- that is as old.
pub minutes_lem :
    (now : ℕ) (results : List Entry) (mins : List ℕ)
    → get_hash_rate mins (add_all results (new_hash_rate now))
      ≡ old_enough
          (last_time now results)
          mins
          (before 288 (length (marks now results)) (marks now results))
unfolding new_hash_rate min5_add
minutes_lem now results mins =
    let (_, m) =
      add_all-IsMarked results ((0, now) ∷ []) now (new_hash_rate now)
        (new_hash_rate-IsMarked now) in
    search_lem (length (marks_from now results)) 287 mins (marks now results)
      (add_all results (new_hash_rate now)) m.held refl m.full
    ∙ ap (λ t. old_enough t mins (before 288 (length (marks now results)) (marks now results)))
        (time-add_all results (new_hash_rate now))
