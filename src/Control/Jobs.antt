-- ===== src/Control/Jobs.antt =====
-- The table of jobs is a window on the jobs that the server has sent.
use perfect_miner.Prelude.{
  ℕ, zero, suc, ◌+◌, ◌-◌, ◌<◌, ◌≡◌, refl, ap, sym, ◌∙◌, Bool, true, false, List, [], ◌∷◌, ◌++◌,
  arith, length, length-append, take, drop, drop-append_le, drop-suc, length-drop, ltb, ◌==◌,
  if◌then◌else◌, Bool-cases, inl, inr, append_assoc, append-nil, subst, ◌||◌,
}
use perfect_miner.Prelude.Text.{Text}
use perfect_miner.Prelude.KeyMap.{KeyMap, insert, remove}
use perfect_miner.Bytes.{Bytes}
use perfect_miner.Control.{
  PoolJob, Control, new_control, sv_job, send_newest, drop_oldest, trim_jobs, is_valid_job,
  store_job, set_checked_job, set_job,
}

-- A job as the server sends it.
pub record Sent : Type 0 where
  pub sent_id : Text
  pub sent_target : Text
  pub sent_blob : Text

abbrev pub stored : ℕ → Sent → PoolJob
stored k s = record {
  job_seq = k;
  job_id = s.sent_id;
  target_hex = s.sent_target;
  blob_hex = take 160 s.sent_blob;
}

-- The jobs numbered from k on.
abbrev pub number : ℕ → List Sent → KeyMap PoolJob
number k [] = []
number k (s ∷ ss) = (k, stored k s) ∷ number (suc k) ss

abbrev pub is_accepted : Sent → Bool
is_accepted s =
    if (length s.sent_id == 0) || (length s.sent_target == 0) || (length s.sent_blob == 0)
    then false
    else is_valid_job s.sent_target s.sent_blob

abbrev pub accepted : List Sent → List Sent
accepted [] = []
accepted (s ∷ ss) = let more = accepted ss in if is_accepted s then s ∷ more else more

unfoldable pub set_jobs : Bytes → List Sent → Control → Control
set_jobs old [] c = c
set_jobs old (s ∷ ss) c = set_jobs old ss (set_job old s.sent_id s.sent_target s.sent_blob c)

-- The last nine.
abbrev pub window : List Sent → List Sent
window ss = drop (length ss - 9) ss

pub record IsWindow (ss : List Sent) (c : Control) : Type 0 where
  pub seq : c.job_seq ≡ suc (length ss)
  pub held : c.jobs ≡ number (suc (length ss - 9)) (window ss)

length-number : (k : ℕ) (ss : List Sent) → length (number k ss) ≡ length ss
length-number k [] = refl
length-number k (s ∷ ss) = ap suc (length-number (suc k) ss)

insert-number :
    (k n : ℕ) (s : Sent) (ss : List Sent)
    → n ≡ k + length ss
    → insert n (stored n s) (number k ss) ≡ number k (ss ++ s ∷ [])
unfolding insert
insert-number k n s [] e =
    let same : n ≡ k = omega (arith, e) in ap (λ i. (i, stored i s) ∷ []) same
insert-number k n s (x ∷ ss) e =
    let other : (n == k) ≡ false = ground (arith, e) in
    let above : ltb n k ≡ false = ground (arith, e) in
    rw (other, above) (ap (◌∷◌ (k, stored k x)) (insert-number (suc k) n s ss (omega (arith, e))))

remove-number : (j k : ℕ) (ss : List Sent) → j < k → remove j (number k ss) ≡ number k ss
unfolding remove
remove-number j k [] l = refl
remove-number j k (s ∷ ss) l =
    let other : (j == k) ≡ false = ground (arith, l) in
    rw other (ap (◌∷◌ (k, stored k s)) (remove-number j (suc k) ss (omega (arith, l))))

drop_oldest-number :
    (k : ℕ) (ss : List Sent) → drop_oldest (number k ss) ≡ number (suc k) (drop 1 ss)
unfolding drop_oldest remove
drop_oldest-number k [] = refl
drop_oldest-number k (s ∷ ss) =
    let same : (k == k) ≡ true = ground arith in rw same (remove-number k (suc k) ss (omega arith))

-- What is left of ten jobs, and of fewer.
trim_jobs-few : (f : ℕ) (m : KeyMap PoolJob) → length m < 10 → trim_jobs f m ≡ m
unfolding trim_jobs
trim_jobs-few zero m l = refl
trim_jobs-few (suc f) m l = let few : ltb (length m) 10 ≡ true = ground (arith, l) in rw few refl

trim_jobs-ten :
    (k : ℕ) (ss : List Sent)
    → length ss ≡ 10
    → trim_jobs (length (number k ss)) (number k ss) ≡ number (suc k) (drop 1 ss)
unfolding trim_jobs
trim_jobs-ten k [] l = absurd (omega (arith, l))
trim_jobs-ten k (s ∷ ss) l =
    let many : ltb (length (number k (s ∷ ss))) 10 ≡ false =
      ground (arith, l, length-number k (s ∷ ss)) in
    rw many (
      rw (drop_oldest-number k (s ∷ ss))
        (trim_jobs-few _ _ (omega (arith, l, length-number (suc k) ss))))

-- One more job in the window.
window-append :
    (ss : List Sent) (s : Sent)
    → trim_jobs
        (length (number (suc (length ss - 9)) (window ss ++ s ∷ [])))
        (number (suc (length ss - 9)) (window ss ++ s ∷ []))
      ≡ number (suc (length (ss ++ s ∷ []) - 9)) (window (ss ++ s ∷ []))
window-append ss s = elim (Bool-cases (ltb (length ss) 9)) [
  | inl few ↦
      let same : m ≡ length (ss ++ s ∷ []) - 9 = ground (arith, length-append ss (s ∷ []), few) in
      let short : length (number (suc m) (window ss ++ s ∷ [])) < 10 = ground (arith, few, size) in
      trim_jobs-few _ _ short
      ∙ ap (number (suc m)) slide
      ∙ ap (λ i. number (suc i) (drop i (ss ++ s ∷ []))) same
  | inr many ↦
      let next : suc m ≡ length (ss ++ s ∷ []) - 9 =
        ground (arith, length-append ss (s ∷ []), many) in
      let ten : length (window ss ++ s ∷ []) ≡ 10 =
        ground (arith, many, length-append (window ss) (s ∷ []), length-drop m ss) in
      trim_jobs-ten (suc m) (window ss ++ s ∷ []) ten
      ∙ ap (λ x. number (suc (suc m)) (drop 1 x)) slide
      ∙ ap (number (suc (suc m))) (sym (drop-suc m (ss ++ s ∷ [])))
      ∙ ap (λ i. number (suc i) (drop i (ss ++ s ∷ []))) next
]
  where
    m : ℕ
    m = length ss - 9

    slide : window ss ++ s ∷ [] ≡ drop m (ss ++ s ∷ [])
    slide = sym (drop-append_le m ss (s ∷ []) (omega arith))

    size : length (number (suc m) (window ss ++ s ∷ [])) ≡ suc (length ss - m)
    size = omega (
      arith,
      length-number (suc m) (window ss ++ s ∷ []),
      length-append (window ss) (s ∷ []),
      length-drop m ss,
    )

-- `_setJob` and `setJob`.
sv_job-jobs : (old : Bytes) (c : Control) → (sv_job old c).jobs ≡ c.jobs
unfolding sv_job send_newest
sv_job-jobs old c = ground arith

sv_job-seq : (old : Bytes) (c : Control) → (sv_job old c).job_seq ≡ c.job_seq
unfolding sv_job send_newest
sv_job-seq old c = ground arith

store_job-IsWindow :
    (old : Bytes) (ss : List Sent) (s : Sent) (c : Control)
    → IsWindow ss c
    → IsWindow (ss ++ s ∷ []) (store_job old s.sent_id s.sent_target s.sent_blob c)
unfolding store_job
store_job-IsWindow old ss s c w = record {
  seq = omega (arith, sv_job-seq old c1, w.seq, length-append ss (s ∷ []));
  held =
      ap (λ m. trim_jobs (length m) m)
        (sv_job-jobs old c1
          ∙ ap (insert c.job_seq (stored c.job_seq s)) w.held
          ∙ insert-number (suc (length ss - 9)) c.job_seq s (window ss)
              (omega (arith, w.seq, length-drop (length ss - 9) ss)))
      ∙ window-append ss s;
}
  where
    c1 : Control
    c1 = record c { jobs = insert c.job_seq (stored c.job_seq s) c.jobs; job_seq = c.job_seq + 1 }

module _ (old : Bytes) (s : Sent) (c : Control) where
  abbrev taken : Control
  taken = set_job old s.sent_id s.sent_target s.sent_blob c

  set_job-accepted :
      is_accepted s ≡ true → taken ≡ store_job old s.sent_id s.sent_target s.sent_blob c
  unfolding set_job set_checked_job
  set_job-accepted h = ground arith

  set_job-refused : is_accepted s ≡ false → taken ≡ c
  unfolding set_job set_checked_job
  set_job-refused h = ground arith

set_jobs-IsWindow :
    (old : Bytes) (ss acc : List Sent) (c : Control)
    → IsWindow acc c
    → IsWindow (acc ++ accepted ss) (set_jobs old ss c)
unfolding set_jobs
set_jobs-IsWindow old [] acc c w = subst (λ ts. IsWindow ts c) (sym (append-nil acc)) w
set_jobs-IsWindow old (s ∷ ss) acc c w = elim (Bool-cases (is_accepted s)) [
  | inl good ↦
      let more : acc ++ s ∷ [] ++ accepted ss ≡ acc ++ accepted (s ∷ ss) =
        append_assoc acc (s ∷ []) (accepted ss)
        ∙ ap (λ b. acc ++ (if b then s ∷ accepted ss else accepted ss)) (sym good) in
      subst (λ ts. IsWindow ts (set_jobs old (s ∷ ss) c)) more
        (set_jobs-IsWindow old ss (acc ++ s ∷ []) (taken old s c) (
          subst (IsWindow (acc ++ s ∷ [])) (sym (set_job-accepted old s c good))
            (store_job-IsWindow old acc s c w)))
  | inr bad ↦
      let same : acc ++ accepted ss ≡ acc ++ accepted (s ∷ ss) =
        ap (λ b. acc ++ (if b then s ∷ accepted ss else accepted ss)) (sym bad) in
      subst (λ ts. IsWindow ts (set_jobs old (s ∷ ss) c)) same
        (set_jobs-IsWindow old ss acc (taken old s c)
          (subst (IsWindow acc) (sym (set_job-refused old s c bad)) w))
]

-- After any jobs from the server, the table holds the last nine of the acceptable ones (or all, where
-- there are fewer), each under its number in the order of their coming, and the next number follows.
pub set_jobs_lem :
    (old : Bytes) (threads : ℕ) (ss : List Sent)
    → IsWindow (accepted ss) (set_jobs old ss (new_control threads))
unfolding new_control
set_jobs_lem old threads ss =
    set_jobs-IsWindow old ss [] (new_control threads) (record { seq = refl; held = refl })
