-- ===== src/HashRate/Minutes/Marks.antt =====
-- The search for a mark, over the ring and over the marks that it holds.
use perfect_miner.Prelude.{
  ℕ, zero, suc, ◌+◌, ◌-◌, ◌*◌, ◌%◌, ◌≤◌, ◌<◌, ◌≡◌, refl, ap, ◌∙◌, true, false, Option, none, some,
  List, [], ◌∷◌, length, get_or, leb, ◌==◌, if◌then◌else◌, arith, Bool-cases, inl, inr,
}
use native.Mathlib.Nat.{add-mod_right}
use perfect_miner.HashRate.{Entry, HashRateLast}
use perfect_miner.HashRate.Ring.{Holds, get_or-get_elem?, slot-inj}
use perfect_miner.HashRate.Minutes.{
  HashRate, add_result, is_old, tail, found, search_marks, get_hash_rate,
}

-- Of the results, with the time of the last mark: those that come five minutes or more behind it.
abbrev pub marks_from : ℕ → List Entry → List Entry
marks_from last [] = []
marks_from last ((hashes, time) ∷ results) =
    let late = leb (last + 300) time in
    let rest = marks_from (if late then time else last) results in
    if late then (hashes, time) ∷ rest else rest

abbrev pub marks : ℕ → List Entry → List Entry
marks start results = (0, start) ∷ marks_from start results

-- The `k` entries in front of the place `i`, the nearest first.
abbrev pub before : ℕ → ℕ → List Entry → List Entry
before zero i es = []
before (suc k) zero es = []
before (suc k) (suc i) es = get_or es i (0, 0) ∷ before k i es

-- For each number of minutes, in turn, the next entry that is as old.
abbrev pub old_enough : ℕ → List ℕ → List Entry → List (ℕ × Entry)
old_enough time mins [] = []
old_enough time [] (e ∷ es) = []
old_enough time (m ∷ mins) (e ∷ es) =
    let old = leb (m * 60 + e.1) time in
    let rest = old_enough time (if old then mins else m ∷ mins) es in
    if old then (m, e) ∷ rest else rest

abbrev pub add_all : List Entry → HashRate → HashRate
add_all [] h = h
add_all (r ∷ results) h = add_all results (add_result r h)

abbrev pub ring : HashRate → HashRateLast
ring h = record { index = h.min5_cursor; array = h.min5_info_data; count = h.min5_count }

old_enough_none : (time : ℕ) (es : List Entry) → old_enough time [] es ≡ []
old_enough_none time [] = refl
old_enough_none time (e ∷ es) = refl

found_lem :
    (time : ℕ) (mins : List ℕ) (e : Entry) (es : List Entry)
    → found
        (is_old time mins e)
        mins
        e
        (old_enough time (if is_old time mins e then tail mins else mins) es)
      ≡ old_enough time mins (e ∷ es)
unfolding found is_old tail
found_lem time [] e es = old_enough_none time es
found_lem time (m ∷ []) e es = elim (Bool-cases (leb (m * 60 + e.1) time)) [
  | inl old ↦ rw old (rw (old_enough_none time es))
  | inr new ↦ rw new
]
found_lem time (m ∷ n ∷ mins) e es = elim (Bool-cases (leb (m * 60 + e.1) time)) [
  | inl old ↦ rw old
  | inr new ↦ rw new
]

-- What a round makes of its entry.
abbrev round : ℕ → Option ℕ → List ℕ → HashRate → Entry → List (ℕ × Entry)
round i max_index mins h e =
    found (is_old h.time mins e) mins e
      (search_marks i max_index (if is_old h.time mins e then tail mins else mins) h)

kept_entry :
    (i : ℕ) (es : List Entry) (h : HashRate)
    → Holds es (ring h)
    → i < length es
    → length es ≤ i + h.min5_count
    → get_or h.min5_info_data (i % h.min5_count) (0, 0) ≡ get_or es i (0, 0)
kept_entry i es h k lt near =
    get_or-get_elem? h.min5_info_data es (i % h.min5_count) i (0, 0) (k.kept i lt near)

-- Behind the first round, down to the place where the ring was entered: `i` places and `k` entries
-- are left.
search_back :
    (n i k : ℕ) (mins : List ℕ) (es : List Entry) (h : HashRate)
    → Holds es (ring h)
    → length es ≡ n
    → i < n
    → i + h.min5_count ≡ k + n
    → search_marks i (some ((n - 1) % h.min5_count)) mins h ≡ old_enough h.time mins (before k i es)
unfolding search_marks
search_back n zero zero mins es h s e lt eq = refl
search_back n zero (suc k) mins es h s e lt eq = refl
search_back n (suc i) zero mins es h s e lt eq =
    let same : n - 1 ≡ i + h.min5_count = omega (arith, eq) in
    let back : ((n - 1) % h.min5_count == i % h.min5_count) ≡ true =
      ground (arith, ap (λ x. x % h.min5_count) same, add-mod_right i h.min5_count) in
    rw back
search_back n (suc i) (suc k) mins es h s e lt eq =
    let apart : ((n - 1) % h.min5_count == i % h.min5_count) ≡ false =
      ground (arith, slot-inj h.min5_count i (n - 1) s.some_slots, eq, lt) in
    rw apart (
      ap (round i (some ((n - 1) % h.min5_count)) mins h)
        (kept_entry i es h s (omega (arith, lt, e)) (omega (arith, eq, e)))
      ∙ ap (found (is_old h.time mins (get_or es i (0, 0))) mins (get_or es i (0, 0))) (
          search_back n i k (if is_old h.time mins (get_or es i (0, 0)) then tail mins else mins) es
            h s e (omega (arith, lt)) (omega (arith, eq)))
      ∙ found_lem h.time mins (get_or es i (0, 0)) (before k i es))

pub search_lem :
    (n c : ℕ) (mins : List ℕ) (es : List Entry) (h : HashRate)
    → Holds es (ring h)
    → length es ≡ suc n
    → h.min5_count ≡ suc c
    → get_hash_rate mins h ≡ old_enough h.time mins (before (suc c) (suc n) es)
unfolding get_hash_rate search_marks
search_lem n c mins es h s e full =
    ap (λ i. search_marks i none mins h) (s.counted ∙ e)
    ∙ ap (round n (some (n % h.min5_count)) mins h)
        (kept_entry n es h s (omega (arith, e)) (omega (arith, e, full)))
    ∙ ap (found (is_old h.time mins (get_or es n (0, 0))) mins (get_or es n (0, 0))) (
        ap
          (λ i.
            search_marks n (some (i % h.min5_count))
              (if is_old h.time mins (get_or es n (0, 0)) then tail mins else mins) h)
          last
        ∙ search_back (suc n) n c
            (if is_old h.time mins (get_or es n (0, 0)) then tail mins else mins) es h s e
            (omega arith) (omega (arith, full)))
    ∙ found_lem h.time mins (get_or es n (0, 0)) (before c n es)
  where
    last : n ≡ suc n - 1
    last = omega arith
