-- ===== src/HashRate/Ring.antt =====
-- The ring holds the last entries of the history.
use perfect_miner.Prelude.{
  ℕ, zero, suc, ◌+◌, ◌-◌, ◌*◌, ◌/◌, ◌%◌, ◌≤◌, ◌<◌, ◌≡◌, ◌≢◌, refl, ap, ap₂, sym, subst, ◌∙◌, true,
  none, some, List, [], ◌∷◌, ◌++◌, arith, length, length-append, length-set, length-replicate,
  replicate, set, get_or, get_elem?, get_elem?-set_self, get_elem?-set_ne, leb, append-nil,
  append_assoc, Bool-cases, inl, inr,
}
use native.Mathlib.Decide.{dec_lt}
use native.Mathlib.Nat.{mod-lt, div-add-mod, mul-le-mul_left, mod-eq-sub-mod}
use perfect_miner.HashRate.{
  HashRateLast, Entry, add_result_job, new_hash_rate_last, max_slot, min_slot, rate_span,
}

abbrev pub add_all : List Entry → HashRateLast → HashRateLast
add_all [] h = h
add_all (e ∷ es) h = add_all es (add_result_job e h)

-- Each of the last `count` entries of the history stands in the slot of its number.
pub record Holds (es : List Entry) (h : HashRateLast) : Type 0 where
  pub some_slots : 1 ≤ h.count
  pub slots : length h.array ≡ h.count
  pub counted : h.index ≡ length es
  pub kept :
      (i : ℕ)
      → i < length es
      → length es ≤ i + h.count
      → get_elem? h.array (i % h.count) ≡ get_elem? es i

-- Numbers that differ by less than the count have slots of their own.
pub slot-inj : (c i n : ℕ) → 1 ≤ c → i ≤ n → n < i + c → i % c ≡ n % c → i ≡ n
slot-inj c i n h l u e = elim (dec_lt (i / c) (n / c)) [
  | yes later ↦
      let rise : c * (i / c + 1) ≤ c * (n / c) = mul-le-mul_left c (omega (arith, later)) in
      absurd (omega (arith, rise, mul_add_one, div-add-mod n c, div-add-mod i c))
  | no same ↦
      let fall : c * (n / c) ≤ c * (i / c) = mul-le-mul_left c (omega (arith, same)) in
      omega (arith, fall, div-add-mod n c, div-add-mod i c)
]
  where
    mul_add_one : c * (i / c + 1) ≡ c * (i / c) + c
    mul_add_one = omega arith

get_elem?-append_left :
    (xs : List Entry) (e : Entry) (i : ℕ)
    → i < length xs
    → get_elem? (xs ++ e ∷ []) i ≡ get_elem? xs i
get_elem?-append_left [] e i h = absurd (omega (arith, h))
get_elem?-append_left (x ∷ xs) e zero h = refl
get_elem?-append_left (x ∷ xs) e (suc i) h = get_elem?-append_left xs e i (omega (arith, h))

get_elem?-append_self :
    (xs : List Entry) (e : Entry) → get_elem? (xs ++ e ∷ []) (length xs) ≡ some e
get_elem?-append_self [] e = refl
get_elem?-append_self (x ∷ xs) e = get_elem?-append_self xs e

pub get_or-get_elem? :
    (xs ys : List Entry) (i j : ℕ) (d : Entry)
    → get_elem? xs i ≡ get_elem? ys j
    → get_or xs i d ≡ get_or ys j d
get_or-get_elem? xs ys i j d e =
    read xs i ∙ ap (λ o. elim o as (λ _. Entry) [ none ↦ d | some x ↦ x ]) e ∙ sym (read ys j)
  where
    read :
        (zs : List Entry) (k : ℕ)
        → get_or zs k d ≡ elim (get_elem? zs k) as (λ _. Entry) [ none ↦ d | some x ↦ x ]
    read [] k = refl
    read (z ∷ zs) zero = refl
    read (z ∷ zs) (suc k) = read zs k

pub add_result_job-Holds :
    (e : Entry) (es : List Entry) (h : HashRateLast)
    → Holds es h
    → Holds (es ++ e ∷ []) (add_result_job e h)
unfolding add_result_job
add_result_job-Holds e es h k = record {
  some_slots = k.some_slots;
  slots = omega (arith, length-set h.array (h.index % h.count) e, k.slots);
  counted = omega (arith, length-append es (e ∷ []), k.counted);
  kept = λ i lt near. elim (dec_lt i (length es)) [
    | yes old ↦
        let other : h.index % h.count ≢ i % h.count = λ eq.
          let same : i ≡ h.index =
            slot-inj h.count i h.index k.some_slots (omega (arith, old, k.counted))
              (omega (arith, near, k.counted, length-append es (e ∷ []))) (sym eq) in
          absurd (omega (arith, same, old, k.counted)) in
        get_elem?-set_ne h.array e other
        ∙ k.kept i old (omega (arith, near, length-append es (e ∷ [])))
        ∙ sym (get_elem?-append_left es e i old)
    | no new ↦
        let last : i ≡ length es = omega (arith, lt, new, length-append es (e ∷ [])) in
        let here : i ≡ h.index = last ∙ sym k.counted in
        let fits : h.index % h.count < length h.array =
          omega (arith, mod-lt h.index {m = h.count} k.some_slots, k.slots) in
        ap (λ j. get_elem? (set h.array (h.index % h.count) e) (j % h.count)) here
        ∙ get_elem?-set_self h.array (h.index % h.count) e fits
        ∙ sym (get_elem?-append_self es e)
        ∙ ap (get_elem? (es ++ e ∷ [])) (sym last)
  ];
}

add_all-Holds :
    (es before : List Entry) (h : HashRateLast)
    → Holds before h
    → Holds (before ++ es) (add_all es h)
add_all-Holds [] before h k = subst (λ xs. Holds xs h) (sym (append-nil before)) k
add_all-Holds (e ∷ es) before h k =
    subst (λ xs. Holds xs (add_all (e ∷ es) h)) (append_assoc before (e ∷ []) es)
      (add_all-Holds es (before ++ e ∷ []) (add_result_job e h) (add_result_job-Holds e before h k))

pub new_hash_rate_last-Holds :
    (count now : ℕ) → 1 ≤ count → Holds ((0, now) ∷ []) (new_hash_rate_last count now)
unfolding new_hash_rate_last
new_hash_rate_last-Holds count now h =
    add_result_job-Holds (0, now) []
      (record { index = 0; array = replicate count (0, 0); count = count })
      (record {
        some_slots = h;
        slots = length-replicate count (0, 0);
        counted = refl;
        kept = λ i lt near. absurd (omega (arith, lt));
      })

add_all-count : (es : List Entry) (h : HashRateLast) → (add_all es h).count ≡ h.count
unfolding add_result_job
add_all-count [] h = refl
add_all-count (e ∷ es) h = add_all-count es (add_result_job e h)

rate_span-Holds :
    (es : List Entry) (h : HashRateLast)
    → Holds es h
    → 2 ≤ length es
    → rate_span h ≡ some (get_or es (length es - h.count) (0, 0), get_or es (length es - 1) (0, 0))
unfolding rate_span min_slot max_slot
rate_span-Holds es h k l =
    let enough : leb 2 h.index ≡ true = ground (arith, l, k.counted) in
    rw enough (ap₂ (λ x y. some (x, y)) oldest newest)
  where
    newest : get_or h.array (max_slot h) (0, 0) ≡ get_or es (length es - 1) (0, 0)
    newest =
        ap (λ i. get_or h.array ((i - 1) % h.count) (0, 0)) k.counted
        ∙ get_or-get_elem? h.array es ((length es - 1) % h.count) (length es - 1) (0, 0)
            (k.kept (length es - 1) (omega (arith, l)) (omega (arith, k.some_slots)))

    -- The slot that is written next is that of the oldest entry.
    slot : min_slot h ≡ (length es - h.count) % h.count
    slot = elim (Bool-cases (leb h.count (h.index - 1))) [
      | inl full ↦
          let past : h.index - 1 + 1 ≡ length es = omega (arith, k.counted, l) in
          let room : h.count ≤ length es = ground (arith, full, k.counted) in
          rw full (ap (λ i. i % h.count) past ∙ mod-eq-sub-mod room)
      | inr part ↦
          let first : 0 ≡ length es - h.count = ground (arith, part, k.counted, l) in
          rw part (ap (λ i. i % h.count) first)
    ]

    oldest : get_or h.array (min_slot h) (0, 0) ≡ get_or es (length es - h.count) (0, 0)
    oldest =
        ap (λ i. get_or h.array i (0, 0)) slot
        ∙ get_or-get_elem? h.array es ((length es - h.count) % h.count) (length es - h.count) (0, 0)
            (k.kept (length es - h.count) (omega (arith, l, k.some_slots)) (omega arith))

-- The rate is taken between the newest result and the oldest of the last `count` (of all, where there
-- are fewer), the start of the measurement counted as the first result.
pub rate_span_lem :
    (count now : ℕ) (es : List Entry)
    → 1 ≤ count
    → 1 ≤ length es
    → let all = (0, now) ∷ es in
      rate_span (add_all es (new_hash_rate_last count now))
      ≡ some (get_or all (length all - count) (0, 0), get_or all (length all - 1) (0, 0))
unfolding new_hash_rate_last add_result_job
rate_span_lem count now es h l =
    rate_span-Holds ((0, now) ∷ es) ring
      (add_all-Holds es _ _ (new_hash_rate_last-Holds count now h)) (omega (arith, l))
    ∙ ap
        (λ c. some (
          get_or ((0, now) ∷ es) (suc (length es) - c) (0, 0),
          get_or ((0, now) ∷ es) (suc (length es) - 1) (0, 0),
        ))
        ring_count
  where
    ring : HashRateLast
    ring = add_all es (new_hash_rate_last count now)

    ring_count : ring.count ≡ count
    ring_count = add_all-count es (new_hash_rate_last count now)
