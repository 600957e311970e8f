-- ===== src/WebWorkers/Ranking.antt =====
-- The order that the self test of ControlServer/WebControlWorkers.js brings the measured programs in.
use mathlib.Core.List.{Perm}
use mathlib.Core.List.Perm
use perfect_miner.Prelude.{
  ◌≡◌, refl, ap, sym, ◌∙◌, Bool, true, false, List, [], ◌∷◌, if◌then◌else◌, Bool-cases, inl, inr,
}
use perfect_miner.Prelude.Floats.{Floats}
use perfect_miner.WebWorkers.{Measured, insert_sorted, sort_measured}

-- No double is both below and above another.
abbrev pub IsAsymmetric : Floats → Type 0
IsAsymmetric fl = (a b : fl.F) → fl.lt a b ≡ true → fl.lt b a ≡ false

module _ (fl : Floats) where
  open fl use {F, lt}

  abbrev pub faster : Measured F → Measured F → Bool
  faster m n = lt m.min_delta_micro_sec_hash n.min_delta_micro_sec_hash

  -- No program is faster than the one before it.
  pub IsRanked : List (Measured F) → Type 0
  IsRanked [] = Unit
  IsRanked (m ∷ []) = Unit
  IsRanked (m ∷ n ∷ ms) = (faster n m ≡ false) × IsRanked (n ∷ ms)

  abbrev pub those : (Measured F → Bool) → List (Measured F) → List (Measured F)
  those q [] = []
  those q (m ∷ ms) = if q m then m ∷ those q ms else those q ms

  -- Programs of which none is faster than another stand in the same order in both lists.
  abbrev pub KeepsTies : List (Measured F) → List (Measured F) → Type 0
  KeepsTies ms ns =
      (q : Measured F → Bool)
      → ((a b : Measured F) → q a ≡ true → q b ≡ true → faster a b ≡ false)
      → those q ms ≡ those q ns

  tail-IsRanked : (n : Measured F) (ms : List (Measured F)) → IsRanked (n ∷ ms) → IsRanked ms
  unfolding IsRanked
  tail-IsRanked n [] r = tt
  tail-IsRanked n (p ∷ ms) r = r.1

  behind :
      (n m : Measured F) (ms : List (Measured F))
      → faster m n ≡ false
      → IsRanked (n ∷ ms)
      → IsRanked (insert_sorted fl m ms)
      → IsRanked (n ∷ insert_sorted fl m ms)
  unfolding IsRanked insert_sorted
  behind n m [] h r s = (h, tt)
  behind n m (p ∷ ms) h r s = elim (Bool-cases (faster p m)) [
    | inl e ↦ rw e (r.0, ap_ranked e s)
    | inr e ↦ rw e (h, ap_ranked e s)
  ]
    where
      ap_ranked :
          {b : Bool}
          → faster p m ≡ b
          → IsRanked (if faster p m then p ∷ insert_sorted fl m ms else m ∷ p ∷ ms)
          → IsRanked (if b then p ∷ insert_sorted fl m ms else m ∷ p ∷ ms)
      ap_ranked e s = rw (sym e) s

  insert_sorted-IsRanked :
      IsAsymmetric fl
      → (m : Measured F) (ms : List (Measured F)) → IsRanked ms
      → IsRanked (insert_sorted fl m ms)
  unfolding IsRanked insert_sorted
  insert_sorted-IsRanked asym m [] r = tt
  insert_sorted-IsRanked asym m (n ∷ ms) r = elim (Bool-cases (faster n m)) [
    | inl e ↦
        rw e
          (behind n m ms (asym _ _ e) r (insert_sorted-IsRanked asym m ms (tail-IsRanked n ms r)))
    | inr e ↦ rw e (e, r)
  ]

  pub sort_measured-IsRanked :
      IsAsymmetric fl → (ms : List (Measured F)) → IsRanked (sort_measured fl ms)
  unfolding IsRanked sort_measured
  sort_measured-IsRanked asym [] = tt
  sort_measured-IsRanked asym (m ∷ ms) =
      insert_sorted-IsRanked asym m (sort_measured fl ms) (sort_measured-IsRanked asym ms)

  insert_sorted-those :
      (q : Measured F → Bool)
      → ((a b : Measured F) → q a ≡ true → q b ≡ true → faster a b ≡ false)
      → (m : Measured F) (ms : List (Measured F))
      → those q (insert_sorted fl m ms) ≡ those q (m ∷ ms)
  unfolding insert_sorted
  insert_sorted-those q h m [] = refl
  insert_sorted-those q h m (n ∷ ms) =
      let rest = insert_sorted-those q h m ms in
      elim (Bool-cases (faster n m)) [
        | inr e ↦ rw e refl
        | inl e ↦ elim (Bool-cases (q n)) [
          | inr f ↦ rw e (rw f rest)
          | inl f ↦ elim (Bool-cases (q m)) [
            | inl g ↦ let no : faster n m ≡ false = h n m f g in absurd (cc)
            | inr g ↦ rw (e, f, g) (ap (λ l. n ∷ l) (rest ∙ unmet g))
          ]
        ]
      ]
    where
      unmet : q m ≡ false → those q (m ∷ ms) ≡ those q ms
      unmet g = rw g refl

  pub sort_measured-ties : (ms : List (Measured F)) → KeepsTies (sort_measured fl ms) ms
  unfolding sort_measured
  sort_measured-ties [] q h = refl
  sort_measured-ties (m ∷ ms) q h =
      insert_sorted-those q h m (sort_measured fl ms)
      ∙ ap (λ l. if q m then m ∷ l else l) (sort_measured-ties ms q h)

  insert_sorted-Perm :
      (m : Measured F) (ms : List (Measured F)) → Perm (insert_sorted fl m ms) (m ∷ ms)
  unfolding insert_sorted
  insert_sorted-Perm m [] = Perm.refl _
  insert_sorted-Perm m (n ∷ ms) = elim (Bool-cases (faster n m)) [
    | inl e ↦ rw e (Perm.trans (Perm.cons n (insert_sorted-Perm m ms)) (Perm.swap m n ms))
    | inr e ↦ rw e (Perm.refl _)
  ]

  pub sort_measured-Perm : (ms : List (Measured F)) → Perm (sort_measured fl ms) ms
  unfolding sort_measured
  sort_measured-Perm [] = Perm.refl _
  sort_measured-Perm (m ∷ ms) =
      Perm.trans (insert_sorted-Perm m (sort_measured fl ms)) (Perm.cons m (sort_measured-Perm ms))
