-- ===== src/Archive/Find.antt =====
-- What `cut` finds, and that a round of the loop shortens the text.
use mathlib.Core.Option
use perfect_miner.Prelude.{
  ℕ, zero, suc, ◌+◌, ◌≤◌, ◌≡◌, refl, ap, subst, Bool, true, false, ◌&&◌, Option, none, some, [],
  ◌∷◌, ◌++◌, arith, length, inl, inr, Bool-cases, Option-cases, ◌==◌, if◌then◌else◌,
}
use perfect_miner.Prelude.Text.{Text}
use perfect_miner.Archive.{cut, next_record, keep, unpack_from}

-- No NUL in it.
unfoldable pub is_plain : Text → Bool
is_plain [] = true
is_plain (x ∷ s) = if x == 0 then false else is_plain s

pub cut_plain : (m : ℕ) (s t : Text) → is_plain s ≡ true → cut m (s ++ (0 ∷ m ∷ t)) ≡ some (s, t)
unfolding cut is_plain
cut_plain m [] t h = ground arith
cut_plain m (x ∷ []) t h = ground arith
cut_plain m (x ∷ y ∷ s) t h = ground (arith, cut_plain m (y ∷ s) t)

-- The two parts and the marker make up the text.
abbrev pub Splits : Text → Option (Text × Text) → Type 0
Splits s none = Unit {0}
Splits s (some r) = length r.0 + length r.1 + 2 ≡ length s

map-Splits :
    (x : ℕ) (s : Text) (o : Option (Text × Text))
    → Splits s o
    → Splits (x ∷ s) (Option.map (λ r. (x ∷ r.0, r.1)) o)
map-Splits x s none h = tt
map-Splits x s (some r) h = omega arith

pub cut-Splits : (m : ℕ) (s : Text) → Splits s (cut m s)
unfolding cut
cut-Splits m [] = tt
cut-Splits m (x ∷ []) = tt
cut-Splits m (x ∷ y ∷ s) = elim (Bool-cases ((x == 0) && (y == m))) [
  | inl hit ↦ rw hit (omega arith)
  | inr miss ↦ rw miss (map-Splits x (y ∷ s) (cut m (y ∷ s)) (cut-Splits m (y ∷ s)))
]

abbrev pub Shortens : Text → Option (Text × Text × Text) → Type 0
Shortens s none = Unit {0}
Shortens s (some r) = length r.2 + 4 ≤ length s

pub next_record-Shortens : (s : Text) → Shortens s (next_record s)
unfolding next_record
next_record-Shortens s = elim (Option-cases (cut 0 s)) [
  | inl e ↦ rw (e, next_record) tt
  | inr (r, e) ↦ elim (Option-cases (cut 1 r.1)) [
    | inl e1 ↦ rw (e, next_record) (rw (e1) tt)
    | inr (r1, e1) ↦ elim (Option-cases (cut 2 r1.1)) [
      | inl e2 ↦ rw (e, next_record) (rw e1 (rw e2 tt))
      | inr (r2, e2) ↦
          rw (e, next_record)
            (rw e1 (
              rw e2 (
                omega (
                  arith,
                  subst (Splits s) e (cut-Splits 0 s),
                  subst (Splits r.1) e1 (cut-Splits 1 r.1),
                  subst (Splits r1.1) e2 (cut-Splits 2 r1.1),
                ))))
    ]
  ]
]

next_record_empty : (s : Text) → length s ≤ 0 → next_record s ≡ none
unfolding next_record cut
next_record_empty [] h = refl
next_record_empty (x ∷ s) h = absurd (omega arith)

module _ {O : Type 0} (parse : Text → Option O) where
  -- More fuel than the text is long changes nothing.
  pub unpack_from-enough :
      (f g : ℕ) (s : Text)
      → length s ≤ f
      → length s ≤ g
      → unpack_from parse f s ≡ unpack_from parse g s
  unfolding unpack_from
  unpack_from-enough zero zero s hf hg = refl
  unpack_from-enough zero (suc g) s hf hg = rw (next_record_empty s hf, unpack_from)
  unpack_from-enough (suc f) zero s hf hg = rw (next_record_empty s hg, unpack_from)
  unpack_from-enough (suc f) (suc g) s hf hg = elim (Option-cases (next_record s)) [
    | inl e ↦ rw (e, unpack_from)
    | inr ((name, json, rest), e) ↦
        rw (e, unpack_from)
          (ap (keep parse name (parse json)) (
            unpack_from-enough f g rest (omega (arith, shorter s name json rest e))
              (omega (arith, shorter s name json rest e))))
  ]
    where
      shorter :
          (s name json rest : Text)
          → next_record s ≡ some (name, json, rest)
          → length rest + 4 ≤ length s
      shorter s name json rest e = subst (Shortens s) e (next_record-Shortens s)
