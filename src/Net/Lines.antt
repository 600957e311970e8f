-- ===== src/Net/Lines.antt =====
-- Where the lines of a text lie when it comes in two parts.
use perfect_miner.Prelude.{
  ℕ, ◌≡◌, ◌≤◌, refl, Bool, true, false, List, [], ◌∷◌, ◌++◌, arith, length, Bool-cases, inl, inr,
  ◌∙◌,
}
use perfect_miner.Prelude.Text.{Text}
use perfect_miner.Net.{is_eol, glue, lines, has_eol, rest}

pub lines-unended : (t : Text) → has_eol t ≡ false → lines t ≡ []
unfolding lines has_eol
lines-unended [] h = refl
lines-unended (c ∷ t) h = ground (arith, lines-unended t)

rest-unended : (t : Text) → has_eol t ≡ false → rest t ≡ t
unfolding rest has_eol
rest-unended [] h = refl
rest-unended (c ∷ t) h = ground (arith, rest-unended t)

pub has_eol-rest : (t : Text) → has_eol (rest t) ≡ false
unfolding rest has_eol
has_eol-rest [] = refl
has_eol-rest (c ∷ t) = ground (arith, has_eol-rest t)

pub length-rest : (t : Text) → length (rest t) ≤ length t
unfolding rest
length-rest [] = omega arith
length-rest (c ∷ t) = ground (arith, length-rest t)

abbrev is_nil : List Text → Bool
is_nil [] = true
is_nil (l ∷ ls) = false

is_nil-glue : (c : ℕ) (ls : List Text) → is_nil (glue c ls) ≡ is_nil ls
is_nil-glue c [] = refl
is_nil-glue c (l ∷ ls) = refl

lines-ended : (t : Text) → has_eol t ≡ true → is_nil (lines t) ≡ false
unfolding lines has_eol
lines-ended [] h = ground arith
lines-ended (d ∷ t) h = elim (Bool-cases (is_eol d)) [
  | inl ends ↦ rw ends refl
  | inr goes_on ↦ rw goes_on (is_nil-glue d (lines t) ∙ lines-ended t (ground arith))
]

glue-append : (c : ℕ) (ls ms : List Text) → is_nil ls ≡ false → glue c (ls ++ ms) ≡ glue c ls ++ ms
glue-append c [] ms h = ground arith
glue-append c (l ∷ ls) ms h = refl

-- The lines of two texts are those of the first and those that its rest begins.
pub lines-append : (a b : Text) → lines (a ++ b) ≡ lines a ++ lines (rest a ++ b)
unfolding lines rest
lines-append [] b = refl
lines-append (c ∷ a) b = elim (Bool-cases (is_eol c)) [
  | inl ends ↦ ground (arith, lines-append a b)
  | inr goes_on ↦ elim (Bool-cases (has_eol a)) [
    | inl later ↦ ground (
      arith,
      lines-append a b,
      glue-append c (lines a) (lines (rest a ++ b)) (lines-ended a later),
    )
    | inr never ↦ ground (arith, lines-unended a never, rest-unended a never)
  ]
]
