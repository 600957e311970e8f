-- ===== src/Archive/Truncate.antt =====
-- An archive that was cut at any place still yields the records behind the cut.
use native.Mathlib.Decide.{dec_lt}
use perfect_miner.Prelude.{
  ℕ, zero, suc, ◌-◌, ◌≤◌, ◌<◌, ◌≡◌, ◌≢◌, refl, ap, ◌∙◌, sym, Bool, true, false, ◌&&◌, Option, none,
  some, List, [], ◌∷◌, ◌++◌, arith, length, length-append, append_assoc, drop, drop-append_le,
  drop-append_ge, ◌==◌, if◌then◌else◌, append-nil,
}
use perfect_miner.Prelude.Text.{Text}
use perfect_miner.Archive.{pack, cut, next_record, unpack_from, unpack}
use perfect_miner.Archive.Find.{is_plain, cut_plain}
use perfect_miner.Archive.RoundTrip.{
  IsJson, pack_all, PlainNames, tail_mark, kept, length-pack_all, unpack_from-pack_all,
  unpack-pack_all,
}

-- No two NULs in a row, and none at the end.
is_clean : Text → Bool
is_clean [] = true
is_clean (x ∷ []) = if x == 0 then false else true
is_clean (x ∷ y ∷ s) = let rest = is_clean (y ∷ s) in if (x == 0) && (y == 0) then false else rest

-- Such a text in front does not hide the next start marker.
cut_clean : (s t : Text) → is_clean s ≡ true → cut 0 (s ++ (0 ∷ 0 ∷ t)) ≡ some (s, t)
unfolding cut is_clean
cut_clean [] t h = refl
cut_clean (x ∷ []) t h = ground arith
cut_clean (x ∷ y ∷ s) t h = ground (arith, cut_clean (y ∷ s) t)

cut_clean-none : (s : Text) → is_clean s ≡ true → cut 0 s ≡ none
unfolding cut is_clean
cut_clean-none [] h = refl
cut_clean-none (x ∷ []) h = refl
cut_clean-none (x ∷ y ∷ s) h = ground (arith, cut_clean-none (y ∷ s))

-- What is left of a record once its first character is gone.
plain-clean :
    (s t : Text) → is_plain s ≡ true → is_clean (0 ∷ t) ≡ true → is_clean (s ++ (0 ∷ t)) ≡ true
unfolding is_clean is_plain
plain-clean [] t h k = k
plain-clean (x ∷ []) t h k = ground arith
plain-clean (x ∷ y ∷ s) t h k = ground (arith, plain-clean (y ∷ s) t)

drop-clean : (n : ℕ) (s : Text) → is_clean s ≡ true → is_clean (drop n s) ≡ true
unfolding is_clean
drop-clean zero s h = h
drop-clean (suc n) [] h = h
drop-clean (suc n) (x ∷ []) h = drop-clean n [] refl
drop-clean (suc n) (x ∷ y ∷ s) h = drop-clean n (y ∷ s) (ground arith)

abbrev pub IsNamed : {O : Type 0} → List (Text × O) → Type 0
IsNamed [] = Unit {0}
IsNamed ((name, obj) ∷ rs) = (name ≢ []) × IsNamed rs

-- A record without its first character.
pack_tail-clean :
    (name json : Text)
    → is_plain name ≡ true
    → name ≢ []
    → is_plain json ≡ true
    → is_clean (0 ∷ (name ++ (0 ∷ 1 ∷ (json ++ (0 ∷ 2 ∷ []))))) ≡ true
unfolding is_clean is_plain
pack_tail-clean [] json h ne k = absurd (ne refl)
pack_tail-clean (x ∷ name) json h ne k =
    ground
      (arith, plain-clean (x ∷ name) (1 ∷ (json ++ (0 ∷ 2 ∷ []))), plain-clean (1 ∷ json) (2 ∷ []))

-- The records from this number on.
abbrev pub later {ℓ} : {A : Type ℓ} → ℕ → List A → List A
later = drop

module _ {O : Type 0} (stringify : O → Text) (parse : Text → Option O)
    (js : IsJson stringify parse) where
  abbrev all : List (Text × O) → Text
  all = pack_all stringify parse

  next_record-clean :
      (s name json rest : Text)
      → is_clean s ≡ true
      → is_plain name ≡ true
      → is_plain json ≡ true
      → next_record (s ++ (pack name json ++ rest)) ≡ some (name, json, tail_mark ++ rest)
  unfolding next_record pack
  next_record-clean s name json rest hs hn hj = simp append_assoc (
      rw (cut_clean s (name ++ (0 ∷ 1 ∷ (json ++ (0 ∷ 2 ∷ rest)))) hs, next_record)
        (rw (cut_plain 1 name (json ++ (0 ∷ 2 ∷ rest)) hn) (rw (cut_plain 2 json rest hj))))

  unpack_from-clean :
      (f : ℕ) (s : Text) (rs : List (Text × O))
      → is_clean s ≡ true
      → PlainNames stringify parse rs
      → length (s ++ all rs) ≤ f
      → unpack_from parse f (s ++ all rs) ≡ rs
  unfolding unpack_from pack_all
  unpack_from-clean zero s [] hs h l = refl
  unpack_from-clean (suc f) s [] hs h l =
      rw append-nil (unfold next_record in rw (cut_clean-none s hs, unpack_from))
  unpack_from-clean zero s ((name, obj) ∷ rs) hs h l = absurd (
      omega (
        arith,
        length-pack_all stringify parse js name obj rs,
        length-append s (all ((name, obj) ∷ rs)),
      ))
  unpack_from-clean (suc f) s ((name, obj) ∷ rs) hs h l =
      rw
        (
          next_record-clean s name (stringify obj) (all rs) hs h.0 (js.prints_plain obj),
          unpack_from,
        )
        (kept stringify parse js name obj _ rs (
          unpack_from-pack_all stringify parse js f rs h.1 (
            omega (
              arith,
              length-pack_all stringify parse js name obj rs,
              length-append s (all ((name, obj) ∷ rs)),
            ))))

  unpack-clean :
      (s : Text) (rs : List (Text × O))
      → is_clean s ≡ true
      → PlainNames stringify parse rs
      → unpack parse (s ++ all rs) ≡ rs
  unfolding unpack
  unpack-clean s rs hs h = unpack_from-clean (length (s ++ all rs)) s rs hs h (omega arith)

  -- Inside a record the cut loses that record alone.
  unpack-inside :
      (d : ℕ) (name : Text) (obj : O) (rs : List (Text × O))
      → d < length (pack name (stringify obj))
      → PlainNames stringify parse ((name, obj) ∷ rs)
      → name ≢ []
      → unpack parse (drop (suc d) (pack name (stringify obj)) ++ all rs) ≡ rs
  unfolding pack
  unpack-inside d name obj rs l h ne =
      unpack-clean _ rs
        (drop-clean d _ (pack_tail-clean name (stringify obj) h.0 ne (js.prints_plain obj))) h.1

  -- How many records begin before this place.
  unfoldable pub begun : ℕ → List (Text × O) → ℕ
  begun d [] = 0
  begun zero (r ∷ rs) = 0
  begun (suc d) ((name, obj) ∷ rs) = suc (begun (suc d - length (pack name (stringify obj))) rs)

  begun_inside : (rs : List (Text × O)) → begun 0 rs ≡ 0
  unfolding begun
  begun_inside [] = refl
  begun_inside (r ∷ rs) = refl

  -- Cut at any place, the archive yields exactly the records that begin at the place or behind it, if
  -- the names are not empty, names and JSON hold no control character that the markers use, and
  -- `parse` reads what `stringify` prints.
  pub unpack-drop :
      (d : ℕ) (rs : List (Text × O))
      → PlainNames stringify parse rs
      → IsNamed rs
      → unpack parse (drop d (all rs)) ≡ later (begun d rs) rs
  unfolding pack_all begun
  unpack-drop zero [] h ne = unfold unpack unpack_from in refl
  unpack-drop zero ((name, obj) ∷ rs) h ne = unpack-pack_all stringify parse js ((name, obj) ∷ rs) h
  unpack-drop (suc d) [] h ne = unfold unpack unpack_from in refl
  unpack-drop (suc d) ((name, obj) ∷ rs) h ne =
      elim (dec_lt d (length (pack name (stringify obj)))) [
        | yes inside ↦
            let e : suc d - length (pack name (stringify obj)) ≡ 0 = omega arith in
            ap (unpack parse) (drop-append_le (suc d) (pack name (stringify obj)) (all rs) inside)
            ∙ unpack-inside d name obj rs inside h ne.0
            ∙ sym (ap (λ k. later k rs) (ap (λ m. begun m rs) e ∙ begun_inside rs))
        | no outside ↦
            ap (unpack parse)
              (drop-append_ge (suc d) (pack name (stringify obj)) (all rs) (omega arith))
            ∙ unpack-drop (suc d - length (pack name (stringify obj))) rs h.1 ne.1
      ]
