-- ===== src/Archive/RoundTrip.antt =====
-- The browser reads back what the server has written.
use perfect_miner.Prelude.{
  ℕ, zero, suc, ◌+◌, ◌≤◌, ◌≡◌, refl, ap, true, Option, some, List, [], ◌∷◌, ◌++◌, arith, length,
  length-append, append_assoc,
}
use perfect_miner.Prelude.Text.{Text}
use perfect_miner.Archive.{pack, cut, next_record, keep, unpack_from, unpack}
use perfect_miner.Archive.Find.{is_plain, cut_plain}

-- The marker that ends the record before.
abbrev pub tail_mark : Text
tail_mark = 0 ∷ 2 ∷ []

module _ {O : Type 0} (stringify : O → Text) (parse : Text → Option O) where
  -- What `JSON` promises: it reads back what it has printed, and prints no control character.
  pub record IsJson : Type 0 where
    pub reads_back : (o : O) → parse (stringify o) ≡ some o
    pub prints_plain : (o : O) → is_plain (stringify o) ≡ true

  -- The records as `write` appends them.
  unfoldable pub pack_all : List (Text × O) → Text
  pack_all [] = []
  pack_all ((name, obj) ∷ rs) = pack name (stringify obj) ++ pack_all rs

  abbrev pub PlainNames : List (Text × O) → Type 0
  PlainNames [] = Unit {0}
  PlainNames ((name, obj) ∷ rs) = (is_plain name ≡ true) × PlainNames rs

  next_record-pack :
      (name json rest : Text)
      → is_plain name ≡ true
      → is_plain json ≡ true
      → next_record (tail_mark ++ (pack name json ++ rest)) ≡ some (name, json, tail_mark ++ rest)
  unfolding next_record pack cut
  next_record-pack name json rest hn hj = simp append_assoc (
      rw (cut_plain 1 name (json ++ (0 ∷ 2 ∷ rest)) hn, next_record)
        (rw (cut_plain 2 json rest hj)))

  next_record-first :
      (name json rest : Text)
      → is_plain name ≡ true
      → is_plain json ≡ true
      → next_record (pack name json ++ rest) ≡ some (name, json, tail_mark ++ rest)
  unfolding next_record pack cut
  next_record-first name json rest hn hj = simp append_assoc (
      rw (cut_plain 1 name (json ++ (0 ∷ 2 ∷ rest)) hn, next_record)
        (rw (cut_plain 2 json rest hj)))

  module _ (js : IsJson) where
    pub length-pack_all :
        (name : Text) (obj : O) (rs : List (Text × O))
        → length (pack_all rs) + 6 ≤ length (pack_all ((name, obj) ∷ rs))
    unfolding pack_all pack
    length-pack_all name obj rs = omega (
      arith,
      length-append name (0 ∷ 1 ∷ (stringify obj ++ (0 ∷ 2 ∷ []))),
      length-append (stringify obj) (0 ∷ 2 ∷ []),
      length-append (0 ∷ 0 ∷ (name ++ (0 ∷ 1 ∷ (stringify obj ++ (0 ∷ 2 ∷ []))))) (pack_all rs),
    )

    pub kept :
        (name : Text) (obj : O) (out rs : List (Text × O))
        → out ≡ rs
        → keep parse name (parse (stringify obj)) out ≡ (name, obj) ∷ rs
    unfolding keep
    kept name obj out rs e = rw js.reads_back (ap (◌∷◌ (name, obj)) e)

    pub unpack_from-pack_all :
        (f : ℕ) (rs : List (Text × O))
        → PlainNames rs
        → length (tail_mark ++ pack_all rs) ≤ f
        → unpack_from parse f (tail_mark ++ pack_all rs) ≡ rs
    unfolding unpack_from pack_all
    unpack_from-pack_all zero rs h l = absurd (omega arith)
    unpack_from-pack_all (suc f) [] h l = unfold next_record cut in refl
    unpack_from-pack_all (suc f) ((name, obj) ∷ rs) h l =
        rw
          (
            next_record-pack name (stringify obj) (pack_all rs) h.0 (js.prints_plain obj),
            unpack_from,
          )
          (kept name obj _ rs
            (unpack_from-pack_all f rs h.1 (omega (arith, length-pack_all name obj rs))))

    pub unpack_from-first :
        (f : ℕ) (rs : List (Text × O))
        → PlainNames rs
        → length (pack_all rs) ≤ f
        → unpack_from parse f (pack_all rs) ≡ rs
    unfolding unpack_from pack_all
    unpack_from-first zero [] h l = refl
    unpack_from-first (suc f) [] h l = unfold next_record cut in refl
    unpack_from-first zero ((name, obj) ∷ rs) h l =
        absurd (omega (arith, length-pack_all name obj rs))
    unpack_from-first (suc f) ((name, obj) ∷ rs) h l =
        rw
          (
            next_record-first name (stringify obj) (pack_all rs) h.0 (js.prints_plain obj),
            unpack_from,
          )
          (kept name obj _ rs
            (unpack_from-pack_all f rs h.1 (omega (arith, length-pack_all name obj rs))))

    -- What was written is read back, record by record, with the names, in order, if names and JSON hold
    -- no control character that the markers use and `parse` reads what `stringify` prints.
    pub unpack-pack_all : (rs : List (Text × O)) → PlainNames rs → unpack parse (pack_all rs) ≡ rs
    unfolding unpack
    unpack-pack_all rs h = unpack_from-first (length (pack_all rs)) rs h (omega arith)
