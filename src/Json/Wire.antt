-- ===== src/Json/Wire.antt =====
-- What `JSON.parse` makes of the text that `JSON.stringify` has printed of a value, as the language
-- defines it: no text holds `undefined`, NaN, an infinity or the sign of a zero.
use perfect_miner.Prelude.{◌≡◌, refl, ap, ap₂, sym, true, Bool-cases, inl, inr, if◌then◌else◌}
use perfect_miner.Prelude.Floats.{Floats}
use perfect_miner.Json.{
  Value, undefined, null, boolean, number, string, array, object, Values, nil, cons, Fields, end,
  field,
}

module _ (fl : Floats) where
  open fl use {F, of_ℕ, is_zero, is_finite}

  unfoldable mutual
    pub reread : Value F → Value F
    reread undefined = null
    reread null = null
    reread (boolean b) = boolean b
    reread (number x) =
        if is_zero x then number (of_ℕ 0) else if is_finite x then number x else null
    reread (string s) = string s
    reread (array vs) = array (reread_all vs)
    reread (object fs) = object (reread_fields fs)

    pub reread_all : Values F → Values F
    reread_all nil = nil
    reread_all (cons v vs) = cons (reread v) (reread_all vs)

    pub reread_fields : Fields F → Fields F
    reread_fields end = end
    reread_fields (field name undefined fs) = reread_fields fs
    reread_fields (field name null fs) = field name null (reread_fields fs)
    reread_fields (field name (boolean b) fs) = field name (boolean b) (reread_fields fs)
    reread_fields (field name (number x) fs) = field name (reread (number x)) (reread_fields fs)
    reread_fields (field name (string s) fs) = field name (string s) (reread_fields fs)
    reread_fields (field name (array vs) fs) = field name (array (reread_all vs)) (reread_fields fs)
    reread_fields (field name (object gs) fs) =
        field name (object (reread_fields gs)) (reread_fields fs)

  mutual
    pub IsPrintable : Value F → Type 0
    IsPrintable undefined = ⊥
    IsPrintable null = Unit
    IsPrintable (boolean b) = Unit
    IsPrintable (number x) = (is_finite x ≡ true) × (is_zero x ≡ true → x ≡ of_ℕ 0)
    IsPrintable (string s) = Unit
    IsPrintable (array vs) = AllPrintable vs
    IsPrintable (object fs) = FieldsPrintable fs

    pub AllPrintable : Values F → Type 0
    AllPrintable nil = Unit
    AllPrintable (cons v vs) = IsPrintable v × AllPrintable vs

    pub FieldsPrintable : Fields F → Type 0
    FieldsPrintable end = Unit
    FieldsPrintable (field name v fs) = IsPrintable v × FieldsPrintable fs

  printable_number :
      (x : F)
      → (is_finite x ≡ true) × (is_zero x ≡ true → x ≡ of_ℕ 0)
      → reread (number x) ≡ number x
  unfolding reread
  printable_number x (finite, zero_is) = elim (Bool-cases (is_zero x)) [
    | inl e ↦ rw e (ap number (sym (zero_is e)))
    | inr e ↦ rw e (rw finite refl)
  ]

  mutual
    unfolding reread reread_all reread_fields IsPrintable

    reread-same : (v : Value F) → IsPrintable v → reread v ≡ v
    reread-same undefined p = absurd p
    reread-same null p = refl
    reread-same (boolean b) p = refl
    reread-same (number x) p = printable_number x p
    reread-same (string s) p = refl
    reread-same (array vs) p = ap array (reread_all-same vs p)
    reread-same (object fs) p = ap object (reread_fields-same fs p)

    pub reread_all-same : (vs : Values F) → AllPrintable vs → reread_all vs ≡ vs
    reread_all-same nil p = refl
    reread_all-same (cons v vs) (p, q) = ap₂ cons (reread-same v p) (reread_all-same vs q)

    reread_fields-same : (fs : Fields F) → FieldsPrintable fs → reread_fields fs ≡ fs
    reread_fields-same end p = refl
    reread_fields-same (field name undefined fs) (p, q) = absurd p
    reread_fields-same (field name null fs) (p, q) = ap (field name null) (reread_fields-same fs q)
    reread_fields-same (field name (boolean b) fs) (p, q) =
        ap (field name (boolean b)) (reread_fields-same fs q)
    reread_fields-same (field name (number x) fs) (p, q) =
        ap₂ (field name) (printable_number x p) (reread_fields-same fs q)
    reread_fields-same (field name (string s) fs) (p, q) =
        ap (field name (string s)) (reread_fields-same fs q)
    reread_fields-same (field name (array vs) fs) (p, q) =
        ap₂ (λ us. field name (array us)) (reread_all-same vs p) (reread_fields-same fs q)
    reread_fields-same (field name (object gs) fs) (p, q) =
        ap₂ (λ hs. field name (object hs)) (reread_fields-same gs p) (reread_fields-same fs q)
