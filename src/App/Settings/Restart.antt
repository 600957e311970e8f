-- ===== src/App/Settings/Restart.antt =====
-- A program that starts again finds its settings.
use perfect_miner.Prelude.{
  ◌≡◌, refl, sym, ap, subst, ◌∙◌, Bool, true, false, Bool-cases, Option-cases, inl, inr, Option,
  none, some, length, if◌then◌else◌, arith,
}
use perfect_miner.Prelude.Text.{Text, codes, text_eq, text_eq_sound}
use mathlib.Core.Path.{fun_ext}
use perfect_miner.App.Settings.{
  Object, Outside, assign, copy_all, has_id, init_data, load_parsed, load, Settings, save,
  add_machine, first_values, new_settings, set_options,
}

-- A text of 64 characters, as an id.
abbrev pub IsId : Outside → Text → Type 0
IsId o t = (length t ≡ 64) × (o.to_string (some (o.text t)) ≡ t)

-- The names that the program itself gives to values.
pub data Own : Text → Type 0 where
  own_options : Own (codes "options")
  own_id : Own (codes "id")
  own_os : Own (codes "os")
  own_x86 : Own (codes "worker_x86_list")
  own_x64 : Own (codes "worker_x64_list")

-- JSON: which objects it can hold, that it reads back such an object from the text that it prints, and
-- that what it reads, an object without names, a value more under a name of the program, and an object
-- with the values of another copied onto it, are such objects.
pub record Json (o : Outside) : Type 1 where
  pub IsJson : Object o.V → Type 0
  pub back : (d : Object o.V) → IsJson d → o.parse (o.stringify d) ≡ some d
  pub read : (file : o.File) (d : Object o.V) → o.parse file ≡ some d → IsJson d
  pub bare : IsJson (λ _. none)
  pub assigned : (k : Text) (v : o.V) (d : Object o.V) → Own k → IsJson d → IsJson (assign o k v d)
  pub copied : (d e : Object o.V) → IsJson d → IsJson e → IsJson (copy_all o d e)

module _ (o : Outside) (json : Json o) (undefined_text : o.to_string none ≡ codes "undefined") where
  open o use {V, File, parse, stringify, to_string, text}
  open json use {IsJson, back, read, bare, assigned, copied}

  -- The machine's values stand in the object.
  abbrev HasMachine : Object V → Type 0
  HasMachine d =
      (d (codes "os") ≡ some o.os)
      × (d (codes "worker_x86_list") ≡ some o.worker_x86_list)
      × (d (codes "worker_x64_list") ≡ some o.worker_x64_list)

  -- All that a program knows from its start on.
  record IsFull (d : Object V) : Type 0 where
    machine : HasMachine d
    identified : has_id o d ≡ true
    id : (v : V) × (d (codes "id") ≡ some v)
    options : (v : V) × (d (codes "options") ≡ some v)
    printable : IsJson d

  init_data_kept : (a : Text) (d : Object V) → has_id o d ≡ true → init_data o a d ≡ d
  unfolding init_data
  init_data_kept a d h = rw h

  init_data_new :
      (a : Text) (d : Object V)
      → has_id o d ≡ false
      → init_data o a d ≡ assign o (codes "id") (text a) d
  unfolding init_data
  init_data_new a d h = rw h

  assign_same : (k : Text) (v : V) (d : Object V) → d k ≡ some v → assign o k v d ≡ d
  unfolding assign
  assign_same k v d e = fun_ext (λ j. at j (text_eq j k) refl)
    where
      at : (j : Text) (b : Bool) → text_eq j k ≡ b → (if text_eq j k then some v else d j) ≡ d j
      at j true same = rw same (sym (ap d (text_eq_sound j k same) ∙ e))
      at j false other = rw other

  assign_id-has_id :
      (a : Text) (d : Object V) → IsId o a → has_id o (assign o (codes "id") (text a) d) ≡ true
  unfolding has_id assign text_eq
  assign_id-has_id a d (l, e) = ground (arith, ap length e)

  init-has_id : (a : Text) (d : Object V) → IsId o a → has_id o (init_data o a d) ≡ true
  init-has_id a d h = elim (Bool-cases (has_id o d)) [
    | inl e ↦ ap (has_id o) (init_data_kept a d e) ∙ e
    | inr e ↦ ap (has_id o) (init_data_new a d e) ∙ assign_id-has_id a d h
  ]

  -- At first there are the options and an id, at most.
  first_none :
      (a j : Text)
      → text_eq j (codes "options") ≡ false
      → text_eq j (codes "id") ≡ false
      → first_values o a j ≡ none
  unfolding first_values
  first_none a j p q =
      elim (Bool-cases (has_id o (assign o (codes "options") o.default_options (λ _. none)))) [
        | inl e ↦ ap (λ (d : Object V). d j) (init_data_kept a _ e) ∙ only_options
        | inr e ↦ ap (λ (d : Object V). d j) (init_data_new a _ e) ∙ other ∙ only_options
      ]
    where
      only_options : assign o (codes "options") o.default_options (λ _. none) j ≡ none
      only_options = unfold assign in (rw p)

      other :
          assign o
            (codes "id")
            (text a)
            (assign o (codes "options") o.default_options (λ _. none))
            j
          ≡ assign o (codes "options") o.default_options (λ _. none) j
      other = unfold assign in (rw q)

  copy_back : (a : Text) (d : Object V) → IsFull d → copy_all o d (first_values o a) ≡ d
  unfolding copy_all
  copy_back a d f = fun_ext (λ j. at j (d j) refl)
    where
      at : (j : Text) (v : Option V) → d j ≡ v → copy_all o d (first_values o a) j ≡ d j
      at j none e = elim (Bool-cases (text_eq j (codes "options"))) [
        | inl p ↦
            let (w, here) = f.options in
            let wrong : none ≡ some w = sym e ∙ ap d (text_eq_sound j _ p) ∙ here in absurd (cc)
        | inr p ↦ elim (Bool-cases (text_eq j (codes "id"))) [
          | inl q ↦
              let (w, here) = f.id in
              let wrong : none ≡ some w = sym e ∙ ap d (text_eq_sound j _ q) ∙ here in absurd (cc)
          | inr q ↦ rw (e, copy_all) (first_none a j p q)
        ]
      ]
      at j (some v) e = rw (e, copy_all) refl

  machine_same : (d : Object V) → HasMachine d → add_machine o d ≡ d
  unfolding add_machine
  machine_same d (p, q, r) =
      let e = assign_same (codes "os") o.os d p in
      let f = assign_same (codes "worker_x86_list") o.worker_x86_list d q in
      let g = assign_same (codes "worker_x64_list") o.worker_x64_list d r in rw e (rw f g)

  IsFull-again :
      (a b : Text) (d : Object V) → IsFull d → new_settings o a b (some (stringify d)) ≡ save o d
  unfolding new_settings load load_parsed
  IsFull-again a b d f = ap (save o) (
      ap (add_machine o) (
        ap (λ p. load_parsed o b p (first_values o a)) (back d f.printable)
        ∙ ap (init_data o b) (copy_back a d f)
        ∙ init_data_kept b d f.identified)
      ∙ machine_same d f.machine)

  has_id-some : (d : Object V) → has_id o d ≡ true → (v : V) × (d (codes "id") ≡ some v)
  unfolding has_id
  has_id-some d h = elim (Option-cases (d (codes "id"))) [
    | inl e ↦ absurd (
        ground
          (arith, ap to_string e ∙ undefined_text, ap length (ap to_string e ∙ undefined_text)))
    | inr found ↦ found
  ]

  -- A new id leaves the options.
  options-init : (a : Text) (d : Object V) → init_data o a d (codes "options") ≡ d (codes "options")
  unfolding init_data assign text_eq
  options-init a d = elim (Bool-cases (has_id o d)) [ inl e ↦ rw e | inr e ↦ rw e ]

  machine-IsFull :
      (d : Object V)
      → has_id o d ≡ true
      → (v : V) × (d (codes "options") ≡ some v)
      → IsJson d
      → IsFull (add_machine o d)
  unfolding add_machine assign text_eq has_id
  machine-IsFull d h op p = record {
    machine = (refl, refl, refl);
    identified = h;
    id = has_id-some d h;
    options = op;
    printable = assigned _ _ _ own_x64 (assigned _ _ _ own_x86 (assigned _ _ d own_os p));
  }

  first-options : (a : Text) → first_values o a (codes "options") ≡ some o.default_options
  unfolding first_values assign text_eq
  first-options a = options-init a _

  copied-options :
      (a : Text) (found : Object V)
      → (v : V) × (copy_all o found (first_values o a) (codes "options") ≡ some v)
  unfolding copy_all
  copied-options a found = elim (Option-cases (found (codes "options"))) [
    | inl e ↦ (o.default_options, rw (e, copy_all) (first-options a))
    | inr (v, e) ↦ (v, rw (e, copy_all) refl)
  ]

  first-has_id : (a : Text) → IsId o a → has_id o (first_values o a) ≡ true
  unfolding first_values
  first-has_id a h = init-has_id a _ h

  parsed :
      (a b : Text) (p : Option (Object V))
      → IsId o a
      → IsId o b
      → (has_id o (load_parsed o b p (first_values o a)) ≡ true)
        × ((v : V) × (load_parsed o b p (first_values o a) (codes "options") ≡ some v))
  unfolding load_parsed
  parsed a b none ha hb = (first-has_id a ha, (o.default_options, first-options a))
  parsed a b (some found) ha hb =
      let (v, e) = copied-options a found in (init-has_id b _ hb, (v, options-init b _ ∙ e))

  loaded :
      (a b : Text) (file : Option File)
      → IsId o a
      → IsId o b
      → let d = load o b file (first_values o a) in
        (has_id o d ≡ true) × ((v : V) × (d (codes "options") ≡ some v))
  unfolding load
  loaded a b none ha hb = (first-has_id a ha, (o.default_options, first-options a))
  loaded a b (some file) ha hb = parsed a b (parse file) ha hb

  init_data-IsJson : (a : Text) (d : Object V) → IsJson d → IsJson (init_data o a d)
  init_data-IsJson a d p = elim (Bool-cases (has_id o d)) [
    | inl e ↦ subst IsJson (sym (init_data_kept a d e)) p
    | inr e ↦ subst IsJson (sym (init_data_new a d e)) (assigned _ _ d own_id p)
  ]

  first-IsJson : (a : Text) → IsJson (first_values o a)
  unfolding first_values
  first-IsJson a = init_data-IsJson a _ (assigned _ _ _ own_options bare)

  loaded-IsJson : (a b : Text) (file : Option File) → IsJson (load o b file (first_values o a))
  unfolding load load_parsed
  loaded-IsJson a b none = first-IsJson a
  loaded-IsJson a b (some file) = elim (Option-cases (parse file)) [
    | inl e ↦ rw (e, load_parsed) (first-IsJson a)
    | inr (d, e) ↦
        rw (e, load_parsed)
          (init_data-IsJson b _ (copied d (first_values o a) (read file d e) (first-IsJson a)))
  ]

  -- What a program goes through: a start over any file, or none, and options from the server.
  pub data Reach : Settings o → Type 0 where
    begin :
        (a b : Text) (file : Option File) → IsId o a → IsId o b → Reach (new_settings o a b file)
    optioned : {s : Settings o} (options : V) → Reach s → Reach (set_options o options s)

  pub record IsStored (s : Settings o) : Type 0 where
    pub filed : s.file ≡ some (stringify s.values)
    pub is_id : has_id o s.values ≡ true
    pub again : (a b : Text) → new_settings o a b s.file ≡ s

  Reach-IsFull : {s : Settings o} → Reach s → IsFull s.values × (s ≡ save o s.values)
  unfolding new_settings set_options save assign text_eq has_id
  Reach-IsFull (begin a b file ha hb) =
      let (h, op) = loaded a b file ha hb in (machine-IsFull _ h op (loaded-IsJson a b file), refl)
  Reach-IsFull (optioned {s} options r) =
      let f = (Reach-IsFull r).0 in
      (
        record {
          machine = f.machine;
          identified = f.identified;
          id = f.id;
          options = (o.as_object options, refl);
          printable = assigned _ _ _ own_options f.printable;
        },
        refl,
      )

  -- Where JSON reads back the objects that it can hold (and what it reads, an object without
  -- names, a value more under one of the program's own names, and a copy of the values of one
  -- object onto another are such objects), String(undefined) is undefined, and the ids that are
  -- made have 64 characters: after a start over any file, or none, and any options from the
  -- server, the file holds what the program knows, with an id of 64 characters; and a program
  -- that starts again over this file knows the same, whatever new ids are at hand.
  pub Reach-IsStored : {s : Settings o} → Reach s → IsStored s
  unfolding save
  Reach-IsStored {s} r =
      let (f, e) = Reach-IsFull r in
      record {
        filed = ap (λ (t : Settings o). t.file) e;
        is_id = f.identified;
        again = λ a b.
            ap (λ (t : Settings o). new_settings o a b t.file) e
            ∙ IsFull-again a b s.values f
            ∙ sym e;
      }
