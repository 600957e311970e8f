-- ===== src/Argv/RoundTrip.antt =====
-- The client reads from its command line what the server read from its own.
use perfect_miner.Prelude.{
  ◌≡◌, refl, sym, subst, ap, ◌∙◌, Bool, false, Option, none, some, List, [], ◌∷◌, ◌++◌, append-nil,
  append_assoc, drop, ◌||◌, arith, Bool-cases, inl, inr,
}
use perfect_miner.Prelude.Text.{Text, codes, text_eq}
use perfect_miner.Argv.{Args, put, is_option, parse_from, parse_argv, options_of, client_args}

has : Text → Args → Bool
has k [] = false
has k ((j, v) ∷ m) = text_eq k j || has k m

-- No property stands twice.
abbrev Distinct : Args → Type 0
Distinct [] = Unit {0}
Distinct ((j, v) ∷ m) = (has j m ≡ false) × Distinct m

abbrev pub defined : List (Text × Text) → Args
defined [] = []
defined ((k, v) ∷ ps) = (k, some v) ∷ defined ps

text_eq_sym : (s t : Text) → text_eq s t ≡ text_eq t s
unfolding text_eq
text_eq_sym [] [] = refl
text_eq_sym [] (b ∷ t) = refl
text_eq_sym (a ∷ s) [] = refl
text_eq_sym (a ∷ s) (b ∷ t) = ground (arith, text_eq_sym s t)

has-put :
    (j k : Text) (v : Option Text) (m : Args)
    → has j m ≡ false
    → text_eq j k ≡ false
    → has j (put k v m) ≡ false
unfolding has put
has-put j k v [] h e = ground arith
has-put j k v ((i, w) ∷ m) h e = ground (arith, has-put j k v m)

put-Distinct : (k : Text) (v : Option Text) (m : Args) → Distinct m → Distinct (put k v m)
unfolding put has
put-Distinct k v [] d = (refl, tt)
put-Distinct k v ((j, w) ∷ m) (h, d) = elim (Bool-cases (text_eq k j)) [
  | inl same ↦ rw same (h, d)
  | inr other ↦ rw other (has-put j k v m h (text_eq_sym j k ∙ other), put-Distinct k v m d)
]

parse_from-Distinct : (m : Args) (argv : List Text) → Distinct m → Distinct (parse_from m argv)
unfolding parse_from
parse_from-Distinct m [] d = d
parse_from-Distinct m (arg ∷ []) d = elim (Bool-cases (is_option arg)) [
  | inl e ↦ rw e (put-Distinct (drop 1 arg) none m d)
  | inr e ↦ rw e d
]
parse_from-Distinct m (arg ∷ value ∷ more) d = elim (Bool-cases (is_option arg)) [
  | inl e ↦ rw e (
      parse_from-Distinct (put (drop 1 arg) (some value) m) more
        (put-Distinct (drop 1 arg) (some value) m d))
  | inr e ↦ rw e (parse_from-Distinct m (value ∷ more) d)
]

put_new : (k : Text) (v : Option Text) (m : Args) → has k m ≡ false → put k v m ≡ m ++ (k, v) ∷ []
unfolding put has
put_new k v [] h = refl
put_new k v ((j, w) ∷ m) h = ground (arith, put_new k v m)

has-append :
    (j k : Text) (v : Option Text) (m more : Args)
    → has j (m ++ (k, v) ∷ more) ≡ false
    → text_eq j k ≡ false
unfolding has
has-append j k v [] more h = ground arith
has-append j k v ((i, w) ∷ m) more h = has-append j k v m more (ground arith)

passed_over :
    (m : Args) (arg : Text) (more : List Text)
    → is_option arg ≡ false
    → parse_from m (arg ∷ more) ≡ parse_from m more
unfolding parse_from
passed_over m arg [] h = rw h
passed_over m arg (value ∷ more) h = rw h

-- What stands in front of a property has another name.
not-has_front :
    (k : Text) (v : Option Text) (m more : Args) → Distinct (m ++ (k, v) ∷ more) → has k m ≡ false
unfolding has
not-has_front k v [] more d = refl
not-has_front k v ((j, w) ∷ m) more (h, d) =
    ground (arith, text_eq_sym k j, has-append j k v m more h, not-has_front k v m more d)

parse_options :
    (ps : List (Text × Text)) (m : Args) (more : List Text)
    → Distinct (m ++ defined ps)
    → parse_from m (options_of ps ++ more) ≡ parse_from (m ++ defined ps) more
unfolding parse_from options_of is_option
parse_options [] m more d = ap (λ x. parse_from x more) (sym (append-nil m))
parse_options ((k, v) ∷ ps) m more d =
    ap (λ x. parse_from x (options_of ps ++ more))
      (put_new k (some v) m (not-has_front k (some v) m (defined ps) d))
    ∙ parse_options ps (m ++ (k, some v) ∷ []) more
        (subst Distinct (sym (append_assoc m ((k, some v) ∷ []) (defined ps))) d)
    ∙ ap (λ x. parse_from x more) (append_assoc m ((k, some v) ∷ []) (defined ps))

-- Where every option of the server has a value, and neither node's path nor the program's begins with a
-- minus, the client that the server starts reads the options of the server from its command line, with
-- the same values and in the same order, and as its address the one that the server listens at.
pub parse_argv-client_args :
    (node path_app_client hostport : Text) (argv : List Text) (options : List (Text × Text))
    → parse_argv argv ≡ defined options
    → is_option node ≡ false
    → is_option path_app_client ≡ false
    → parse_argv (node ∷ client_args path_app_client options hostport)
      ≡ put (codes "address") (some hostport) (parse_argv argv)
unfolding parse_argv client_args parse_from is_option
parse_argv-client_args node path host argv options e n p =
    passed_over [] node (client_args path options host) n
    ∙ passed_over [] path (options_of options ++ codes "-address" ∷ host ∷ []) p
    ∙ parse_options options [] (codes "-address" ∷ host ∷ [])
        (subst Distinct e (parse_from-Distinct [] argv tt))
    ∙ ap (put (codes "address") (some host)) (sym e)
