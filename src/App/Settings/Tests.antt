-- ===== src/App/Settings/Tests.antt =====
-- A machine without a file, whose options the server sets. Texts stand for all values; the file holds
-- the values of the program's five names, each with its length, one behind the other.
use mathlib.Core.Option
use mathlib.Core.Path.{fun_ext}
use perfect_miner.Prelude.{
  zero, suc, ◌≡◌, refl, sym, ap, ap₂, ◌∙◌, Bool-cases, inl, inr, false, Option, none, some, [], ◌∷◌,
  ◌++◌, length, take, drop, take_all, drop_all, replicate, if◌then◌else◌, ◌>>=◌,
}
use perfect_miner.Prelude.Text.{Text, codes, text_eq, text_eq_sound}
use perfect_miner.App.Settings.{Object, Outside, assign, copy_all, new_settings, set_options}
use perfect_miner.App.Settings.Restart.{
  IsStored, Reach-IsStored, begin, optioned, Json, Own, own_options, own_os, own_id, own_x86,
  own_x64,
}

abbrev as_text : Option Text → Text
as_text none = codes "undefined"
as_text (some t) = t

abbrev options : Text
options = codes "options"

abbrev os : Text
os = codes "os"

abbrev id : Text
id = codes "id"

abbrev x86 : Text
x86 = codes "worker_x86_list"

abbrev x64 : Text
x64 = codes "worker_x64_list"

abbrev put : Option Text → Text
put none = 0 ∷ []
put (some t) = 1 ∷ length t ∷ t

abbrev get : Text → Option (Option Text × Text)
get [] = none
get (zero ∷ rest) = some (none, rest)
get (suc k ∷ []) = none
get (suc k ∷ n ∷ rest) = some (some (take n rest), drop n rest)

get-put : (v : Option Text) (rest : Text) → get (put v ++ rest) ≡ some (v, rest)
get-put none rest = refl
get-put (some t) rest = ap₂ (λ x y. some (some x, y)) (take_all t rest) (drop_all t rest)

abbrev five : Option Text → Option Text → Option Text → Option Text → Option Text → Object Text
five a b c d e j =
    if text_eq j options
    then a
    else if text_eq j os
    then b
    else if text_eq j id
    then c
    else if text_eq j x86
    then d
    else if text_eq j x64
    then e
    else none

abbrev print_x64 : Object Text → Text
print_x64 d = put (d x64) ++ []

abbrev print_x86 : Object Text → Text
print_x86 d = put (d x86) ++ print_x64 d

abbrev print_id : Object Text → Text
print_id d = put (d id) ++ print_x86 d

abbrev print_os : Object Text → Text
print_os d = put (d os) ++ print_id d

abbrev print : Object Text → Text
print d = put (d options) ++ print_os d

abbrev Rest : Type 0
Rest = Option Text × Text

abbrev fifth : Option Text → Option Text → Option Text → Option Text → Rest → Option (Object Text)
fifth a b c d e = some (five a b c d e.0)

abbrev fourth : Option Text → Option Text → Option Text → Rest → Option (Object Text)
fourth a b c d = get d.1 >>= fifth a b c d.0

abbrev third : Option Text → Option Text → Rest → Option (Object Text)
third a b c = get c.1 >>= fourth a b c.0

abbrev second : Option Text → Rest → Option (Object Text)
second a b = get b.1 >>= third a b.0

abbrev first : Rest → Option (Object Text)
first a = get a.1 >>= second a.0

abbrev scan : Text → Option (Object Text)
scan file = get file >>= first

-- The objects with no other names.
abbrev HasFive : Object Text → Type 0
HasFive d =
    (j : Text)
    → text_eq j options ≡ false
    → text_eq j os ≡ false
    → text_eq j id ≡ false
    → text_eq j x86 ≡ false
    → text_eq j x64 ≡ false
    → d j ≡ none

five-HasFive : (a b c d e : Option Text) → HasFive (five a b c d e)
five-HasFive a b c d e j p q r s t = rw p (rw q (rw r (rw s (rw t refl))))

five-back : (d : Object Text) → HasFive d → five (d options) (d os) (d id) (d x86) (d x64) ≡ d
five-back d h = fun_ext (λ j. at j)
  where
    at : (j : Text) → five (d options) (d os) (d id) (d x86) (d x64) j ≡ d j
    at j = elim (Bool-cases (text_eq j options)) [
      | inl p ↦ rw p (ap d (sym (text_eq_sound j options p)))
      | inr p ↦ elim (Bool-cases (text_eq j os)) [
        | inl q ↦ rw p (rw q (ap d (sym (text_eq_sound j os q))))
        | inr q ↦ elim (Bool-cases (text_eq j id)) [
          | inl r ↦ rw p (rw q (rw r (ap d (sym (text_eq_sound j id r)))))
          | inr r ↦ elim (Bool-cases (text_eq j x86)) [
            | inl s ↦ rw p (rw q (rw r (rw s (ap d (sym (text_eq_sound j x86 s))))))
            | inr s ↦ elim (Bool-cases (text_eq j x64)) [
              | inl t ↦ rw p (rw q (rw r (rw s (rw t (ap d (sym (text_eq_sound j x64 t)))))))
              | inr t ↦ rw p (rw q (rw r (rw s (rw t (sym (h j p q r s t))))))
            ]
          ]
        ]
      ]
    ]

one_read :
    (v : Option Text) (rest : Text) (k : Option Text × Text → Option (Object Text))
    → (get (put v ++ rest) >>= k) ≡ k (v, rest)
one_read v rest k = ap (λ o. o >>= k) (get-put v rest)

scan-print :
    (d : Object Text) → scan (print d) ≡ some (five (d options) (d os) (d id) (d x86) (d x64))
scan-print d =
    one_read (d options) (print_os d) first
    ∙ one_read (d os) (print_id d) (second (d options))
    ∙ one_read (d id) (print_x86 d) (third (d options) (d os))
    ∙ one_read (d x86) (print_x64 d) (fourth (d options) (d os) (d id))
    ∙ one_read (d x64) [] (fifth (d options) (d os) (d id) (d x86))

abbrev GivesFive : Option (Object Text) → Type 0
GivesFive o = (d : Object Text) → o ≡ some d → HasFive d

next-GivesFive :
    (o : Option (Option Text × Text)) (k : Option Text × Text → Option (Object Text))
    → ((x : Option Text × Text) → GivesFive (k x))
    → GivesFive (o >>= k)
next-GivesFive none k h d e = absurd (cc)
next-GivesFive (some x) k h d e = h x d e

last-GivesFive : (d : Object Text) → HasFive d → GivesFive (some d)
last-GivesFive d h c e j p q r s t =
    let same : some (d j) ≡ some (c j) = ap (Option.map (λ (x : Object Text). x j)) e in
    let here : d j ≡ c j = cc in sym here ∙ h j p q r s t

scan-HasFive : (file : Text) → GivesFive (scan file)
scan-HasFive file = next-GivesFive (get file) _ (λ a. next-GivesFive (get a.1) _ (λ b.
    next-GivesFive (get b.1) _ (λ c. next-GivesFive (get c.1) _ (λ d.
      next-GivesFive (get d.1) _ (λ e. last-GivesFive _ (five-HasFive a.0 b.0 c.0 d.0 e.0))))))

abbrev texts : Outside
texts = record {
  V = Text;
  File = Text;
  parse = scan;
  stringify = print;
  to_string = as_text;
  text = λ t. t;
  default_options = codes "4 threads";
  os = codes "4 processors";
  worker_x86_list = codes "worker-sse2";
  worker_x64_list = codes "worker-avx";
  as_object = λ v. v;
}

texts-Json : Json texts
unfolding assign copy_all
texts-Json = record {
  IsJson = HasFive;
  back = λ d h. scan-print d ∙ ap some (five-back d h);
  read = scan-HasFive;
  bare = λ j p q r s t. refl;
  assigned = one_more;
  copied = λ d e h k j p q r s t. rw (h j p q r s t, copy_all) (k j p q r s t);
}
  where
    one_more : (k v : Text) (d : Object Text) → Own k → HasFive d → HasFive (assign texts k v d)
    one_more k v d own_options h j p q r s t = rw p (h j p q r s t)
    one_more k v d own_os h j p q r s t = rw q (h j p q r s t)
    one_more k v d own_id h j p q r s t = rw r (h j p q r s t)
    one_more k v d own_x86 h j p q r s t = rw s (h j p q r s t)
    one_more k v d own_x64 h j p q r s t = rw t (h j p q r s t)

abbrev fresh : Text
fresh = replicate 64 120

Reach-IsStored_example :
    IsStored texts texts-Json refl
      (set_options texts (codes "2 threads") (new_settings texts fresh fresh none))
Reach-IsStored_example =
    Reach-IsStored texts texts-Json refl
      (optioned (codes "2 threads") (begin fresh fresh none (refl, refl) (refl, refl)))
