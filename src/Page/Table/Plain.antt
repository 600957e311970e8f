-- ===== src/Page/Table/Plain.antt =====
-- A list of numbers in place of DataTables, for the examples.
use perfect_miner.Prelude.{
  ℕ, zero, suc, ◌<◌, ◌≡◌, refl, some, List, [], ◌∷◌, ◌++◌, arith, ◌==◌, if◌then◌else◌, length,
  get_elem?, set, length-append, length-set,
}
use perfect_miner.Page.Table.{DataTable}

pub get_elem?-grown :
    (i : ℕ) (t : List ℕ) → i < length t → get_elem? (t ++ 0 ∷ []) i ≡ get_elem? t i
get_elem?-grown i [] h = elim h [ ]
get_elem?-grown zero (x ∷ t) h = refl
get_elem?-grown (suc i) (x ∷ t) h = get_elem?-grown i t (omega arith)

pub get_elem?-set :
    (i j v : ℕ) (t : List ℕ)
    → i < length t
    → get_elem? (set t i v) j ≡ (if j == i then some v else get_elem? t j)
get_elem?-set i j v [] h = elim h [ ]
get_elem?-set zero zero v (x ∷ t) h = refl
get_elem?-set zero (suc j) v (x ∷ t) h = ground arith
get_elem?-set (suc i) zero v (x ∷ t) h = ground arith
get_elem?-set (suc i) (suc j) v (x ∷ t) h = ground (arith, get_elem?-set i j v t)

pub length-grown : (t : List ℕ) → length (t ++ 0 ∷ []) ≡ suc (length t)
length-grown t = omega (arith, length-append t (0 ∷ []))

abbrev pub plain_rows : DataTable ℕ
plain_rows = record {
  T = List ℕ;
  size = length;
  add = λ t. t ++ 0 ∷ [];
  fill = λ i h t. set t i h;
  read = λ i t. get_elem? t i;
  size-add = length-grown;
  size-fill = λ i h t. length-set t i h;
  read-add = get_elem?-grown;
  read-fill = λ i j h t. get_elem?-set i j h t;
}
