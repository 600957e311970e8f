-- ===== src/Archive/Tests.antt =====
-- The archive over one-character objects.
use perfect_miner.Prelude.{
  ℕ, zero, suc, ◌≡◌, refl, ap, true, Option, some, List, [], ◌∷◌, arith, drop, length, replicate,
}
use perfect_miner.Prelude.Text.{Text, codes}
use perfect_miner.Archive.{pack, unpack}
use perfect_miner.Archive.Find.{is_plain}
use perfect_miner.Archive.RoundTrip.{IsJson, pack_all}
use perfect_miner.Archive.Truncate.{unpack-drop, begun}

-- A number as so many ones.
abbrev print : ℕ → Text
print n = replicate n 49

abbrev read : Text → Option ℕ
read s = some (length s)

read-print : (n : ℕ) → read (print n) ≡ some n
read-print zero = refl
read-print (suc n) = ap some (ap suc (go n))
  where
    go : (n : ℕ) → length (print n) ≡ n
    go zero = refl
    go (suc n) = ap suc (go n)

print-plain : (n : ℕ) → is_plain (print n) ≡ true
unfolding is_plain
print-plain zero = refl
print-plain (suc n) = print-plain n

ones : IsJson print read
ones = record { reads_back = read-print; prints_plain = print-plain }

abbrev records : List (Text × ℕ)
records = (codes "job", 1) ∷ (codes "log", 3) ∷ []

unpack-drop_example : unpack read (drop 5 (pack_all print read records)) ≡ (codes "log", 3) ∷ []
unfolding is_plain begun pack
unpack-drop_example =
    unpack-drop print read ones 5 records (refl, (refl, tt))
      ((λ e. ground arith), ((λ e. ground arith), tt))
