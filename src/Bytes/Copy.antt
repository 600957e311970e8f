-- ===== src/Bytes/Copy.antt =====
-- Where `copy` writes.
use perfect_miner.Prelude.{ℕ, zero, suc, ◌+◌, ◌≡◌, refl, ap, [], ◌∷◌, ◌++◌, arith, length}
use perfect_miner.Bytes.{Bytes, copy}

pub length-copy : (src dst : Bytes) (ofs : ℕ) → length (copy src dst ofs) ≡ length dst
unfolding copy
length-copy src [] ofs = refl
length-copy [] (d ∷ dst) ofs = refl
length-copy (s ∷ src) (d ∷ dst) zero = ap suc (length-copy src dst 0)
length-copy (s ∷ src) (d ∷ dst) (suc ofs) = ap suc (length-copy (s ∷ src) dst ofs)

-- A copy over a part of its own length replaces that part.
pub copy_here :
    (src old rest : Bytes) → length src ≡ length old → copy src (old ++ rest) 0 ≡ src ++ rest
unfolding copy
copy_here [] [] [] h = refl
copy_here [] [] (r ∷ rest) h = refl
copy_here [] (o ∷ old) rest h = absurd (omega arith)
copy_here (s ∷ src) [] rest h = absurd (omega arith)
copy_here (s ∷ src) (o ∷ old) rest h = ap (◌∷◌ s) (copy_here src old rest (omega arith))

-- A copy behind a part leaves that part.
pub copy_past :
    (src pre rest : Bytes) (ofs : ℕ)
    → copy src (pre ++ rest) (length pre + ofs) ≡ pre ++ copy src rest ofs
unfolding copy
copy_past src [] rest ofs = ground arith
copy_past [] (p ∷ pre) [] ofs = refl
copy_past [] (p ∷ pre) (r ∷ rest) ofs = refl
copy_past (s ∷ src) (p ∷ pre) rest ofs = ground (arith, copy_past (s ∷ src) pre rest ofs)
