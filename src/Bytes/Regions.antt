-- ===== src/Bytes/Regions.antt =====
-- A buffer as a row of regions: a copy that fits a region replaces it.
use perfect_miner.Prelude.{
  ℕ, zero, suc, ◌+◌, ◌≡◌, some, List, [], ◌∷◌, ◌++◌, arith, length, get_elem?, set, ap, ◌∙◌,
}
use perfect_miner.Bytes.{Bytes, copy}
use perfect_miner.Bytes.Copy.{copy_here, copy_past}

abbrev pub flat : List Bytes → Bytes
flat [] = []
flat (r ∷ rs) = r ++ flat rs

-- Where the region with this index begins.
abbrev pub offset : ℕ → List Bytes → ℕ
offset zero rs = 0
offset (suc i) [] = 0
offset (suc i) (r ∷ rs) = length r + offset i rs

copy_nth :
    (src old : Bytes) (rs : List Bytes) (i : ℕ)
    → get_elem? rs i ≡ some old
    → length src ≡ length old
    → copy src (flat rs) (offset i rs) ≡ flat (set rs i src)
copy_nth src old [] i e h = ground arith
copy_nth src old (r ∷ rs) zero e h = copy_here src r (flat rs) (ground arith)
copy_nth src old (r ∷ rs) (suc i) e h =
    copy_past src r (flat rs) (offset i rs) ∙ ap (λ b. r ++ b) (copy_nth src old rs i e h)

pub copy_region :
    (src old : Bytes) (rs : List Bytes) (i ofs : ℕ)
    → get_elem? rs i ≡ some old
    → length src ≡ length old
    → offset i rs ≡ ofs
    → copy src (flat rs) ofs ≡ flat (set rs i src)
copy_region src old rs i ofs e h at = rw (← at) (copy_nth src old rs i e h)
