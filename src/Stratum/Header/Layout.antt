-- ===== src/Stratum/Header/Layout.antt =====
-- Where each part of the coinbase and of the header stands.
use perfect_miner.Prelude.{
  ℕ, zero, suc, append_assoc, ◌+◌, ◌*◌, ◌≡◌, refl, List, [], ◌∷◌, ◌++◌, arith, length, replicate,
  length-replicate, append-nil, ◌∙◌, ap, sym,
}
use perfect_miner.Prelude.Floats.{Floats}
use perfect_miner.Bytes.{Bytes, int32_le}
use perfect_miner.Bytes.Regions.{flat, copy_region}
use perfect_miner.Stratum.Header.{
  Notice, fill_coinbase, make_coinbase, write_extranonce2, swap_words, sha256d_gen_merkle_root,
  header_over, merkle_fold,
}

-- Over any four parts of the right lengths.
fill_coinbase-layout :
    (c1 e1 e2 c2 o1 o2 o3 o4 : Bytes)
    → length c1 ≡ length o1
    → length e1 ≡ length o2
    → length e2 ≡ length o3
    → length c2 ≡ length o4
    → fill_coinbase c1 e1 e2 c2 (flat (o1 ∷ o2 ∷ o3 ∷ o4 ∷ [])) ≡ flat (c1 ∷ e1 ∷ e2 ∷ c2 ∷ [])
unfolding fill_coinbase
fill_coinbase-layout c1 e1 e2 c2 o1 o2 o3 o4 h1 h2 h3 h4 = rw (
  copy_region c1 o1 (o1 ∷ o2 ∷ o3 ∷ o4 ∷ []) 0 0 refl h1 refl,
  copy_region e1 o2 (c1 ∷ o2 ∷ o3 ∷ o4 ∷ []) 1 (length c1) refl h2 (omega arith),
  copy_region e2 o3 (c1 ∷ e1 ∷ o3 ∷ o4 ∷ []) 2 (length c1 + length e1) refl h3 (omega arith),
  copy_region c2 o4 (c1 ∷ e1 ∷ e2 ∷ o4 ∷ []) 3 (length c1 + length e1 + length e2) refl h4
      (omega arith),
)

pub write_extranonce2-layout :
    (c1 e1 e2 e2' c2 : Bytes)
    → length e2' ≡ length e2
    → write_extranonce2 c1 e1 e2' (flat (c1 ∷ e1 ∷ e2 ∷ c2 ∷ [])) ≡ flat (c1 ∷ e1 ∷ e2' ∷ c2 ∷ [])
unfolding write_extranonce2
write_extranonce2-layout c1 e1 e2 e2' c2 h =
    copy_region e2' e2 (c1 ∷ e1 ∷ e2 ∷ c2 ∷ []) 2 (length c1 + length e1) refl h (omega arith)

replicate-append : (m n : ℕ) (b : ℕ) → replicate (m + n) b ≡ replicate m b ++ replicate n b
replicate-append zero n b = ground arith
replicate-append (suc m) n b =
    ap (λ k. replicate k b) (add_suc m n) ∙ ap (◌∷◌ b) (replicate-append m n b)
  where
    add_suc : (m n : ℕ) → suc m + n ≡ suc (m + n)
    add_suc m n = omega arith

-- `makeCoinbase` joins the four parts, and writes every byte of the buffer.
pub make_coinbase-layout :
    (c1 e1 e2 c2 : Bytes) → make_coinbase c1 e1 e2 c2 ≡ flat (c1 ∷ e1 ∷ e2 ∷ c2 ∷ [])
unfolding make_coinbase
make_coinbase-layout c1 e1 e2 c2 =
    ap (fill_coinbase c1 e1 e2 c2) zeros
    ∙ fill_coinbase-layout c1 e1 e2 c2 (replicate (length c1) 0) (replicate (length e1) 0)
        (replicate (length e2) 0) (replicate (length c2) 0) (sym (length-replicate (length c1) 0))
        (sym (length-replicate (length e1) 0)) (sym (length-replicate (length e2) 0))
        (sym (length-replicate (length c2) 0))
  where
    zeros :
        replicate (length c1 + length e1 + length e2 + length c2) 0
        ≡ flat (
            replicate (length c1) 0
            ∷ replicate (length e1) 0
            ∷ replicate (length e2) 0
            ∷ replicate (length c2) 0
            ∷ [])
    zeros = simp (replicate-append, append_assoc, append-nil)

length-swap_words : (k : ℕ) (bs : Bytes) → length bs ≡ 4 * k → length (swap_words bs) ≡ 4 * k
unfolding swap_words
length-swap_words zero [] h = omega arith
length-swap_words zero (a ∷ bs) h = absurd (omega arith)
length-swap_words (suc k) [] h = absurd (omega arith)
length-swap_words (suc k) (a ∷ []) h = absurd (omega arith)
length-swap_words (suc k) (a ∷ b ∷ []) h = absurd (omega arith)
length-swap_words (suc k) (a ∷ b ∷ c ∷ []) h = absurd (omega arith)
length-swap_words (suc k) (a ∷ b ∷ c ∷ d ∷ bs) h =
    omega (arith, length-swap_words k bs (omega arith))

-- The lengths that `mining_notify` checks of the parts of a header.
pub record HasLengths {F : Type 0} (n : Notice F) (ntime nonce : Bytes) : Type 0 where
  pub version_fits : length n.version ≡ 4
  pub prevhash_fits : length n.prevhash ≡ 32
  pub ntime_fits : length ntime ≡ 4
  pub nbits_fits : length n.nbits ≡ 4
  pub nonce_fits : length nonce ≡ 4

-- A digest has 32 bytes.
module _ (fl : Floats) (sha256d : Bytes → Bytes)
    (digest : (b : Bytes) → length (sha256d b) ≡ 32) where
  open fl use {F}

  length-merkle_fold :
      (branch : List Bytes) (root : Bytes)
      → length root ≡ 32
      → length (merkle_fold fl sha256d branch root) ≡ 32
  unfolding merkle_fold
  length-merkle_fold [] root h = h
  length-merkle_fold (m ∷ ms) root h = length-merkle_fold ms _ (digest _)

  pub length-root :
      (branch : List Bytes) (coinbase : Bytes)
      → length (swap_words (sha256d_gen_merkle_root fl sha256d branch coinbase)) ≡ 32
  unfolding sha256d_gen_merkle_root
  length-root branch coinbase =
      length-swap_words 8 _ (length-merkle_fold branch (sha256d coinbase) (digest coinbase))

  abbrev pub header_regions : Notice F → Bytes → Bytes → Bytes → List Bytes
  header_regions n coinbase ntime nonce =
      n.version
      ∷ n.prevhash
      ∷ swap_words (sha256d_gen_merkle_root fl sha256d n.merkle_branch coinbase)
      ∷ ntime
      ∷ n.nbits
      ∷ nonce
      ∷ int32_le 2147483648
      ∷ replicate 40 0
      ∷ int32_le 640
      ∷ []

  -- Where the parts have the lengths that `mining_notify` checks and a digest has 32 bytes, the header
  -- is its nine parts in a row: version, previous hash, swapped merkle root, ntime, nbits, nonce,
  -- padding, zeros and length.
  pub header_over-layout :
      (n : Notice F) (coinbase ntime nonce : Bytes)
      → HasLengths n ntime nonce
      → header_over fl sha256d n coinbase ntime nonce ≡ flat (header_regions n coinbase ntime nonce)
  unfolding header_over
  header_over-layout n coinbase ntime nonce h =
      let root : Bytes = swap_words (sha256d_gen_merkle_root fl sha256d n.merkle_branch coinbase) in
      let z4 : Bytes = replicate 4 0 in
      let z32 : Bytes = replicate 32 0 in
      let root_fits = length-root n.merkle_branch coinbase in
      let top : Bytes = replicate 40 0 in
      let v : Bytes = n.version in
      let p : Bytes = n.prevhash in
      let b : Bytes = n.nbits in
      let o1 : length v + 0 ≡ 4 = omega arith in
      let o2 : length v + (length p + 0) ≡ 36 = omega arith in
      let o3 : length v + (length p + (length root + 0)) ≡ 68 = omega arith in
      let o4 : length v + (length p + (length root + (length ntime + 0))) ≡ 72 = omega arith in
      let o5 : length v + (length p + (length root + (length ntime + (length b + 0)))) ≡ 76 =
        omega arith in
      let o6 : length v + (length p + (length root + (length ntime + (length b + 4)))) ≡ 80 =
        omega arith in
      let o8 : length v + (length p + (length root + (length ntime + (length b + 48)))) ≡ 124 =
        omega arith in
      let m : Bytes = int32_le 2147483648 in
      let l : Bytes = int32_le 640 in
      rw (
        copy_region v z4 (z4 ∷ z32 ∷ z32 ∷ z4 ∷ z4 ∷ z4 ∷ z4 ∷ top ∷ z4 ∷ []) 0 0 refl
            h.version_fits refl,
        copy_region p z32 (v ∷ z32 ∷ z32 ∷ z4 ∷ z4 ∷ z4 ∷ z4 ∷ top ∷ z4 ∷ []) 1 4 refl
            h.prevhash_fits o1,
        copy_region root z32 (v ∷ p ∷ z32 ∷ z4 ∷ z4 ∷ z4 ∷ z4 ∷ top ∷ z4 ∷ []) 2 36 refl root_fits
            o2,
        copy_region ntime z4 (v ∷ p ∷ root ∷ z4 ∷ z4 ∷ z4 ∷ z4 ∷ top ∷ z4 ∷ []) 3 68 refl
            h.ntime_fits o3,
        copy_region b z4 (v ∷ p ∷ root ∷ ntime ∷ z4 ∷ z4 ∷ z4 ∷ top ∷ z4 ∷ []) 4 72 refl
            h.nbits_fits o4,
        copy_region m z4 (v ∷ p ∷ root ∷ ntime ∷ b ∷ z4 ∷ z4 ∷ top ∷ z4 ∷ []) 6 80 refl refl o6,
        copy_region l z4 (v ∷ p ∷ root ∷ ntime ∷ b ∷ z4 ∷ m ∷ top ∷ z4 ∷ []) 8 124 refl refl o8,
        copy_region nonce z4 (v ∷ p ∷ root ∷ ntime ∷ b ∷ z4 ∷ m ∷ top ∷ l ∷ []) 5 76 refl
            h.nonce_fits o5,
      )
