-- ===== src/Stratum/Header.antt =====
-- `Job` of ControlServer/Stratum/StratumClient.js: the coinbase transaction and the block header.
pub mod Layout
use Prim.Native.Nat.{bit_or}
use perfect_miner.Prelude.{
  ℕ, zero, suc, ◌+◌, ◌*◌, ◌%◌, ◌^◌, Bool, true, false, not, ◌&&◌, Option, none, some, List, [], ◌∷◌,
  ◌++◌, length, replicate, get_or, set, take, drop, ◌==◌, if◌then◌else◌,
}
use perfect_miner.Prelude.Text.{Text, text_eq}
use perfect_miner.Prelude.Floats.{Floats}
use perfect_miner.Bytes.{Bytes, copy, int32_le}
use perfect_miner.Bytes.Counter.{increment}
use perfect_miner.Stratum.Target.{diff_to_target}

-- What the pool sends with `mining.notify`, decoded from hex, and the difficulty in force.
pub record Notice (F : Type 0) : Type 0 where
  pub job_id : Text
  pub difficulty : F
  pub difficulty_pool : F
  pub difficulty_real : F
  pub prevhash : Bytes
  pub coinb1 : Bytes
  pub coinb2 : Bytes
  pub merkle_branch : List Bytes
  pub version : Bytes
  pub nbits : Bytes
  pub ntime : Bytes
  pub clean_jobs : Bool

pub record Extranonce : Type 0 where
  pub extranonce1_blob : Bytes
  pub extranonce2_blob : Bytes

-- `getBlockHeight`: from byte 32 on, the first two bytes 0xFF in a row; the run of 0xFF and one
-- byte more are skipped; then a length and a little-endian number, in a 32-bit word. A byte behind
-- the end reads as `undefined`, which `<<` takes for 0 and `j < len` for no length at all.
unfoldable pub skip_run : Bytes → Bytes
skip_run [] = []
skip_run (b ∷ bs) = if b == 255 then skip_run bs else b ∷ bs

unfoldable pub find_run : ℕ → Bytes → Option Bytes
find_run zero bs = none
find_run (suc n) [] = none
find_run (suc n) (a ∷ []) = none
find_run (suc n) (a ∷ b ∷ bs) =
    let rest = find_run n (b ∷ bs) in if (a == 255) && (b == 255) then some (skip_run bs) else rest

abbrev shl32 : ℕ → ℕ → ℕ
shl32 b s = (b * 2 ^ (s % 32)) % 4294967296

unfoldable pub read_height : ℕ → ℕ → ℕ → Bytes → ℕ
read_height zero j height bs = height
read_height (suc len) j height [] = height
read_height (suc len) j height (b ∷ bs) =
    read_height len (j + 1) (bit_or height (shl32 b (j * 8))) bs

unfoldable pub height_behind : Bytes → ℕ
height_behind (x ∷ len ∷ bs) = read_height len 0 0 bs
height_behind _ = 0

unfoldable pub get_block_height : Bytes → ℕ
get_block_height coinbase = elim (find_run 127 (drop 32 coinbase)) [
  | none ↦ 0
  | some bs ↦ height_behind bs
]

-- `makeCoinbase`, into the buffer `old`, and `writeExtranonce2`.
unfoldable pub fill_coinbase : Bytes → Bytes → Bytes → Bytes → Bytes → Bytes
fill_coinbase c1 e1 e2 c2 old =
    let with_c1 = copy c1 old 0 in
    let with_e1 = copy e1 with_c1 (length c1) in
    let with_e2 = copy e2 with_e1 (length c1 + length e1) in
    copy c2 with_e2 (length c1 + length e1 + length e2)

unfoldable pub make_coinbase : Bytes → Bytes → Bytes → Bytes → Bytes
make_coinbase c1 e1 e2 c2 =
    fill_coinbase c1 e1 e2 c2 (replicate (length c1 + length e1 + length e2 + length c2) 0)

unfoldable pub write_extranonce2 : Bytes → Bytes → Bytes → Bytes → Bytes
write_extranonce2 c1 e1 e2 coinbase = copy e2 coinbase (length c1 + length e1)

-- `writeInt32BE(readInt32LE(i*4), i*4)` for each word.
unfoldable pub swap_words : Bytes → Bytes
swap_words (a ∷ b ∷ c ∷ d ∷ bs) = d ∷ c ∷ b ∷ a ∷ swap_words bs
swap_words _ = []

module _ (fl : Floats) (sha256d : Bytes → Bytes) where
  open fl use {F, of_ℕ}

  unfoldable pub merkle_fold : List Bytes → Bytes → Bytes
  merkle_fold [] root = root
  merkle_fold (m ∷ ms) root =
      merkle_fold ms (sha256d (copy (take 32 m) (copy (take 32 root) (replicate 64 0) 0) 32))

  unfoldable pub sha256d_gen_merkle_root : List Bytes → Bytes → Bytes
  sha256d_gen_merkle_root branch coinbase = merkle_fold branch (sha256d coinbase)

  -- The header over a coinbase that holds the extranonce already.
  unfoldable pub header_over : Notice F → Bytes → Bytes → Bytes → Bytes
  header_over n coinbase ntime nonce =
      let root = sha256d_gen_merkle_root n.merkle_branch coinbase in
      let b1 = copy n.version (replicate 128 0) 0 in
      let b2 = copy n.prevhash b1 4 in
      let b3 = copy (swap_words root) b2 36 in
      let b4 = copy ntime b3 68 in
      let b5 = copy n.nbits b4 72 in
      let b6 = copy (int32_le 2147483648) b5 80 in
      let b7 = copy (int32_le 640) b6 124 in copy nonce b7 76
