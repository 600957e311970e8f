-- ===== src/Stratum/Target.antt =====
-- `Job.diffToTarget`: a difficulty as a 256-bit little-endian target.
use perfect_miner.Prelude.{
  ℕ, zero, suc, ◌+◌, ◌*◌, ◌≤◌, ◌≡◌, refl, ◌&&◌, arith, ◌-◌, ◌++◌, ◌⊎◌, replicate, ◌==◌,
  if◌then◌else◌, Bool-cases, inl, inr,
}
use perfect_miner.Prelude.Floats.{Floats}
use perfect_miner.Bytes.{Bytes, copy, int32_le}

module _ (fl : Floats) where
  open fl use {F, of_ℕ, div, rem, lt, is_zero, to_int32}

  -- `for(k = 6; k > 0 && diff > 1.0; k--) diff /= 4294967296.0`: the last k, and the quotient.
  unfoldable pub scale : ℕ → F → ℕ × F
  scale zero diff = (0, diff)
  scale (suc k) diff =
      let next = scale k (div diff (of_ℕ 4294967296)) in
      if lt (of_ℕ 1) diff then next else (suc k, diff)

  -- The two words of `m`, at words k and k + 1 of a target of zeros.
  unfoldable pub write_target : ℕ → F → Bytes
  write_target k m =
      let low = copy (int32_le (to_int32 (rem m (of_ℕ 4294967296)))) (replicate 32 0) (k * 4) in
      copy (int32_le (to_int32 (div m (of_ℕ 4294967296)))) low ((k + 1) * 4)

  unfoldable pub finish_target : ℕ → F → Bytes
  finish_target k d =
      let m = div (of_ℕ 4294901760) d in
      if is_zero m && (k == 6) then replicate 32 255 else write_target k m

  unfoldable pub diff_to_target : F → Bytes
  diff_to_target diff = let r = scale 6 (div diff (of_ℕ 1)) in finish_target r.0 r.1

  pub scale-le : (k : ℕ) (d : F) → (scale k d).0 ≤ k
  unfolding scale
  scale-le zero d = omega arith
  scale-le (suc k) d = elim (Bool-cases (lt (of_ℕ 1) d)) [
    | inl more ↦ rw more (omega (arith, scale-le k (div d (of_ℕ 4294967296))))
    | inr stop ↦ rw stop (omega arith)
  ]

  -- The target as words: `k` zero words, the two words of `m`, and zeros.
  abbrev pub layout : ℕ → F → Bytes
  layout k m =
      replicate (k * 4) 0
      ++ int32_le (to_int32 (rem m (of_ℕ 4294967296)))
      ++ int32_le (to_int32 (div m (of_ℕ 4294967296)))
      ++ replicate (24 - k * 4) 0

  write_target-layout : (k : ℕ) (m : F) → k ≤ 6 → write_target k m ≡ layout k m
  unfolding write_target copy
  write_target-layout zero m h = refl
  write_target-layout (suc zero) m h = refl
  write_target-layout (suc (suc zero)) m h = refl
  write_target-layout (suc (suc (suc zero))) m h = refl
  write_target-layout (suc (suc (suc (suc zero)))) m h = refl
  write_target-layout (suc (suc (suc (suc (suc zero))))) m h = refl
  write_target-layout (suc (suc (suc (suc (suc (suc zero)))))) m h = refl
  write_target-layout (suc (suc (suc (suc (suc (suc (suc k))))))) m h = absurd (omega arith)

  -- A target is 32 bytes: all 0xFF, or the two words of 4294901760 / d at the words k and k + 1,
  -- which lie inside the buffer, and zeros.
  pub diff_to_target_lem :
      (diff : F)
      → let k = (scale 6 (div diff (of_ℕ 1))).0 in
        let d = (scale 6 (div diff (of_ℕ 1))).1 in
        (k ≤ 6)
        × ((diff_to_target diff ≡ replicate 32 255)
            ⊎ (diff_to_target diff ≡ layout k (div (of_ℕ 4294901760) d)))
  unfolding diff_to_target finish_target
  diff_to_target_lem diff =
      let k = (scale 6 (div diff (of_ℕ 1))).0 in
      let d = (scale 6 (div diff (of_ℕ 1))).1 in
      let m = div (of_ℕ 4294901760) d in
      (
        scale-le 6 (div diff (of_ℕ 1)),
        elim (Bool-cases (is_zero m && (k == 6))) [
          | inl top ↦ inl (rw top)
          | inr other ↦ inr (rw other (write_target-layout k m (scale-le 6 (div diff (of_ℕ 1)))))
        ],
      )
