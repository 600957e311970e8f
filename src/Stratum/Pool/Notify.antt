-- ===== src/Stratum/Pool/Notify.antt =====
-- What `mining_notify` has checked of a notice: nothing that a pool sends gets to the headers with a
-- part of a wrong length.
use perfect_miner.Prelude.{
  ℕ, ◌≡◌, ap, sym, ◌∙◌, Option, none, some, List, [], ◌∷◌, length, arith, bind-some, subst-some,
  Option-cases, inl, inr,
}
use perfect_miner.Prelude.Int.{ℤ}
use perfect_miner.Prelude.Floats.{Floats}
use perfect_miner.Bytes.{Bytes}
use perfect_miner.Bytes.Hex.{from_hex}
use perfect_miner.Json.{Value}
use perfect_miner.Common.Checks.{check_string, check_hex, check_hex-length}
use perfect_miner.Stratum.Header.{Notice}
use perfect_miner.Stratum.Job.Update.{IsWellSized}
use perfect_miner.Stratum.Values.{read_hex, read_merkle, read_array}
use perfect_miner.Stratum.Pool.{Pool, read_notice}

abbrev pub AllHashes : List Bytes → Type 0
AllHashes [] = Unit
AllHashes (b ∷ bs) = (length b ≡ 32) × AllHashes bs

module _ {F : Type 0} where
  pub read_hex-length :
      (n : ℕ) (v : Value F) (b : Bytes) → read_hex (some n) v ≡ some b → length b ≡ n
  unfolding read_hex
  read_hex-length n v b h = elim (Option-cases (check_hex (some n) (some n) v)) [
    | inl e ↦ absurd (ground arith)
    | inr (s, e) ↦
        let same : from_hex s ≡ b = ground arith in ap length (sym same) ∙ check_hex-length n v e
  ]

  read_merkle-AllHashes :
      (vs : List (Value F)) (bs : List Bytes) → read_merkle vs ≡ some bs → AllHashes bs
  unfolding read_merkle
  read_merkle-AllHashes [] bs h = subst-some AllHashes h tt
  read_merkle-AllHashes (v ∷ vs) bs h =
      let (b, eb, h1) = bind-some (read_hex (some 32) v) _ bs h in
      let (cs, ec, h2) = bind-some (read_merkle vs) _ bs h1 in
      subst-some AllHashes h2 (read_hex-length 32 v b eb, read_merkle-AllHashes vs cs ec)

module _ (fl : Floats) (sha256d : Bytes → Bytes) (parse_float : Value fl.F → fl.F)
    (to_integer : Value fl.F → Option ℤ) where
  open fl use {F}

  pub read_notice-IsWellSized :
      (vs : List (Value F)) (p : Pool F) (n : Notice F)
      → read_notice fl sha256d parse_float to_integer vs p ≡ some n
      → IsWellSized n × AllHashes n.merkle_branch
  unfolding read_notice
  read_notice-IsWellSized (v0 ∷ v1 ∷ v2 ∷ v3 ∷ v4 ∷ v5 ∷ v6 ∷ v7 ∷ v8 ∷ []) p n h0 =
      let (job_id, e0, h1) = bind-some (check_string none none v0) _ n h0 in
      let (prevhash, e1, h2) = bind-some (read_hex (some 32) v1) _ n h1 in
      let (coinb1, e2, h3) = bind-some (read_hex none v2) _ n h2 in
      let (coinb2, e3, h4) = bind-some (read_hex none v3) _ n h3 in
      let (ms, e4, h5) = bind-some (read_array v4) _ n h4 in
      let (bs, em, h6) = bind-some (read_merkle ms) _ n h5 in
      let (version, e5, h7) = bind-some (read_hex (some 4) v5) _ n h6 in
      let (nbits, e6, h8) = bind-some (read_hex (some 4) v6) _ n h7 in
      let (ntime, e7, h9) = bind-some (read_hex (some 4) v7) _ n h8 in
      subst-some (λ m. IsWellSized m × AllHashes m.merkle_branch) h9
        (
          record {
            version_fits = read_hex-length 4 v5 version e5;
            prevhash_fits = read_hex-length 32 v1 prevhash e1;
            ntime_fits = read_hex-length 4 v7 ntime e7;
            nbits_fits = read_hex-length 4 v6 nbits e6;
          },
          read_merkle-AllHashes ms bs em,
        )
  read_notice-IsWellSized _ p n h = absurd (ground arith)
