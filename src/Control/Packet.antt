-- ===== src/Control/Packet.antt =====
-- The datagram of a job.
use perfect_miner.Prelude.{
  ℕ, zero, suc, ◌≡◌, refl, [], ◌∷◌, ◌++◌, arith, length, append-nil, take, drop, length-take,
  length-drop, ◌∙◌, ap, sym,
}
use perfect_miner.Bytes.{Bytes, int32_le}
use perfect_miner.Bytes.Regions.{flat, copy_region}
use perfect_miner.Control.{PoolJob, job_packet}
use perfect_miner.Bytes.Hex.{from_hex, length-from_hex}

-- Over any four parts of the right lengths.
job_packet-parts :
    (j : PoolJob) (o1 o2 o3 o4 : Bytes)
    → length o1 ≡ 4
    → length o2 ≡ 4
    → length (from_hex j.target_hex) ≡ length o3
    → length (from_hex j.blob_hex) ≡ length o4
    → length o3 ≡ 32
    → job_packet j (flat (o1 ∷ o2 ∷ o3 ∷ o4 ∷ []))
      ≡ flat (int32_le 2 ∷ int32_le j.job_seq ∷ from_hex j.target_hex ∷ from_hex j.blob_hex ∷ [])
unfolding job_packet
job_packet-parts j o1 o2 o3 o4 h1 h2 h3 h4 l3 =
    let cmd : Bytes = int32_le 2 in
    let seq : Bytes = int32_le j.job_seq in
    let target : Bytes = from_hex j.target_hex in
    rw
      (
        copy_region cmd o1 (o1 ∷ o2 ∷ o3 ∷ o4 ∷ []) 0 0 refl (sym h1) refl,
        copy_region seq o2 (cmd ∷ o2 ∷ o3 ∷ o4 ∷ []) 1 4 refl (sym h2) refl,
        copy_region target o3 (cmd ∷ seq ∷ o3 ∷ o4 ∷ []) 2 8 refl h3 refl,
      )
      (copy_region (from_hex j.blob_hex) o4 (cmd ∷ seq ∷ target ∷ o4 ∷ []) 3 40 refl h4
        (omega (arith, h3, l3)))

take-drop : (n : ℕ) (xs : Bytes) → take n xs ++ drop n xs ≡ xs
take-drop zero xs = refl
take-drop (suc n) [] = refl
take-drop (suc n) (x ∷ xs) = ap (◌∷◌ x) (take-drop n xs)

-- The datagram of a job with a target of 64 digits and a blob of 160 is the command 2, the number of
-- the job, the target and the blob, whatever the buffer of 120 bytes held.
pub job_packet-layout :
    (j : PoolJob) (old : Bytes)
    → length old ≡ 120
    → length j.target_hex ≡ 64
    → length j.blob_hex ≡ 160
    → job_packet j old
      ≡ flat (int32_le 2 ∷ int32_le j.job_seq ∷ from_hex j.target_hex ∷ from_hex j.blob_hex ∷ [])
job_packet-layout j old h ht hb =
    ap (job_packet j) (sym whole)
    ∙ job_packet-parts j (take 4 old) (take 4 s1) (take 32 s2) (drop 32 s2)
        (omega (arith, length-take 4 old)) (omega (arith, length-take 4 s1, length-drop 4 old))
        (omega (arith, length-from_hex 32 j.target_hex ht, target_room))
        (omega (
          arith,
          length-from_hex 80 j.blob_hex hb,
          length-drop 32 s2,
          length-drop 4 s1,
          length-drop 4 old,
        ))
        target_room
  where
    s1 : Bytes
    s1 = drop 4 old

    s2 : Bytes
    s2 = drop 4 s1

    target_room : length (take 32 s2) ≡ 32
    target_room = omega (arith, length-take 32 s2, length-drop 4 s1, length-drop 4 old)

    whole : flat (take 4 old ∷ take 4 s1 ∷ take 32 s2 ∷ drop 32 s2 ∷ []) ≡ old
    whole = simp (append-nil, take-drop)
