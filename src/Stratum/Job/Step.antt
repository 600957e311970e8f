-- ===== src/Stratum/Job/Step.antt =====
-- The counter of a job: the fourth byte of the nonce below the second extranonce.
use perfect_miner.Prelude.{
  ℕ, ◌⊎◌, suc, ◌+◌, ◌*◌, ◌^◌, ◌<◌, ◌≡◌, refl, some, [], ◌∷◌, arith, length, length-set, get_or, set,
  ◌==◌, if◌then◌else◌,
}
use native.Mathlib.Nat.{pow-suc}
use perfect_miner.Prelude.Floats.{Floats}
use perfect_miner.Bytes.{Bytes, AllBytes, le_value}
use perfect_miner.Bytes.Counter.{
  increment, length-increment, increment-AllBytes, le_value-lt, le_value-increment,
}
use perfect_miner.Stratum.Header.{Extranonce}
use perfect_miner.Stratum.Job.{Job, step_nonce}

-- The work that a header stands for, of its nonce and its second extranonce.
abbrev pub ticket : Bytes → Bytes → ℕ
ticket nonce e2 = get_or nonce 3 0 + 256 * le_value e2

pub record IsCounter (nonce e2 : Bytes) : Type 0 where
  pub nonce_length : length nonce ≡ 4
  pub nonce_byte : get_or nonce 3 0 < 256
  pub e2_bytes : AllBytes e2

get_or-set : (nonce : Bytes) (v : ℕ) → length nonce ≡ 4 → get_or (set nonce 3 v) 3 0 ≡ v
get_or-set [] v h = absurd (omega arith)
get_or-set (a ∷ []) v h = absurd (omega arith)
get_or-set (a ∷ b ∷ []) v h = absurd (omega arith)
get_or-set (a ∷ b ∷ c ∷ []) v h = absurd (omega arith)
get_or-set (a ∷ b ∷ c ∷ d ∷ r) v h = refl

abbrev pub ticket_limit : Bytes → ℕ
ticket_limit e2 = 256 ^ suc (length e2)

abbrev pub next_ticket : ℕ → ℕ → ℕ
next_ticket limit t = if t + 1 == limit then 0 else t + 1

-- The counter after one header.
pub next_nonce : Bytes → Bytes
next_nonce nonce =
    if get_or nonce 3 0 == 255 then set nonce 3 0 else set nonce 3 (get_or nonce 3 0 + 1)

pub next_e2 : Bytes → Bytes → Bytes
next_e2 nonce e2 = if get_or nonce 3 0 == 255 then increment e2 else e2

pub next_ticket_lem :
    (nonce e2 : Bytes)
    → IsCounter nonce e2
    → ticket (next_nonce nonce) (next_e2 nonce e2) ≡ next_ticket (ticket_limit e2) (ticket nonce e2)
unfolding next_nonce next_e2
next_ticket_lem nonce e2 v = ground (
  arith,
  get_or-set nonce 0 v.nonce_length,
  get_or-set nonce (get_or nonce 3 0 + 1) v.nonce_length,
  le_value-increment e2 v.e2_bytes,
  le_value-lt e2 v.e2_bytes,
  pow-suc 256 (length e2),
)

pub next-IsCounter :
    (nonce e2 : Bytes) → IsCounter nonce e2 → IsCounter (next_nonce nonce) (next_e2 nonce e2)
unfolding next_nonce next_e2
next-IsCounter nonce e2 v = record {
  nonce_length = ground (arith, length-set nonce 3 0, length-set nonce 3 (get_or nonce 3 0 + 1));
  nonce_byte = ground (
    arith,
    get_or-set nonce 0 v.nonce_length,
    get_or-set nonce (get_or nonce 3 0 + 1) v.nonce_length,
  );
  e2_bytes = ground (arith, increment-AllBytes e2 v.e2_bytes);
}

pub length-next_e2 : (nonce e2 : Bytes) → length (next_e2 nonce e2) ≡ length e2
unfolding next_e2
length-next_e2 nonce e2 = ground (arith, length-increment e2)

pub ticket-lt : (nonce e2 : Bytes) → IsCounter nonce e2 → ticket nonce e2 < ticket_limit e2
ticket-lt nonce e2 v = ground (arith, le_value-lt e2 v.e2_bytes, pow-suc 256 (length e2))

module _ (fl : Floats) (sha256d : Bytes → Bytes) where
  open fl use {F}

  pub step_nonce_lem :
      (e : Extranonce) (j : Job F)
      → j.extranonce ≡ some e
      → let j' = step_nonce fl sha256d e j in
        (j'.nonce_blob ≡ next_nonce j.nonce_blob)
        × (j'.extranonce
            ≡ some (record e { extranonce2_blob = next_e2 j.nonce_blob e.extranonce2_blob }))
        × (j'.notice ≡ j.notice)
  unfolding step_nonce next_nonce next_e2
  step_nonce_lem e j h = ground arith

  pub step_nonce-blobs :
      (e : Extranonce) (j : Job F)
      → let j' = step_nonce fl sha256d e j in
        (j'.coinbase_blob ≡ j.coinbase_blob) × (j'.block_header_blob ≡ j.block_header_blob)
  unfolding step_nonce
  step_nonce-blobs e j = ground arith

pub next_nonce-zero :
    (nonce e2 : Bytes)
    → IsCounter nonce e2
    → (get_or (next_nonce nonce) 3 0 ≡ 0) ⊎ (next_e2 nonce e2 ≡ e2)
unfolding next_nonce next_e2
next_nonce-zero nonce e2 v = ground (arith, get_or-set nonce 0 v.nonce_length)
