-- ===== src/Stratum/Pool/Steps.antt =====
-- What each handler of a pool's messages keeps.
use perfect_miner.Prelude.{
  ℕ, suc, refl, true, false, Option, none, List, [], ◌∷◌, length, ltb, Option-cases, Bool-cases,
  inl, inr,
}
use perfect_miner.Prelude.Int.{ℤ}
use perfect_miner.Prelude.Text.{Text, codes, text_eq}
use perfect_miner.Prelude.Floats.{Floats}
use perfect_miner.Bytes.{Bytes}
use perfect_miner.Json.{Value, truthy}
use perfect_miner.Common.Checks.{check_array}
use perfect_miner.Stratum.Values.{has_no_length, pair_at, read_hex, read_array}
use perfect_miner.Stratum.Pool.{
  authorize, Pool, Outcome, done, type_error, reference_error, tell, mining_set_difficulty,
  read_size, set_extranonce1, mining_set_extranonce, read_notice, has_extranonce, mining_notify,
  on_notify, ask_authorize, take_subscription, on_subscribed, on_authorized,
}
use perfect_miner.Stratum.Pool.Kept.{
  IsCounted, IsKept, Holds, refuse-IsKept, take_notice-IsKept, set_size-IsKept, tell-IsCounted,
}

module _ (fl : Floats) (sha256d : Bytes → Bytes) (parse_float : Value fl.F → fl.F)
    (to_integer : Value fl.F → Option ℤ) where
  open fl use {F}

  set_difficulty-IsKept :
      (params : Value F) (p : Pool F)
      → IsKept fl sha256d p
      → Holds fl sha256d
          (IsKept fl sha256d)
          (mining_set_difficulty fl sha256d parse_float to_integer params p)
  unfolding mining_set_difficulty has_extranonce
  set_difficulty-IsKept params p k = elim (Option-cases (check_array 0 params)) [
    | inl e ↦ rw (e, Holds) tt
    | inr (vs, e) ↦ elim (Bool-cases (fl.is_finite (parse_float (pair_at 0 vs).0))) [
      | inl fine ↦
          rw (e, Holds)
            (rw (fine, Holds)
              (record {
                counted = record {
                  history = k.counted.history;
                  told_once = k.counted.told_once;
                  told_jobs = k.counted.told_jobs;
                };
                ready = k.ready;
              }))
      | inr bad ↦ rw (e, Holds) (rw (bad, Holds) tt)
    ]
  ]

  set_extranonce1-IsKept :
      (v size : Value F) (p : Pool F)
      → IsCounted fl sha256d p
      → Holds fl sha256d
          (IsKept fl sha256d)
          (set_extranonce1 fl sha256d parse_float to_integer v size p)
  unfolding set_extranonce1
  set_extranonce1-IsKept v size p k = elim (Bool-cases (has_no_length v)) [
    | inl bad ↦ rw (bad, Holds) tt
    | inr fine ↦ elim (Option-cases (read_hex none v)) [
      | inl e ↦ rw (fine, Holds) (rw (e, Holds) (refuse-IsKept fl sha256d p k))
      | inr (blob, e) ↦ elim (Bool-cases (ltb 16 (length blob))) [
        | inl long ↦
            rw (fine, Holds) (rw (e, Holds) (rw (long, Holds) (refuse-IsKept fl sha256d p k)))
        | inr short ↦
            rw (fine, Holds)
              (rw (e, Holds)
                (rw (short, Holds)
                  (set_size-IsKept fl sha256d blob
                    (read_size fl sha256d parse_float to_integer size) _
                    (record {
                      history = k.history;
                      told_once = k.told_once;
                      told_jobs = k.told_jobs;
                    }))))
      ]
    ]
  ]

  pub set_extranonce-IsKept :
      (params : Value F) (id : ℕ) (p : Pool F)
      → IsCounted fl sha256d p
      → Holds fl sha256d
          (IsKept fl sha256d)
          (mining_set_extranonce fl sha256d parse_float to_integer params id p)
  unfolding mining_set_extranonce
  set_extranonce-IsKept params id p k = elim (Option-cases (check_array (suc id) params)) [
    | inl e ↦ rw (e, Holds) (refuse-IsKept fl sha256d p k)
    | inr (vs, e) ↦
        rw (e, Holds)
          (set_extranonce1-IsKept (pair_at id vs).0 (pair_at id vs).1 _
            (record { history = k.history; told_once = k.told_once; told_jobs = k.told_jobs }))
  ]

  pub mining_notify-IsKept :
      (fresh : ℕ) (params : Value F) (p : Pool F)
      → IsKept fl sha256d p
      → Holds fl sha256d
          (IsKept fl sha256d)
          (mining_notify fl sha256d parse_float to_integer fresh params p)
  unfolding mining_notify
  mining_notify-IsKept fresh params p k = elim (Bool-cases (has_extranonce p)) [
    | inr missing ↦ rw (missing, Holds) (refuse-IsKept fl sha256d p k.counted)
    | inl given ↦ elim (Option-cases (read_array params)) [
      | inl e ↦ rw (given, Holds) (rw (e, Holds) (refuse-IsKept fl sha256d p k.counted))
      | inr (vs, e) ↦ elim (Option-cases (read_notice fl sha256d parse_float to_integer vs p)) [
        | inl bad ↦
            rw (given, Holds)
              (rw (e, Holds) (rw (bad, Holds) (refuse-IsKept fl sha256d p k.counted)))
        | inr (n, good) ↦
            rw (given, Holds)
              (rw (e, Holds) (rw (good, Holds) (take_notice-IsKept fl sha256d fresh n p given k)))
      ]
    ]
  ]

  pub on_notify-IsKept :
      (fresh : ℕ) (method : Text) (params : Value F) (p : Pool F)
      → IsKept fl sha256d p
      → Holds fl sha256d
          (IsKept fl sha256d)
          (on_notify fl sha256d parse_float to_integer fresh method params p)
  unfolding on_notify
  on_notify-IsKept fresh method params p k =
      elim (Bool-cases (text_eq method (codes "mining.set_difficulty"))) [
        | inl e ↦ rw (e, Holds) (set_difficulty-IsKept params p k)
        | inr e ↦ elim (Bool-cases (text_eq method (codes "mining.set_extranonce"))) [
          | inl f ↦ rw (e, Holds) (rw (f, Holds) (set_extranonce-IsKept params 0 p k.counted))
          | inr f ↦ elim (Bool-cases (text_eq method (codes "mining.notify"))) [
            | inl g ↦
                rw (e, Holds)
                  (rw (f, Holds) (rw (g, Holds) (mining_notify-IsKept fresh params p k)))
            | inr g ↦
                rw (e, Holds) (rw (f, Holds) (rw (g, Holds) (refuse-IsKept fl sha256d p k.counted)))
          ]
        ]
      ]

  ask_authorize-IsKept :
      (o : Outcome F)
      → Holds fl sha256d (IsKept fl sha256d) o
      → Holds fl sha256d (IsKept fl sha256d) (ask_authorize o)
  unfolding ask_authorize tell has_extranonce
  ask_authorize-IsKept (done true p) k = record {
    counted = tell-IsCounted fl sha256d authorize p refl refl k.counted;
    ready = k.ready;
  }
  ask_authorize-IsKept (done false p) k = k
  ask_authorize-IsKept (type_error p) k = k
  ask_authorize-IsKept (reference_error p) k = k

  take_subscription-IsKept :
      (result : Value F) (vs : List (Value F)) (p : Pool F)
      → IsKept fl sha256d p
      → Holds fl sha256d
          (IsKept fl sha256d)
          (take_subscription fl sha256d parse_float to_integer result vs p)
  unfolding take_subscription
  take_subscription-IsKept result (a ∷ b ∷ c ∷ []) p k = ask_authorize-IsKept _ (
      set_extranonce-IsKept result 1 _ (record {
        history = k.counted.history;
        told_once = k.counted.told_once;
        told_jobs = k.counted.told_jobs;
      }))
  take_subscription-IsKept result [] p k = refuse-IsKept fl sha256d p k.counted
  take_subscription-IsKept result (a ∷ []) p k = refuse-IsKept fl sha256d p k.counted
  take_subscription-IsKept result (a ∷ b ∷ []) p k = refuse-IsKept fl sha256d p k.counted
  take_subscription-IsKept result (a ∷ b ∷ c ∷ d ∷ vs) p k = refuse-IsKept fl sha256d p k.counted

  pub on_subscribed-IsKept :
      (result error : Value F) (p : Pool F)
      → IsKept fl sha256d p
      → Holds fl sha256d
          (IsKept fl sha256d)
          (on_subscribed fl sha256d parse_float to_integer result error p)
  unfolding on_subscribed
  on_subscribed-IsKept result error p k = elim (Bool-cases (truthy fl error)) [
    | inl e ↦ rw (e, Holds) (refuse-IsKept fl sha256d p k.counted)
    | inr e ↦ elim (Option-cases (read_array result)) [
      | inl f ↦ rw (e, Holds) (rw (f, Holds) (refuse-IsKept fl sha256d p k.counted))
      | inr (vs, f) ↦ rw (e, Holds) (rw (f, Holds) (take_subscription-IsKept result vs p k))
    ]
  ]

  pub on_authorized-IsKept :
      (result error : Value F) (p : Pool F)
      → IsKept fl sha256d p
      → Holds fl sha256d
          (IsKept fl sha256d)
          (on_authorized fl sha256d parse_float to_integer result error p)
  unfolding on_authorized
  on_authorized-IsKept result error p k = elim (Bool-cases (truthy fl error)) [
    | inl e ↦ rw (e, Holds) (refuse-IsKept fl sha256d p k.counted)
    | inr e ↦ elim (Bool-cases (truthy fl result)) [
      | inl f ↦ rw (e, Holds) (rw (f, Holds) k)
      | inr f ↦ rw (e, Holds) (rw (f, Holds) (refuse-IsKept fl sha256d p k.counted))
    ]
  ]
