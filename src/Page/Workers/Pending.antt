-- ===== src/Page/Workers/Pending.antt =====
-- The queue `workersUpdateMini_v2`: the counts that it still has to bring to the page.
use mathlib.Core.Option
use perfect_miner.Prelude.{
  ℕ, ◌≤◌, ◌<◌, ◌≡◌, refl, ap, ◌∙◌, Option, none, some, false, Bool-cases, inl, inr, List, [], ◌∷◌,
  ◌++◌, arith, ◌==◌, if◌then◌else◌,
}
use perfect_miner.Prelude.Floats.{Floats}
use perfect_miner.Page.Table.{DataTable, info_of, info_of-update, update}
use perfect_miner.WebStat.Workers.Told.{Value, double, flat}
use perfect_miner.Page.Workers.{Info, set_counts, Page, update_mini_v2}

module _ (fl : Floats) where
  open fl use {F}

  abbrev pub Queue : Type 0
  Queue = List (ℕ × F × F × Option F)

  abbrev pub counts_of : Info F → Value F × Value F
  counts_of info = (info.hash_count, info.share_count)

  -- The counts of a worker when the queue has been read, if they were `cur` before.
  abbrev pub last_counts : ℕ → Queue → Value F × Value F → Value F × Value F
  last_counts id [] cur = cur
  last_counts id ((j, h, s, r) ∷ q) cur =
      last_counts id q (if id == j then (some (double h), some (double s)) else cur)

  abbrev pub Below : ℕ → Queue → Type 0
  Below n [] = Unit {0}
  Below n ((j, _, _, _) ∷ q) = (j < n) × Below n q

  pub last_counts-append :
      (id j : ℕ) (h s : F) (r : Option F) (q : Queue) (cur : Value F × Value F)
      → last_counts id (q ++ (j, h, s, r) ∷ []) cur
        ≡ (if id == j then (some (double h), some (double s)) else last_counts id q cur)
  last_counts-append id j h s r [] cur = refl
  last_counts-append id j h s r ((k, h', s', r') ∷ q) cur =
      last_counts-append id j h s r q
        (if id == k then (some (double h'), some (double s')) else cur)

  pub last_counts_absent :
      (n id : ℕ) (q : Queue) (cur : Value F × Value F)
      → Below n q
      → n ≤ id
      → last_counts id q cur ≡ cur
  last_counts_absent n id [] cur b h = refl
  last_counts_absent n id ((j, h', s, r) ∷ q) cur (lt, b) h =
      let other : (id == j) ≡ false = ground arith in rw other (last_counts_absent n id q cur b h)

  pub Below-append :
      (n j : ℕ) (h s : F) (r : Option F) (q : Queue)
      → Below n q
      → j < n
      → Below n (q ++ (j, h, s, r) ∷ [])
  Below-append n j h s r [] b lt = (lt, tt)
  Below-append n j h s r ((_, _, _, _) ∷ q) (l, b) lt = (l, Below-append n j h s r q b lt)

  pub Below-mono : (n m : ℕ) (q : Queue) → Below n q → n ≤ m → Below m q
  Below-mono n m [] b h = tt
  Below-mono n m ((_, _, _, _) ∷ q) (l, b) h = (omega arith, Below-mono n m q b h)

  -- What the queue makes of the object of a worker.
  abbrev pub settled : ℕ → Queue → Info F → Info F
  settled id [] info = info
  settled id ((j, h, s, r) ∷ q) info = settled id q (
      if id == j
      then set_counts fl (some (double h)) (some (double s)) (Option.map double r) info
      else info)

  pub settled-counts :
      (id : ℕ) (q : Queue) (info : Info F)
      → counts_of (settled id q info) ≡ last_counts id q (counts_of info)
  unfolding set_counts
  settled-counts id [] info = refl
  settled-counts id ((j, h, s, r) ∷ q) info = elim (Bool-cases (id == j)) [
    | inl e ↦
        rw (e, settled, last_counts)
          (settled-counts id q
            (set_counts fl (some (double h)) (some (double s)) (Option.map double r) info))
    | inr e ↦ rw (e, settled, last_counts) (settled-counts id q info)
  ]

  -- All else stays.
  abbrev pub Same : Info F → Info F → Type 0
  Same a b =
      (a.name ≡ b.name)
      × (a.pool_id ≡ b.pool_id)
      × (a.accepted_share_count ≡ b.accepted_share_count)
      × (a.rejected_share_count ≡ b.rejected_share_count)
      × (a.alive ≡ b.alive)

  pub settled-Same : (id : ℕ) (q : Queue) (info : Info F) → Same (settled id q info) info
  unfolding set_counts
  settled-Same id [] info = (refl, refl, refl, refl, refl)
  settled-Same id ((j, h, s, r) ∷ q) info = elim (Bool-cases (id == j)) [
    | inl e ↦
        rw (e, settled)
          (settled-Same id q
            (set_counts fl (some (double h)) (some (double s)) (Option.map double r) info))
    | inr e ↦ rw (e, settled) (settled-Same id q info)
  ]

  map_self : (o : Option (Info F)) → o ≡ Option.map (λ i. i) o
  map_self none = refl
  map_self (some i) = refl

  settle_step :
      (id j : ℕ) (h s : F) (r : Option F) (q : Queue) (o : Option (Info F))
      → Option.map (settled id q) (
          if id == j
          then Option.map
              (set_counts fl (some (double h)) (some (double s)) (Option.map double r))
              o
          else o)
        ≡ Option.map (settled id ((j, h, s, r) ∷ q)) o
  settle_step id j h s r q none = elim (Bool-cases (id == j)) [ inl e ↦ rw e | inr e ↦ rw e ]
  settle_step id j h s r q (some i) = elim (Bool-cases (id == j)) [ inl e ↦ rw e | inr e ↦ rw e ]

  module _ {H : Type 0} (dt : DataTable H) (view : Info F → H) where
    pub info_of-update_mini_v2 :
        (id : ℕ) (q : Queue) (t : Page fl dt view)
        → info_of dt view id (update_mini_v2 fl dt view (flat fl q) t)
          ≡ Option.map (settled id q) (info_of dt view id t)
    unfolding flat update_mini_v2
    info_of-update_mini_v2 id [] t = map_self (info_of dt view id t)
    info_of-update_mini_v2 id ((j, h, s, none) ∷ q) t =
        info_of-update_mini_v2 id q (
          update dt view j
            (set_counts fl (some (double h)) (some (double s)) (Option.map double none)) t)
        ∙ ap (Option.map (settled id q)) (
            info_of-update dt view j id
              (set_counts fl (some (double h)) (some (double s)) (Option.map double none)) t)
        ∙ settle_step id j h s none q (info_of dt view id t)
    info_of-update_mini_v2 id ((j, h, s, some r) ∷ q) t =
        info_of-update_mini_v2 id q (
          update dt view j
            (set_counts fl (some (double h)) (some (double s)) (Option.map double (some r))) t)
        ∙ ap (Option.map (settled id q)) (
            info_of-update dt view j id
              (set_counts fl (some (double h)) (some (double s)) (Option.map double (some r))) t)
        ∙ settle_step id j h s (some r) q (info_of dt view id t)
