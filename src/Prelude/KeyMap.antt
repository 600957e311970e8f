-- ===== src/Prelude/KeyMap.antt =====
-- A JavaScript object whose property names are integers: `for in` visits them in ascending order,
-- so the entries are kept sorted. Ids that count up (`getGlobalUniqueId`) are such keys.
use perfect_miner.Prelude.Tests.{ltb, ◌==◌, if◌then◌else◌, is_some, Bool-cases}
use perfect_miner.Prelude.Lists.{length}
use Prim.Native.Nat.{ℕ, suc, ◌+◌, ◌≤◌}
use mathlib.Core.Path.{◌≡◌, refl, sym, ap, ◌∙◌, subst}
use mathlib.Core.Logic.{◌≢◌, ◌⊎◌, inl, inr}
use mathlib.Core.Bool.{Bool, false}
use mathlib.Core.Option.{Option, none, some}
use mathlib.Core.List.{List, [], ◌∷◌}
use native.Mathlib.Omega.{arith}

abbrev pub KeyMap {ℓ} : Type ℓ → Type ℓ
KeyMap V = List (ℕ × V)

module _ {ℓ} {V : Type ℓ} where
  unfoldable pub lookup : ℕ → KeyMap V → Option V
  lookup k [] = none
  lookup k ((j, v) ∷ m) = if k == j then some v else lookup k m

  unfoldable pub insert : ℕ → V → KeyMap V → KeyMap V
  insert k v [] = (k, v) ∷ []
  insert k v ((j, w) ∷ m) =
      if k == j then (k, v) ∷ m else if ltb k j then (k, v) ∷ (j, w) ∷ m else (j, w) ∷ insert k v m

  unfoldable pub remove : ℕ → KeyMap V → KeyMap V
  remove k [] = []
  remove k ((j, v) ∷ m) = let rest = remove k m in if k == j then rest else (j, v) ∷ rest

  unfoldable pub keys : KeyMap V → List ℕ
  keys [] = []
  keys ((j, v) ∷ m) = j ∷ keys m

  abbrev pub has : ℕ → KeyMap V → Bool
  has k m = is_some (lookup k m)

  -- The keys rise from `lo` on.
  abbrev pub Above : ℕ → KeyMap V → Type 0
  Above lo [] = Unit {0}
  Above lo ((j, v) ∷ m) = (lo ≤ j) × Above (suc j) m

  pub lookup-insert :
      (k j : ℕ) (v : V) (m : KeyMap V)
      → lookup j (insert k v m) ≡ (if j == k then some v else lookup j m)
  unfolding lookup insert
  lookup-insert k j v [] = ground arith
  lookup-insert k j v ((i, w) ∷ m) = ground (arith, lookup-insert k j v m)

  pub lookup-remove :
      (k j : ℕ) (m : KeyMap V) → lookup j (remove k m) ≡ (if j == k then none else lookup j m)
  unfolding lookup remove
  lookup-remove k j [] = ground arith
  lookup-remove k j ((i, w) ∷ m) = ground (arith, lookup-remove k j m)

  -- A look-up after a change, by the two cases.
  pub lookup-insert_cases :
      (k j : ℕ) (v u : V) (m : KeyMap V)
      → lookup j (insert k v m) ≡ some u
      → ((j ≡ k) × (u ≡ v)) ⊎ ((j ≢ k) × (lookup j m ≡ some u))
  lookup-insert_cases k j v u m e = elim (Bool-cases (j == k)) [
    | inl same ↦ inl (ground arith, ground (arith, lookup-insert k j v m))
    | inr other ↦ inr (ground arith, ground (arith, lookup-insert k j v m))
  ]

  pub lookup_kept :
      (k j : ℕ) (u : V) (m : KeyMap V)
      → lookup j (remove k m) ≡ some u
      → (j ≢ k) × (lookup j m ≡ some u)
  lookup_kept k j u m e = elim (Bool-cases (j == k)) [
    | inl same ↦ absurd (ground (arith, lookup-remove k j m))
    | inr other ↦ (ground arith, ground (arith, lookup-remove k j m))
  ]

  pub insert-Above :
      (lo k : ℕ) (v : V) (m : KeyMap V) → Above lo m → lo ≤ k → Above lo (insert k v m)
  unfolding insert
  insert-Above lo k v [] a h = (h, tt)
  insert-Above lo k v ((j, w) ∷ m) a h = ground (arith, insert-Above (suc j) k v m a.1)

  pub Above-mono : (hi lo : ℕ) (m : KeyMap V) → Above hi m → lo ≤ hi → Above lo m
  Above-mono hi lo [] a h = tt
  Above-mono hi lo ((j, w) ∷ m) a h = (omega arith, a.1)

  pub remove-Above : (lo k : ℕ) (m : KeyMap V) → Above lo m → Above lo (remove k m)
  unfolding remove
  remove-Above lo k [] a = tt
  remove-Above lo k ((j, w) ∷ m) a = ground (
    arith,
    remove-Above (suc j) k m a.1,
    Above-mono (suc j) lo (remove k m) (remove-Above (suc j) k m a.1),
  )

  -- A key below the bound is absent.
  pub lookup_below : (lo k : ℕ) (m : KeyMap V) → Above lo m → suc k ≤ lo → lookup k m ≡ none
  unfolding lookup
  lookup_below lo k [] a h = refl
  lookup_below lo k ((j, w) ∷ m) a h = ground (arith, lookup_below (suc j) k m a.1)

  pub remove_absent : (k : ℕ) (m : KeyMap V) → lookup k m ≡ none → remove k m ≡ m
  unfolding lookup remove
  remove_absent k [] h = refl
  remove_absent k ((j, w) ∷ m) h = ground (arith, remove_absent k m)

  pub length-insert_new :
      (k : ℕ) (v : V) (m : KeyMap V) → lookup k m ≡ none → length (insert k v m) ≡ suc (length m)
  unfolding lookup insert
  length-insert_new k v [] h = refl
  length-insert_new k v ((j, w) ∷ m) h = ground (arith, length-insert_new k v m)

  pub length-remove :
      (lo k : ℕ) (v : V) (m : KeyMap V)
      → Above lo m
      → lookup k m ≡ some v
      → length (remove k m) + 1 ≡ length m
  unfolding lookup remove
  length-remove lo k v [] a h = ground arith
  length-remove lo k v ((j, w) ∷ m) a h =
      ground
        (arith, length-remove (suc j) k v m a.1, remove_absent k m, lookup_below (suc j) k m a.1)

module _ {ℓ κ} {V : Type ℓ} (P : V → Type κ) (m : KeyMap V) where
  -- Every value of the map.
  abbrev pub Each : Type (ℓ ⊔ κ)
  Each = (k : ℕ) (v : V) → lookup k m ≡ some v → P v

module _ {ℓ κ} {V : Type ℓ} (P : V → Type κ) (k : ℕ) (v : V) (m : KeyMap V) where
  pub insert-Each : P v → Each P m → Each P (insert k v m)
  insert-Each new old j u e = elim (Bool-cases (j == k)) [
    | inl same ↦
        subst P (cc (e, lookup-insert k j v m, ap (λ b. if b then some v else lookup j m) same)) new
    | inr other ↦ old j u (sym (lookup-insert_ne j other) ∙ e)
  ]
    where
      lookup-insert_ne : (j : ℕ) → (j == k) ≡ false → lookup j (insert k v m) ≡ lookup j m
      lookup-insert_ne j h = rw lookup-insert (rw h)

module _ {ℓ κ} {V : Type ℓ} (P : V → Type κ) (k : ℕ) (m : KeyMap V) where
  pub remove-Each : Each P m → Each P (remove k m)
  remove-Each old j u e = old j u (ground (arith, lookup-remove k j m))

-- A table of references to objects, each under its own id.
abbrev pub Owns : KeyMap ℕ → Type 0
Owns [] = Unit {0}
Owns ((i, id) ∷ m) = (id ≡ i) × Owns m

pub insert-Owns : (k : ℕ) (m : KeyMap ℕ) → Owns m → Owns (insert k k m)
unfolding insert
insert-Owns k [] o = (refl, tt)
insert-Owns k ((i, id) ∷ m) o = ground (arith, insert-Owns k m o.1)

pub remove-Owns : (k : ℕ) (m : KeyMap ℕ) → Owns m → Owns (remove k m)
unfolding remove
remove-Owns k [] o = tt
remove-Owns k ((i, id) ∷ m) o = ground (arith, remove-Owns k m o.1)
