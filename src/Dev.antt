-- ===== src/Dev.antt =====
-- ControlServer/Dev.js: the news of the developers, which are fetched from a list of addresses, and the
-- pools that they name. What an address answers (webFetchJson) and how parseInt reads a value are
-- parameters: an answer is given with its parts read. The lines for the console are left out, and the
-- hash rates are of any type with a comparison and a maximum.
pub mod Version
pub mod Rounds
mod Tests
use perfect_miner.Prelude.{
  ℕ, ◌+◌, ◌-◌, ◌*◌, ◌%◌, Bool, true, false, Option, none, some, List, [], ◌∷◌, ltb, ◌&&◌,
  if◌then◌else◌,
}
use perfect_miner.Prelude.Int.{ℤ, pos, negsuc}

-- `parseInt(version[i]) & 0xFFFF`; NaN becomes 0.
unfoldable pub low_16 : Option ℤ → ℕ
low_16 none = 0
low_16 (some (pos n)) = n % 65536
low_16 (some (negsuc n)) = 65535 - n % 65536

-- The three numbers of a version that is valid.
abbrev pub AppVersion : Type 0
AppVersion = Option (ℕ × ℕ × ℕ)

-- The parts of an array, or none where the value is no array.
unfoldable pub app_version : Option (List (Option ℤ)) → AppVersion
app_version (some (a ∷ b ∷ c ∷ [])) = some (low_16 a, low_16 b, low_16 c)
app_version _ = none

-- `toNumber`; for a version that is not valid it is NaN.
unfoldable pub to_number : AppVersion → Option ℕ
to_number none = none
to_number (some (a, b, c)) = some (a * (65536 * 65536) + b * 65536 + c)

-- `x > y`, false for NaN.
unfoldable pub greater : Option ℕ → Option ℕ → Bool
greater (some x) (some y) = ltb y x
greater _ _ = false

unfoldable pub is_unset : Option AppVersion → Bool
is_unset none = true
is_unset (some v) = false

-- Hash rates are in `R`, and a pool is a `P`.
pub record PoolInfoWrapper (R P : Type 0) : Type 0 where
  pub min_hr : R
  pub max_hr : R
  pub pool_info_list : List P

pub record DevInfo (R P : Type 0) : Type 0 where
  pub last_version : Option (List (Option ℤ))
  pub dev_pool_list : Option (List (PoolInfoWrapper R P))

pub record Dev (R P : Type 0) : Type 0 where
  pub app_version : AppVersion
  pub dev_pool_list : List (PoolInfoWrapper R P)
  pub notify_new_app_version_msg : Option AppVersion
  -- How many times setInterval was called for the message.
  pub intervals : ℕ
  pub summary_max_hash_rate : R

module _ {R P : Type 0} where
  unfoldable pub set_notify_new_version : AppVersion → Dev R P → Dev R P
  set_notify_new_version v d = record d {
    notify_new_app_version_msg = some v;
    intervals = if is_unset d.notify_new_app_version_msg then d.intervals + 1 else d.intervals;
  }

  unfoldable pub pools_of : DevInfo R P → List (PoolInfoWrapper R P)
  pools_of info = elim info.dev_pool_list [ none ↦ [] | some pools ↦ pools ]

  unfoldable pub set_dev_info_final : DevInfo R P → AppVersion → Dev R P → Dev R P
  set_dev_info_final info last_version d =
      let told =
        if greater (to_number last_version) (to_number d.app_version)
        then set_notify_new_version last_version d
        else d in
      record told { dev_pool_list = pools_of info }

  -- A `new AppVersion` is never falsy, and nothing is returned.
  unfoldable pub set_dev_info : DevInfo R P → Dev R P → Dev R P × Bool
  set_dev_info info d = (set_dev_info_final info (app_version info.last_version) d, false)

  -- `loadDevData`, over what the addresses answer (none where the fetch fails); it counts the
  -- addresses that are asked.
  unfoldable pub load_dev_data : List (Option (DevInfo R P)) → Dev R P → Dev R P × ℕ
  load_dev_data [] d = (d, 0)
  load_dev_data (none ∷ answers) d = let rest = load_dev_data answers d in (rest.0, rest.1 + 1)
  load_dev_data (some info ∷ answers) d =
      let set = set_dev_info info d in
      let rest = load_dev_data answers set.0 in if set.1 then (set.0, 1) else (rest.0, rest.1 + 1)

  module _ (le : R → R → Bool) (maximum : R → R → R) where
    unfoldable pub summary_hash_rate : R → Dev R P → Dev R P
    summary_hash_rate r d = record d { summary_max_hash_rate = maximum d.summary_max_hash_rate r }

    unfoldable pub choose : R → List (PoolInfoWrapper R P) → Option (List P)
    choose r [] = none
    choose r (w ∷ ws) =
        let rest = choose r ws in
        if le w.min_hr r && le r w.max_hr
        then elim w.pool_info_list [ [] ↦ rest | p ∷ ps ↦ some (p ∷ ps) ]
        else rest

    unfoldable pub get_dev_pool_info_list : Dev R P → Option (List P)
    get_dev_pool_info_list d = choose d.summary_max_hash_rate d.dev_pool_list
