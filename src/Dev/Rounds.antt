-- ===== src/Dev/Rounds.antt =====
-- A round over the addresses.
use perfect_miner.Prelude.{
  ◌+◌, ◌≡◌, refl, ap, ap₂, ◌∙◌, not, Option, none, some, List, [], ◌∷◌, length, bit, arith,
  Bool-cases, inl, inr, if◌then◌else◌,
}
use perfect_miner.Dev.{
  DevInfo, Dev, PoolInfoWrapper, AppVersion, app_version, to_number, greater,
  set_notify_new_version, is_unset, pools_of, set_dev_info_final, set_dev_info, load_dev_data,
}

module _ {R P : Type 0} where
  -- The pools of the last address that answers.
  abbrev pub last_pools :
      List (Option (DevInfo R P)) → List (PoolInfoWrapper R P) → List (PoolInfoWrapper R P)
  last_pools [] pools = pools
  last_pools (none ∷ answers) pools = last_pools answers pools
  last_pools (some info ∷ answers) pools = last_pools answers (pools_of info)

  -- The last of the versions that is newer than `own`.
  abbrev pub last_newer :
      AppVersion → List (Option (DevInfo R P)) → Option AppVersion → Option AppVersion
  last_newer own [] told = told
  last_newer own (none ∷ answers) told = last_newer own answers told
  last_newer own (some info ∷ answers) told = last_newer own answers (
      if greater (to_number (app_version info.last_version)) (to_number own)
      then some (app_version info.last_version)
      else told)

  abbrev pub ToldOnce : Dev R P → Type 0
  ToldOnce d = d.intervals ≡ bit (not (is_unset d.notify_new_app_version_msg))

  unset_once :
      (d : Dev R P)
      → ToldOnce d
      → (if is_unset d.notify_new_app_version_msg then d.intervals + 1 else d.intervals) ≡ 1
  unset_once d h = elim (Bool-cases (is_unset d.notify_new_app_version_msg)) [
    | inl e ↦ ground (arith, e)
    | inr e ↦ ground (arith, e)
  ]

  final-pools :
      (info : DevInfo R P) (v : AppVersion) (d : Dev R P)
      → (set_dev_info_final info v d).dev_pool_list ≡ pools_of info
  unfolding set_dev_info_final
  final-pools info v d = refl

  final_lem :
      (info : DevInfo R P) (v : AppVersion) (d : Dev R P)
      → ((set_dev_info_final info v d).app_version ≡ d.app_version)
        × ((set_dev_info_final info v d).notify_new_app_version_msg ≡ (
            if greater (to_number v) (to_number d.app_version)
            then some v
            else d.notify_new_app_version_msg))
        × (ToldOnce d → ToldOnce (set_dev_info_final info v d))
  unfolding set_dev_info_final set_notify_new_version is_unset
  final_lem info v d = elim (Bool-cases (greater (to_number v) (to_number d.app_version))) [
    | inl e ↦ rw e (refl, refl, λ h. unset_once d h)
    | inr e ↦ rw e (refl, refl, λ h. h)
  ]

  -- Where the timer of the message was started at most once, once if there is a message, a round
  -- asks every address, though one before has answered; of the answers the last gives the pools;
  -- the message is of the last version told that is newer than the program's, or the one from
  -- before; and the timer is started once for all rounds.
  pub load_dev_data_lem :
      (answers : List (Option (DevInfo R P))) (d : Dev R P)
      → ToldOnce d
      → ((load_dev_data answers d).1 ≡ length answers)
        × ((load_dev_data answers d).0.dev_pool_list ≡ last_pools answers d.dev_pool_list)
        × ((load_dev_data answers d).0.notify_new_app_version_msg
            ≡ last_newer d.app_version answers d.notify_new_app_version_msg)
        × ToldOnce (load_dev_data answers d).0
  unfolding load_dev_data set_dev_info
  load_dev_data_lem [] d h = (refl, refl, refl, h)
  load_dev_data_lem (none ∷ answers) d h =
      let (n, p, m, t) = load_dev_data_lem answers d h in (omega (arith, n), p, m, t)
  load_dev_data_lem (some info ∷ answers) d h =
      let (own, msg, once) = final_lem info (app_version info.last_version) d in
      let (n, p, m, t) =
        load_dev_data_lem answers (set_dev_info_final info (app_version info.last_version) d)
          (once h) in
      (
        omega (arith, n),
        p ∙ ap (last_pools answers) (final-pools info (app_version info.last_version) d),
        m ∙ ap₂ (λ v o. last_newer v answers o) own msg,
        t,
      )
