-- ===== src/Epoch/Registry/WellFormed.antt =====
-- Registry updates keep the state's shape.
use trinity_eth.Base.{Ensures, Ensures-ok, Ensures-bind, Ensures-fold, length-update_at, arith}
use trinity_eth.Types.{Slot, ValidatorIndex, BeaconState, Eth2Config}
use trinity_eth.Invariant.{IsWellFormed}
use trinity_eth.Epoch.Registry.{
  process_activation_eligibility_or_ejections, activate_at, process_registry_updates,
}

module _ (config : Eth2Config) (n : Slot) where
  eligibility-IsWellFormed :
      (s : BeaconState) (i : ValidatorIndex)
      → IsWellFormed config n s
      → Ensures (IsWellFormed config n) (process_activation_eligibility_or_ejections config s i)
  unfolding process_activation_eligibility_or_ejections
  eligibility-IsWellFormed s i h =
      Ensures-bind _ _ λ v e. Ensures-ok _ (ground (arith, (length-update_at _ _ _).at v e))

  activate_at-IsWellFormed :
      (before s : BeaconState) (i : ValidatorIndex)
      → IsWellFormed config n s
      → Ensures (IsWellFormed config n) (activate_at before config s i)
  unfolding activate_at
  activate_at-IsWellFormed before s i h =
      Ensures-bind _ _ λ v e. Ensures-ok _ (ground (arith, (length-update_at _ _ _).at v e))

  pub process_registry_updates-IsWellFormed :
      (s : BeaconState)
      → IsWellFormed config n s
      → Ensures (IsWellFormed config n) (process_registry_updates s config)
  unfolding process_registry_updates
  process_registry_updates-IsWellFormed s h = Ensures-bind _ _ λ t e.
      Ensures-fold _ _ t ((Ensures-fold _ _ s h (λ u i hu. eligibility-IsWellFormed u i hu)).at t e)
        λ u i hu. activate_at-IsWellFormed s u i hu
