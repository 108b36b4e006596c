-- ===== src/Tests/EpochRuns.antt =====
-- The parts of epoch processing on the small state.
use trinity_eth.Base.{List, ◌≤◌, ◌≡◌, refl, true, false, [], ◌∷◌, ok, get_ok, ◌⊎◌, arith}
use trinity_eth.Types.{far_future_epoch, BeaconState, Validator}
use trinity_eth.EpochHelpers.{get_validator_churn_limit}
use trinity_eth.Epoch.Registry.{process_registry_updates}
use trinity_eth.Epoch.Registry.Activations.{activations, process_registry_updates-activations}
use trinity_eth.Epoch.Final.{determine_slashing_penalty, update_effective_balances}
use trinity_eth.Epoch.Final.Bounds.{determine_slashing_penalty-le}
use trinity_eth.Epoch.Final.Hysteresis.{SettledAt, update_effective_balances-SettledAt}
use trinity_eth.Epoch.Justification.{
  determine_new_finalized_epoch, process_justification_and_finalization,
}
use trinity_eth.Epoch.Justification.Casper.{
  CasperStep, FinalizedBy, determine_new_finalized_epoch-FinalizedBy,
  process_justification_and_finalization-CasperStep,
}
use trinity_eth.Tests.Running.{run}
use trinity_eth.Tests.Fixtures.{ext, config, state, active_validator}

determine_new_finalized_epoch-FinalizedBy_example :
    (determine_new_finalized_epoch 1 3 4 5 (true ∷ true ∷ true ∷ false ∷ []) ≡ 1)
    ⊎ FinalizedBy true true true false 3 4 5
        (determine_new_finalized_epoch 1 3 4 5 (true ∷ true ∷ true ∷ false ∷ []))
determine_new_finalized_epoch-FinalizedBy_example =
    determine_new_finalized_epoch-FinalizedBy 1 3 4 5 true true true false

abbrev justified : BeaconState
justified = get_ok state (process_justification_and_finalization ext state config)

justified_lem : process_justification_and_finalization ext state config ≡ ok justified
unfolding run
justified_lem = refl

process_justification_and_finalization-CasperStep_example : CasperStep ext config state justified
process_justification_and_finalization-CasperStep_example =
    process_justification_and_finalization-CasperStep ext config state justified (omega arith)
      justified_lem

penalty_lem : determine_slashing_penalty 20 100 31 4 ≡ ok 16
unfolding run
penalty_lem = refl

determine_slashing_penalty-le_example : 16 ≤ 31
determine_slashing_penalty-le_example = determine_slashing_penalty-le 20 100 31 4 penalty_lem

abbrev lean_state : BeaconState
lean_state = record state { balances = 33 ∷ 25 ∷ 15 ∷ [] }

abbrev effective : List Validator
effective = get_ok [] (update_effective_balances lean_state config)

effective_lem : update_effective_balances lean_state config ≡ ok effective
unfolding run
effective_lem = refl

update_effective_balances-SettledAt_example :
    SettledAt config (active_validator 2 32) 25 effective 1
update_effective_balances-SettledAt_example =
    update_effective_balances-SettledAt lean_state config effective 1 (active_validator 2 32) 25
      (omega arith) effective_lem refl refl

-- Two validators wait for activation, and the churn limit is one.
abbrev waiting_state : BeaconState
waiting_state = record state {
  validators =
      active_validator 1 32
      ∷ record (active_validator 2 32) { activation_epoch = far_future_epoch }
      ∷ record (active_validator 3 32) { activation_epoch = far_future_epoch }
      ∷ [];
}

abbrev registered : BeaconState
registered = get_ok state (process_registry_updates waiting_state config)

registered_lem : process_registry_updates waiting_state config ≡ ok registered
unfolding run
registered_lem = refl

process_registry_updates-activations_example :
    activations waiting_state.validators registered.validators
    ≤ get_validator_churn_limit waiting_state config
process_registry_updates-activations_example =
    process_registry_updates-activations waiting_state registered config registered_lem
