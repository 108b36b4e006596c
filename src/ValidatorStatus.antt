-- ===== src/ValidatorStatus.antt =====
-- eth2/beacon/validator_status_helpers.py: activation, exits and slashing of validators.
pub mod Slashed
pub mod Churn
pub mod WellFormed
use trinity_eth.Base.{
  ℕ, zero, suc, ◌+◌, ◌-◌, ◌/◌, ◌%◌, max, ltb, leb, ◌==◌, Bool, true, false, not, if◌then◌else◌,
  List, [], ◌∷◌, length, select, Result, ok, raise, ◌>>=◌, ◌>>◌, index, update_at,
}
use trinity_eth.Types.{
  Epoch, Gwei, ValidatorIndex, far_future_epoch, Validator, BeaconState, current_epoch, Eth2Config,
}
use trinity_eth.Extern.{Extern}
use trinity_eth.Committee.{get_beacon_proposer_index}
use trinity_eth.EpochHelpers.{
  compute_activation_exit_epoch, get_validator_churn_limit, increase_balance, decrease_balance,
}

unfoldable pub activate_validator : Validator → Epoch → Validator
activate_validator validator activation_epoch = record validator {
  activation_eligibility_epoch = activation_epoch;
  activation_epoch = activation_epoch;
}

-- `max(exit_epochs + (least,))` over the exit epochs that are set.
unfoldable pub latest_exit : List Validator → Epoch → Epoch
latest_exit [] least = least
latest_exit (v ∷ vs) least =
    if v.exit_epoch == far_future_epoch
    then latest_exit vs least
    else max v.exit_epoch (latest_exit vs least)

abbrev pub exits_at : Epoch → Validator → Bool
exits_at epoch v = v.exit_epoch == epoch

unfoldable pub compute_exit_queue_epoch : BeaconState → ℕ → Eth2Config → Epoch
unfolding latest_exit
compute_exit_queue_epoch state churn_limit config =
    let exit_queue_epoch = latest_exit state.validators (
      compute_activation_exit_epoch (current_epoch state config.slots_per_epoch)
        config.max_seed_lookahead) in
    let exit_queue_churn = length (select (exits_at exit_queue_epoch) state.validators) in
    if leb churn_limit exit_queue_churn then exit_queue_epoch + 1 else exit_queue_epoch

unfoldable pub initiate_exit_for_validator : Validator → BeaconState → Eth2Config → Validator
initiate_exit_for_validator validator state config =
    if not (validator.exit_epoch == far_future_epoch)
    then validator
    else let exit_queue_epoch =
        compute_exit_queue_epoch state (get_validator_churn_limit state config) config in
      record validator {
        exit_epoch = exit_queue_epoch;
        withdrawable_epoch = exit_queue_epoch + config.min_validator_withdrawability_delay;
      }

unfoldable pub initiate_validator_exit :
    BeaconState → ValidatorIndex → Eth2Config → Result BeaconState
initiate_validator_exit state i config = do
  validators ← update_at state.validators i (λ v. initiate_exit_for_validator v state config)
  ok (record state { validators = validators })

unfoldable pub set_validator_slashed : Epoch → ℕ → Validator → Validator
set_validator_slashed epoch epochs_per_slashings_vector v = record v {
  slashed = true;
  withdrawable_epoch = max v.withdrawable_epoch (epoch + epochs_per_slashings_vector);
}

-- Every caller leaves `whistleblower_index` out, which the source asserts; the whistleblower is
-- then the proposer.
unfoldable pub slash_validator :
    Extern → BeaconState → ValidatorIndex → Eth2Config → Result BeaconState
slash_validator ext state i config = do
  let epoch = current_epoch state config.slots_per_epoch
  exiting ← initiate_validator_exit state i config
  validators ←
      update_at exiting.validators i
        (set_validator_slashed epoch config.epochs_per_slashings_vector)
  let slashed_state = record exiting { validators = validators }
  validator ← index slashed_state.validators i
  let slashed_balance = validator.effective_balance
  slashings ←
      update_at slashed_state.slashings (epoch % config.epochs_per_slashings_vector)
        (λ balance. balance + slashed_balance)
  penalized ←
      decrease_balance (record slashed_state { slashings = slashings }) i
        (slashed_balance / config.min_slashing_penalty_quotient)
  proposer_index ← get_beacon_proposer_index ext penalized config
  let whistleblower_reward = slashed_balance / config.whistleblower_reward_quotient
  let proposer_reward = whistleblower_reward / config.proposer_reward_quotient
  rewarded ← increase_balance penalized proposer_index proposer_reward
  increase_balance rewarded proposer_index (whistleblower_reward - proposer_reward)
