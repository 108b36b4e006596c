-- ===== src/Epoch/Final.antt =====
-- eth2/beacon/state_machines/forks/serenity/epoch_processing.py, slashings and final updates.
pub mod Hysteresis
pub mod Bounds
pub mod WellFormed
use trinity_eth.Base.{
  ℕ, zero, suc, ◌+◌, ◌-◌, ◌*◌, ◌/◌, ◌%◌, min, ltb, ◌==◌, ◌&&◌, ◌||◌, Bool, if◌then◌else◌, List, [],
  ◌∷◌, ◌++◌, sum, enumerate_from, Result, ok, ◌>>=◌, index, update_at, fold_list, floor_div,
}
use trinity_eth.Types.{
  Epoch, Gwei, Hash32, ValidatorIndex, Validator, Eth1Data, HistoricalBatch, BeaconState,
  current_epoch, next_epoch, Eth2Config, calculate_effective_balance,
}
use trinity_eth.Extern.{Extern}
use trinity_eth.Helpers.{get_randao_mix}
use trinity_eth.EpochHelpers.{get_total_active_balance, decrease_balance}

unfoldable pub determine_slashing_penalty : Gwei → Gwei → Gwei → Gwei → Result Gwei
determine_slashing_penalty total_penalties total_balance balance increment = do
  increments ← floor_div balance increment
  penalty ← floor_div (increments * min (total_penalties * 3) total_balance) total_balance
  ok (penalty * increment)

module _ (config : Eth2Config) where
  abbrev pub is_slashing_due : Epoch → Validator → Bool
  is_slashing_due epoch validator =
      validator.slashed
      && epoch + config.epochs_per_slashings_vector / 2 == validator.withdrawable_epoch

  unfoldable pub slash_balance : Epoch → Gwei → BeaconState → ℕ × Validator → Result BeaconState
  slash_balance epoch total_balance state (i, validator) =
      if is_slashing_due epoch validator
      then (determine_slashing_penalty (sum state.slashings) total_balance
            validator.effective_balance config.effective_balance_increment
          >>= decrease_balance state i)
      else ok state

unfoldable pub process_slashings : BeaconState → Eth2Config → Result BeaconState
process_slashings state config = do
  total_balance ← get_total_active_balance state config
  fold_list (enumerate_from 0 state.validators)
      (slash_balance config (current_epoch state config.slots_per_epoch) total_balance) state

unfoldable pub determine_next_eth1_votes : BeaconState → Eth2Config → List Eth1Data
determine_next_eth1_votes state config =
    if next_epoch state config.slots_per_epoch % config.epochs_per_eth1_voting_period == 0
    then []
    else state.eth1_data_votes

-- The balance has left the band about the effective balance.
abbrev pub leaves_band : Eth2Config → Gwei → Gwei → Bool
leaves_band config balance effective_balance =
    let hysteresis_increment = config.effective_balance_increment / config.hysteresis_quotient in
    ltb (balance + hysteresis_increment * config.hysteresis_downward_multiplier) effective_balance
    || ltb (effective_balance + hysteresis_increment * config.hysteresis_upward_multiplier) balance

unfoldable pub update_effective_balance :
    BeaconState → Eth2Config → List Validator → ℕ × Validator → Result (List Validator)
update_effective_balance state config new_validators (i, validator) = do
  balance ← index state.balances i
  if leaves_band config balance validator.effective_balance
      then update_at new_validators i
          (λ v. record v { effective_balance = calculate_effective_balance balance config })
      else ok new_validators

unfoldable pub update_effective_balances : BeaconState → Eth2Config → Result (List Validator)
update_effective_balances state config =
    fold_list (enumerate_from 0 state.validators) (update_effective_balance state config)
      state.validators

unfoldable pub compute_next_slashings : BeaconState → Eth2Config → Result (List Gwei)
compute_next_slashings state config =
    update_at state.slashings
      (next_epoch state config.slots_per_epoch % config.epochs_per_slashings_vector) (λ _. 0)

unfoldable pub compute_next_randao_mixes : BeaconState → Eth2Config → Result (List Hash32)
compute_next_randao_mixes state config = do
  mix ←
      get_randao_mix state (current_epoch state config.slots_per_epoch)
        config.epochs_per_historical_vector
  update_at state.randao_mixes
      (next_epoch state config.slots_per_epoch % config.epochs_per_historical_vector) (λ _. mix)

module _ (ext : Extern) where
  unfoldable pub compute_next_historical_roots : BeaconState → Eth2Config → List Hash32
  compute_next_historical_roots state config =
      if next_epoch state config.slots_per_epoch
          % (config.slots_per_historical_root / config.slots_per_epoch)
        == 0
      then state.historical_roots
        ++ ext.historical_batch_root
            (record { block_roots = state.block_roots; state_roots = state.state_roots })
          ∷ []
      else state.historical_roots

  unfoldable pub process_final_updates : BeaconState → Eth2Config → Result BeaconState
  process_final_updates state config = do
    new_validators ← update_effective_balances state config
    new_slashings ← compute_next_slashings state config
    new_randao_mixes ← compute_next_randao_mixes state config
    ok (record state {
      eth1_data_votes = determine_next_eth1_votes state config;
      validators = new_validators;
      slashings = new_slashings;
      randao_mixes = new_randao_mixes;
      historical_roots = compute_next_historical_roots state config;
      previous_epoch_attestations = state.current_epoch_attestations;
      current_epoch_attestations = [];
    })
