-- ===== src/EpochHelpers.antt =====
-- eth2/beacon/epoch_processing_helpers.py: balances, attesters and rewards.
pub mod WellFormed
use trinity_eth.Base.{
  ℕ, zero, suc, ◌+◌, ◌-◌, ◌*◌, ◌/◌, max, ltb, ◌==◌, Bool, true, false, not, if◌then◌else◌, List, [],
  ◌∷◌, ◌++◌, length, distinct, sort, Result, ok, raise, ◌>>=◌, ◌>>◌, index, update_at, filter_list,
  for_each, fold_list, floor_div, same_bytes, invalid_epoch_error,
}
use trinity_eth.Types.{
  Epoch, Gwei, ValidatorIndex, base_rewards_per_epoch, AttestationData, Attestation,
  IndexedAttestation, PendingAttestation, Validator, BeaconState, current_epoch, previous_epoch,
  Eth2Config,
}
use trinity_eth.Extern.{Extern}
use trinity_eth.Utils.Bitfield.{has_voted}
use trinity_eth.Utils.Numeric.{integer_squareroot}
use trinity_eth.Helpers.{
  get_active_validator_indices, get_block_root, get_block_root_at_slot, get_total_balance,
}
use trinity_eth.Committee.{get_beacon_committee}

unfoldable pub increase_balance : BeaconState → ValidatorIndex → Gwei → Result BeaconState
increase_balance state i delta = do
  balances ← update_at state.balances i (λ balance. balance + delta)
  ok (record state { balances = balances })

-- `Gwei(0) if delta > balance else Gwei(balance - delta)`
abbrev pub lowered : Gwei → Gwei → Gwei
lowered delta balance = if ltb balance delta then 0 else balance - delta

unfoldable pub decrease_balance : BeaconState → ValidatorIndex → Gwei → Result BeaconState
decrease_balance state i delta = do
  balances ← update_at state.balances i (lowered delta)
  ok (record state { balances = balances })

abbrev pub compute_activation_exit_epoch : Epoch → ℕ → Epoch
compute_activation_exit_epoch epoch max_seed_lookahead = epoch + 1 + max_seed_lookahead

unfoldable pub get_validator_churn_limit : BeaconState → Eth2Config → ℕ
get_validator_churn_limit state config = max config.min_per_epoch_churn_limit (
    length
      (get_active_validator_indices state.validators (current_epoch state config.slots_per_epoch))
    / config.churn_limit_quotient)

unfoldable pub get_total_active_balance : BeaconState → Eth2Config → Result Gwei
get_total_active_balance state config =
    get_total_balance state
      (distinct (
        get_active_validator_indices state.validators (current_epoch state config.slots_per_epoch)))
      config

unfoldable pub get_matching_source_attestations :
    BeaconState → Epoch → Eth2Config → Result (List PendingAttestation)
get_matching_source_attestations state epoch config =
    if epoch == current_epoch state config.slots_per_epoch
    then ok state.current_epoch_attestations
    else if epoch == previous_epoch state config.slots_per_epoch
    then ok state.previous_epoch_attestations
    else raise invalid_epoch_error

unfoldable pub get_matching_target_attestations :
    BeaconState → Epoch → Eth2Config → Result (List PendingAttestation)
get_matching_target_attestations state epoch config = do
  target_root ← get_block_root state epoch config.slots_per_epoch config.slots_per_historical_root
  attestations ← get_matching_source_attestations state epoch config
  filter_list attestations λ a. ok (same_bytes a.attested.target.root target_root)

unfoldable pub get_matching_head_attestations :
    BeaconState → Epoch → Eth2Config → Result (List PendingAttestation)
get_matching_head_attestations state epoch config = do
  attestations ← get_matching_target_attestations state epoch config
  filter_list attestations λ a. do
    beacon_block_root ←
        get_block_root_at_slot state a.attested.slot config.slots_per_historical_root
    ok (same_bytes a.attested.beacon_block_root beacon_block_root)

-- The members, at positions from `i` on, whose bit is set.
abbrev pub voters : List Bool → ℕ → List ValidatorIndex → Result (List ValidatorIndex)
voters bitfield i [] = ok []
voters bitfield i (member ∷ committee) = has_voted bitfield i >>= λ voted.
    voters bitfield (suc i) committee >>= λ rest. ok (if voted then member ∷ rest else rest)

module _ (ext : Extern) where
  unfoldable pub get_attesting_indices :
      BeaconState → AttestationData → List Bool → Eth2Config → Result (List ValidatorIndex)
  get_attesting_indices state attested bitfield config = do
    committee ← get_beacon_committee ext state attested.slot attested.index config
    voted ← voters bitfield zero committee
    ok (distinct voted)

  unfoldable pub get_indexed_attestation :
      BeaconState → Attestation → Eth2Config → Result IndexedAttestation
  get_indexed_attestation state attestation config = do
    attesting_indices ←
        get_attesting_indices state attestation.attested attestation.aggregation_bits config
    ok (record {
      attesting_indices = sort attesting_indices;
      attested = attestation.attested;
      signature = attestation.signature;
    })

  unfoldable pub get_unslashed_attesting_indices :
      BeaconState → List PendingAttestation → Eth2Config → Result (List ValidatorIndex)
  get_unslashed_attesting_indices state attestations config = do
    output ←
        fold_list attestations
          (λ (output : List ValidatorIndex) a.
            get_attesting_indices state a.attested a.aggregation_bits config >>= λ indices.
            ok (distinct (output ++ indices)))
          []
    filter_list output λ i. index state.validators i >>= λ v. ok (not v.slashed)

  unfoldable pub get_attesting_balance :
      BeaconState → List PendingAttestation → Eth2Config → Result Gwei
  get_attesting_balance state attestations config = do
    indices ← get_unslashed_attesting_indices state attestations config
    get_total_balance state indices config

unfoldable pub get_base_reward : BeaconState → ValidatorIndex → Eth2Config → Result Gwei
get_base_reward state i config = do
  total_balance ← get_total_active_balance state config
  validator ← index state.validators i
  share ←
      floor_div (validator.effective_balance * config.base_reward_factor)
        (integer_squareroot total_balance)
  ok (share / base_rewards_per_epoch)
