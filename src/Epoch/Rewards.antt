-- ===== src/Epoch/Rewards.antt =====
-- eth2/beacon/state_machines/forks/serenity/epoch_processing.py, rewards and penalties.
pub mod WellFormed
use trinity_eth.Base.{
  ℕ, zero, suc, ◌+◌, ◌-◌, ◌*◌, ◌/◌, ltb, leb, ◌==◌, not, ◌&&◌, ◌||◌, Bool, true, false,
  if◌then◌else◌, Option, none, some, List, [], ◌∷◌, length, replicate, contains, ℤ, pos, pos_part,
  sub_ℕ, ltb_ℤ, Result, ok, raise, ◌>>=◌, index, or_raise, fold_list, filter_list, floor_div,
  value_error,
}
use trinity_eth.Types.{
  Epoch, Gwei, ValidatorIndex, genesis_epoch, base_rewards_per_epoch, PendingAttestation, Validator,
  is_active, BeaconState, current_epoch, previous_epoch, Eth2Config,
}
use trinity_eth.Extern.{Extern}
use trinity_eth.Utils.Bitfield.{update_tuple_item_with_fn}
use trinity_eth.Helpers.{indices_where, get_total_balance}
use trinity_eth.EpochHelpers.{
  get_base_reward, get_total_active_balance, get_attesting_indices, get_unslashed_attesting_indices,
  get_matching_source_attestations, get_matching_target_attestations,
  get_matching_head_attestations,
}

unfoldable pub get_proposer_reward : BeaconState → ValidatorIndex → Eth2Config → Result Gwei
get_proposer_reward state attesting_index config = do
  base_reward ← get_base_reward state attesting_index config
  ok (base_reward / config.proposer_reward_quotient)

unfoldable pub get_finality_delay : BeaconState → ℕ → ℤ
get_finality_delay state slots_per_epoch =
    sub_ℕ (previous_epoch state slots_per_epoch) state.finalized_checkpoint.epoch

unfoldable pub is_in_inactivity_leak : BeaconState → Eth2Config → Bool
unfolding get_finality_delay
is_in_inactivity_leak state config =
    ltb_ℤ (pos config.min_epochs_to_inactivity_penalty)
      (get_finality_delay state config.slots_per_epoch)

-- The tuples that `get_attestation_deltas` builds up.
pub record Deltas : Type 0 where
  pub rewards : List Gwei
  pub penalties : List Gwei

unfoldable pub add_reward : Deltas → ValidatorIndex → Gwei → Result Deltas
add_reward d i delta = do
  rewards ← update_tuple_item_with_fn d.rewards i (λ balance. balance + delta)
  ok (record d { rewards = rewards })

unfoldable pub add_penalty : Deltas → ValidatorIndex → Gwei → Result Deltas
add_penalty d i delta = do
  penalties ← update_tuple_item_with_fn d.penalties i (λ balance. balance + delta)
  ok (record d { penalties = penalties })

abbrev pub is_eligible : Epoch → Validator → Bool
is_eligible previous v =
    is_active v previous || (v.slashed && ltb (previous + 1) v.withdrawable_epoch)

unfoldable pub eligible_validator_indices : BeaconState → Eth2Config → List ValidatorIndex
eligible_validator_indices state config =
    indices_where (is_eligible (previous_epoch state config.slots_per_epoch)) zero state.validators

-- The first attestation with the least inclusion delay; `min` of nothing is a `ValueError`.
abbrev pub earliest_from : PendingAttestation → List PendingAttestation → PendingAttestation
earliest_from best [] = best
earliest_from best (a ∷ rest) =
    earliest_from (if ltb a.inclusion_delay best.inclusion_delay then a else best) rest

abbrev pub earliest : List PendingAttestation → Result PendingAttestation
earliest [] = raise value_error
earliest (a ∷ rest) = ok (earliest_from a rest)

module _ (state : BeaconState) (config : Eth2Config) where
  -- The reward of an attester for one of the three matching votes.
  unfoldable pub component_reward : Gwei → Gwei → ValidatorIndex → Result Gwei
  component_reward attesting_increments total_increments i = do
    base_reward ← get_base_reward state i config
    if is_in_inactivity_leak state config
        then ok base_reward
        else floor_div (base_reward * attesting_increments) total_increments

  unfoldable pub component_delta :
      List ValidatorIndex → Gwei → Gwei → Deltas → ValidatorIndex → Result Deltas
  component_delta attesters attesting_increments total_increments d i =
      if contains i attesters
      then (component_reward attesting_increments total_increments i >>= add_reward d i)
      else (get_base_reward state i config >>= add_penalty d i)

  -- The body of the last loop, which runs during an inactivity leak. The finality delay is then
  -- positive, so that it is its own positive part.
  unfoldable pub leak_delta : List ValidatorIndex → Deltas → ValidatorIndex → Result Deltas
  leak_delta target_attesters d i = do
    base_reward ← get_base_reward state i config
    proposer_reward ← get_proposer_reward state i config
    d' ← add_penalty d i (base_rewards_per_epoch * base_reward - proposer_reward)
    if contains i target_attesters then ok d' else do
      validator ← index state.validators i
      add_penalty d' i (
          validator.effective_balance
          * pos_part (get_finality_delay state config.slots_per_epoch)
          / config.inactivity_penalty_quotient)

module _ (ext : Extern) (state : BeaconState) (config : Eth2Config) where
  -- One round of the loop over the source, target and head votes.
  unfoldable pub component_deltas : Gwei → Deltas → List PendingAttestation → Result Deltas
  component_deltas total_increments d attestations = do
    attesters ← get_unslashed_attesting_indices ext state attestations config
    attesting_balance ← get_total_balance state attesters config
    fold_list (eligible_validator_indices state config)
        (component_delta state config attesters
          (attesting_balance / config.effective_balance_increment) total_increments)
        d

  -- One round of the loop over the source attesters: the proposer's share and the attester's.
  unfoldable pub inclusion_delta : List PendingAttestation → Deltas → ValidatorIndex → Result Deltas
  inclusion_delta attestations d i = do
    including ← filter_list attestations (λ a.
        get_attesting_indices ext state a.attested a.aggregation_bits config >>= λ attesters.
        ok (contains i attesters))
    attestation ← earliest including
    proposer_reward ← get_proposer_reward state i config
    d' ← add_reward d attestation.proposer_index proposer_reward
    base_reward ← get_base_reward state i config
    attester_reward ← floor_div (base_reward - proposer_reward) attestation.inclusion_delay
    add_reward d' i attester_reward

  -- The last loop.
  unfoldable pub leak_deltas : List PendingAttestation → Deltas → Result Deltas
  leak_deltas target d = do
    target_attesters ← get_unslashed_attesting_indices ext state target config
    fold_list (eligible_validator_indices state config) (leak_delta state config target_attesters) d

  unfoldable pub get_attestation_deltas : Result Deltas
  get_attestation_deltas = do
    let previous = previous_epoch state config.slots_per_epoch
    let none_yet = replicate (length state.validators) 0
    total_balance ← get_total_active_balance state config
    source ← get_matching_source_attestations state previous config
    target ← get_matching_target_attestations state previous config
    head ← get_matching_head_attestations state previous config
    votes ←
        fold_list (source ∷ target ∷ head ∷ [])
          (component_deltas (total_balance / config.effective_balance_increment))
          (record { rewards = none_yet; penalties = none_yet })
    source_attesters ← get_unslashed_attesting_indices ext state source config
    included ← fold_list source_attesters (inclusion_delta source) votes
    if is_in_inactivity_leak state config then leak_deltas target included else ok included

-- `max(balance + reward - penalty, 0)` over `zip` of the three; `-` stops at 0 here.
abbrev pub apply_deltas : List Gwei → List Gwei → List Gwei → List Gwei
apply_deltas [] rewards penalties = []
apply_deltas (b ∷ balances) [] penalties = []
apply_deltas (b ∷ balances) (r ∷ rewards) [] = []
apply_deltas (b ∷ balances) (r ∷ rewards) (p ∷ penalties) =
    (b + r - p) ∷ apply_deltas balances rewards penalties

unfoldable pub process_rewards_and_penalties :
    Extern → BeaconState → Eth2Config → Result BeaconState
process_rewards_and_penalties ext state config =
    if current_epoch state config.slots_per_epoch == genesis_epoch then ok state else do
      deltas ← get_attestation_deltas ext state config
      ok (record state { balances = apply_deltas state.balances deltas.rewards deltas.penalties })
