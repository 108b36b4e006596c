-- ===== src/Tests/Running.antt =====
-- What a test names to let the whole model compute.
use trinity_eth.Base.{◌>>=◌, update_at, for_each, fold_list, filter_list}
use trinity_eth.Utils.Bytes.{to_bytes, from_bytes, bitwise_xor}
use trinity_eth.Utils.Bitfield.{update_tuple_item_with_fn, get_bitfield_length, get_vote_count}
use trinity_eth.Utils.Numeric.{integer_squareroot}
use trinity_eth.Utils.Bls.{
  validate_public_key, validate_many_public_keys, validate_signature, verify, fast_aggregate_verify,
  validate,
}
use trinity_eth.Utils.Merkle.{
  read_proof, get_merkle_proof, verify_merkle_branch, verify_merkle_proof,
  calc_merkle_tree_from_leaves, calc_merkle_tree, get_merkle_root, get_merkle_root_from_items,
}
use trinity_eth.Helpers.{
  get_active_validator_indices, get_historical_root, get_block_root_at_slot, get_block_root,
  get_randao_mix, get_total_balance, get_state_root_at_slot, get_seed, compute_fork_data_root,
  compute_fork_digest, compute_domain, get_domain, compute_signing_root,
}
use trinity_eth.Committee.{
  get_committee_count_per_slot_at_epoch, get_committee_count_at_slot, round_pivot, round_bit,
  shuffle_round, compute_shuffled_index, proposer_candidate, proposer_loop, compute_proposer_index,
  get_beacon_proposer_index, committee_members, compute_committee, get_beacon_committee,
  iterate_committees_at_slot, iterate_committees_at_epoch,
}
use trinity_eth.EpochHelpers.{
  increase_balance, decrease_balance, get_validator_churn_limit, get_total_active_balance,
  get_matching_source_attestations, get_matching_target_attestations,
  get_matching_head_attestations, get_attesting_indices, get_indexed_attestation,
  get_unslashed_attesting_indices, get_attesting_balance, get_base_reward,
}
use trinity_eth.ValidatorStatus.{
  activate_validator, latest_exit, compute_exit_queue_epoch, initiate_exit_for_validator,
  initiate_validator_exit, set_validator_slashed, slash_validator,
}
use trinity_eth.Deposits.{
  append_validator, validate_deposit_proof, is_valid_proof_of_possession, apply_deposit,
  process_deposit,
}
use trinity_eth.Attestations.{
  validate_indexed_attestation_aggregate_signature, validate_indexed_attestation,
  is_slashable_attestation_data,
}
use trinity_eth.Epoch.Justification.{
  determine_updated_justifications, determine_new_finalized_epoch, checkpoint_at,
  determine_new_finalized_checkpoint, is_threshold_met_against_committee,
  is_threshold_met_against_active_set, is_epoch_justifiable,
  determine_new_justified_epoch_and_bitfield, determine_new_justified_checkpoint_and_bitfield,
  process_justification_and_finalization,
}
use trinity_eth.Epoch.Rewards.{
  get_proposer_reward, get_finality_delay, is_in_inactivity_leak, add_reward, add_penalty,
  eligible_validator_indices, component_reward, component_delta, leak_delta, component_deltas,
  inclusion_delta, leak_deltas, get_attestation_deltas, process_rewards_and_penalties,
}
use trinity_eth.Epoch.Registry.{
  eligible_or_ejected, process_activation_eligibility_or_ejections, waiting, get_activation_queue,
  update_validator_activation_epoch, activate_at, process_registry_updates,
}
use trinity_eth.Epoch.Final.{
  determine_slashing_penalty, slash_balance, process_slashings, determine_next_eth1_votes,
  update_effective_balance, update_effective_balances, compute_next_slashings,
  compute_next_randao_mixes, compute_next_historical_roots, process_final_updates,
}
use trinity_eth.Epoch.{process_epoch}
use trinity_eth.Block.Validation.{
  validate_correct_number_of_deposits, validate_block_slot, validate_block_is_new,
  validate_proposer_slashing_slot, validate_proposer_slashing_is_slashable, validate_some_slashing,
  validate_validator_is_active, validate_validator_has_not_exited, validate_eligible_exit_epoch,
  validate_validator_minimum_lifespan, validate_proposer_index, validate_block_parent_root,
  validate_proposer_is_not_slashed, validate_proposer_signature, validate_randao_reveal,
  validate_proposer_slashing_headers, validate_block_header_signature, validate_proposer_slashing,
  validate_is_slashable_attestation_data, validate_attester_slashing,
  validate_voluntary_exit_signature, validate_voluntary_exit,
}
use trinity_eth.Block.AttestationValidation.{
  validate_eligible_committee_index, validate_eligible_target_epoch,
  validate_slot_matches_target_epoch, validate_attestation_slot, expected_source,
  validate_checkpoint, validate_attestation_data, validate_aggregation_bits, validate_attestation,
}
use trinity_eth.Block.Operations.{
  process_proposer_slashing, process_proposer_slashings, slash_attester, process_attester_slashing,
  process_attester_slashings, process_attestation, process_attestations, process_deposits,
  process_voluntary_exit, process_voluntary_exits, process_operations,
}
use trinity_eth.Block.{process_block_header, process_randao, process_eth1_data, process_block}
use trinity_eth.Slots.{
  update_historical_root, increment_slot, fill_state_root, process_slot, advance_slot, slots_loop,
  process_slots, apply_block, apply_state_transition,
}
use trinity_eth.Genesis.{
  is_genesis_trigger, genesis_deposits, genesis_activation, initialize_beacon_state_from_eth1,
  is_valid_genesis_state,
}

unfoldable pub run : Unit {0}
unfolding ◌>>=◌ update_at for_each fold_list filter_list to_bytes from_bytes bitwise_xor
    update_tuple_item_with_fn get_bitfield_length get_vote_count integer_squareroot
    validate_public_key validate_many_public_keys validate_signature verify fast_aggregate_verify
    validate read_proof get_merkle_proof verify_merkle_branch verify_merkle_proof
    calc_merkle_tree_from_leaves calc_merkle_tree get_merkle_root get_merkle_root_from_items
    get_active_validator_indices get_historical_root get_block_root_at_slot get_block_root
    get_randao_mix get_total_balance get_state_root_at_slot get_seed compute_fork_data_root
    compute_fork_digest compute_domain get_domain compute_signing_root
    get_committee_count_per_slot_at_epoch get_committee_count_at_slot round_pivot round_bit
    shuffle_round compute_shuffled_index proposer_candidate proposer_loop compute_proposer_index
    get_beacon_proposer_index committee_members compute_committee get_beacon_committee
    iterate_committees_at_slot iterate_committees_at_epoch increase_balance decrease_balance
    get_validator_churn_limit get_total_active_balance get_matching_source_attestations
    get_matching_target_attestations get_matching_head_attestations get_attesting_indices
    get_indexed_attestation get_unslashed_attesting_indices get_attesting_balance get_base_reward
    activate_validator latest_exit compute_exit_queue_epoch initiate_exit_for_validator
    initiate_validator_exit set_validator_slashed slash_validator append_validator
    validate_deposit_proof is_valid_proof_of_possession apply_deposit process_deposit
    validate_indexed_attestation_aggregate_signature validate_indexed_attestation
    is_slashable_attestation_data determine_updated_justifications determine_new_finalized_epoch
    checkpoint_at determine_new_finalized_checkpoint is_threshold_met_against_committee
    is_threshold_met_against_active_set is_epoch_justifiable
    determine_new_justified_epoch_and_bitfield determine_new_justified_checkpoint_and_bitfield
    process_justification_and_finalization get_proposer_reward get_finality_delay
    is_in_inactivity_leak add_reward add_penalty eligible_validator_indices component_reward
    component_delta leak_delta component_deltas inclusion_delta leak_deltas get_attestation_deltas
    process_rewards_and_penalties eligible_or_ejected process_activation_eligibility_or_ejections
    waiting get_activation_queue update_validator_activation_epoch activate_at
    process_registry_updates determine_slashing_penalty slash_balance process_slashings
    determine_next_eth1_votes update_effective_balance update_effective_balances
    compute_next_slashings compute_next_randao_mixes compute_next_historical_roots
    process_final_updates process_epoch validate_correct_number_of_deposits validate_block_slot
    validate_block_is_new validate_proposer_slashing_slot validate_proposer_slashing_is_slashable
    validate_some_slashing validate_validator_is_active validate_validator_has_not_exited
    validate_eligible_exit_epoch validate_validator_minimum_lifespan validate_proposer_index
    validate_block_parent_root validate_proposer_is_not_slashed validate_proposer_signature
    validate_randao_reveal validate_proposer_slashing_headers validate_block_header_signature
    validate_proposer_slashing validate_is_slashable_attestation_data validate_attester_slashing
    validate_voluntary_exit_signature validate_voluntary_exit validate_eligible_committee_index
    validate_eligible_target_epoch validate_slot_matches_target_epoch validate_attestation_slot
    expected_source validate_checkpoint validate_attestation_data validate_aggregation_bits
    validate_attestation process_proposer_slashing process_proposer_slashings slash_attester
    process_attester_slashing process_attester_slashings process_attestation process_attestations
    process_deposits process_voluntary_exit process_voluntary_exits process_operations
    process_block_header process_randao process_eth1_data process_block update_historical_root
    increment_slot fill_state_root process_slot advance_slot slots_loop process_slots apply_block
    apply_state_transition is_genesis_trigger genesis_deposits genesis_activation
    initialize_beacon_state_from_eth1 is_valid_genesis_state
run = tt
