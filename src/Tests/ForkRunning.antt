-- ===== src/Tests/ForkRunning.antt =====
-- What a test names to let the fork choice compute.
use trinity_eth.Base.{◌>>=◌, update_at, for_each, ◌+ℤ◌, ◌-ℤ◌}
use trinity_eth.ForkChoice.ProtoArray.{
  get_node, node_is_viable_for_head, node_leads_to_viable_head, best_child_outcome,
  maybe_update_best_child_and_descendant, update_parent, score_step, score_loop,
  apply_score_changes, add_node, on_block, find_head, chain_loop, canonical_chain, prune_nodes,
  on_prune,
}
use trinity_eth.ForkChoice.Votes.{
  new_fork_choice, process_attestation, process_block, add_at, vote_delta, delta_loop,
  compute_deltas, update_justified, reconcile_changes, find_best, get_canonical_nodes, prune_to,
}
use trinity_eth.Helpers.{
  get_active_validator_indices, get_historical_root, get_block_root_at_slot, get_block_root,
  get_randao_mix, get_total_balance, get_state_root_at_slot, get_seed, compute_fork_data_root,
  compute_fork_digest, compute_domain, get_domain, compute_signing_root,
}
use trinity_eth.ForkChoice.LmdGhost.{
  block_to_block_node, justified_balances, on_justified_state, new_lmd_ghost, on_new_block,
  on_attestation, find_head_block, get_canonical_chain,
}

unfoldable pub run : Unit {0}
unfolding ◌>>=◌ update_at for_each ◌+ℤ◌ ◌-ℤ◌ get_node node_is_viable_for_head
    node_leads_to_viable_head best_child_outcome maybe_update_best_child_and_descendant
    update_parent score_step score_loop apply_score_changes add_node on_block find_head chain_loop
    canonical_chain prune_nodes on_prune new_fork_choice process_attestation process_block add_at
    vote_delta delta_loop compute_deltas update_justified reconcile_changes find_best
    get_canonical_nodes prune_to get_active_validator_indices get_historical_root
    get_block_root_at_slot get_block_root get_randao_mix get_total_balance get_state_root_at_slot
    get_seed compute_fork_data_root compute_fork_digest compute_domain get_domain
    compute_signing_root block_to_block_node justified_balances on_justified_state new_lmd_ghost
    on_new_block on_attestation find_head_block get_canonical_chain
run = tt
