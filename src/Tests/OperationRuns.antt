-- ===== src/Tests/OperationRuns.antt =====
-- Deposits, exits and slashings on the small state, and Merkle proofs.
use trinity_eth.Base.{
  ◌↔◌, ◌+◌, ◌≤◌, ◌<◌, ◌≡◌, ◌≢◌, refl, ◌⊎◌, true, List, [], ◌∷◌, length, select, sum, replicate,
  range, ok, get_ok, fold_list, arith,
}
use trinity_eth.Types.{
  SignedVoluntaryExit, Bytes, Hash32, Deposit, BeaconState, current_epoch, far_future_epoch,
}
use trinity_eth.Utils.Merkle.{
  MerkleTree, MerkleProof, branch_value, calc_merkle_tree, get_root, get_merkle_proof,
  verify_merkle_proof,
}
use trinity_eth.Utils.Merkle.Proofs.{get_merkle_proof-verify_merkle_proof}
use trinity_eth.EpochHelpers.{compute_activation_exit_epoch}
use trinity_eth.ValidatorStatus.{
  exits_at, compute_exit_queue_epoch, initiate_validator_exit, slash_validator,
}
use trinity_eth.ValidatorStatus.Churn.{compute_exit_queue_epoch_churn}
use trinity_eth.ValidatorStatus.Slashed.{SlashedAt, slash_validator-SlashedAt}
use trinity_eth.Block.Validation.{validate_voluntary_exit}
use trinity_eth.Block.Exits.{MayExit, validate_voluntary_exit-MayExit}
use trinity_eth.Deposits.{process_deposit}
use trinity_eth.Deposits.Totals.{IsSkipped, process_deposit_total}
use trinity_eth.Tests.Running.{run}
use trinity_eth.Tests.Fixtures.{ext, config, root_of, state}

-- Two validators leave; the queue moves on by an epoch each time, since the limit is one.
abbrev one_exiting : BeaconState
one_exiting = get_ok state (initiate_validator_exit state 0 config)

exit_epochs :
    (compute_exit_queue_epoch state 1 config ≡ 5)
    × (compute_exit_queue_epoch one_exiting 1 config ≡ 6)
unfolding run
exit_epochs = (refl, refl)

unset : compute_exit_queue_epoch one_exiting 1 config ≢ far_future_epoch
unfolding run
unset = omega arith

compute_exit_queue_epoch_churn_example :
    (compute_activation_exit_epoch (current_epoch one_exiting 4) 2
      ≤ compute_exit_queue_epoch one_exiting 1 config)
    × (length
          (select (exits_at (compute_exit_queue_epoch one_exiting 1 config)) one_exiting.validators)
        < 1)
compute_exit_queue_epoch_churn_example =
    compute_exit_queue_epoch_churn one_exiting 1 config (omega arith) unset

abbrev slashed : BeaconState
slashed = get_ok state (slash_validator ext state 1 config)

slashed_lem : slash_validator ext state 1 config ≡ ok slashed
unfolding run
slashed_lem = refl

slash_validator-SlashedAt_example : SlashedAt state 1 config slashed
slash_validator-SlashedAt_example = slash_validator-SlashedAt ext state 1 config slashed slashed_lem

-- A deposit for the first validator, with a branch of 33 nodes.
abbrev deposit : Deposit
deposit = record {
  proof = replicate 33 (root_of 5);
  deposited = record {
    pubkey = replicate 48 1;
    withdrawal_credentials = root_of 0;
    amount = 7;
    signature = root_of 32;
  };
}

abbrev deposit_state : BeaconState
deposit_state = record state {
  eth1_data = record {
    deposit_root =
        get_ok (root_of 0)
          (fold_list (range 0 33) (branch_value ext.sha256 deposit.proof 3) (root_of 7));
    deposit_count = 4;
    block_hash = root_of 20;
  };
}

abbrev credited : BeaconState
credited = get_ok state (process_deposit ext deposit_state deposit config)

credited_lem : process_deposit ext deposit_state deposit config ≡ ok credited
unfolding run
credited_lem = refl

process_deposit_total_example :
    (credited.eth1_deposit_index ≡ deposit_state.eth1_deposit_index + 1)
    × ((sum credited.balances ≡ sum deposit_state.balances + 7)
        ⊎ IsSkipped ext config deposit_state deposit credited)
process_deposit_total_example =
    process_deposit_total ext config deposit_state credited deposit credited_lem

abbrev items : List Bytes
items = (1 ∷ []) ∷ (2 ∷ []) ∷ (3 ∷ []) ∷ (4 ∷ []) ∷ []

abbrev tree : MerkleTree
tree = get_ok [] (calc_merkle_tree ext.sha256 items)

tree_lem : calc_merkle_tree ext.sha256 items ≡ ok tree
unfolding run
tree_lem = refl

abbrev tree_root : Hash32
tree_root = get_ok [] (get_root tree)

tree_root_lem : get_root tree ≡ ok tree_root
unfolding run
tree_root_lem = refl

get_merkle_proof-verify_merkle_proof_example :
    (proof : MerkleProof) × (get_merkle_proof tree 2 ≡ ok proof)
    × (verify_merkle_proof ext.sha256 tree_root (3 ∷ []) 2 proof ≡ true)
get_merkle_proof-verify_merkle_proof_example =
    get_merkle_proof-verify_merkle_proof ext.sha256 items tree tree_root 2 (3 ∷ []) tree_lem
      tree_root_lem refl

abbrev exit : SignedVoluntaryExit
exit = record { message = record { epoch = 1; validator_index = 0 }; signature = root_of 34 }

validate_voluntary_exit-MayExit_example :
    (validate_voluntary_exit ext state exit 4 1 ≡ ok tt) ↔ MayExit ext state exit 4 1
validate_voluntary_exit-MayExit_example = validate_voluntary_exit-MayExit ext state exit 4 1

-- The exit is one that is accepted.
exit_lem : validate_voluntary_exit ext state exit 4 1 ≡ ok tt
unfolding run
exit_lem = refl
