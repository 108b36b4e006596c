-- ===== src/Deposits.antt =====
-- eth2/beacon/deposit_helpers.py.
pub mod Totals
pub mod WellFormed
use trinity_eth.Base.{
  ℕ, ◌+◌, Bool, true, false, not, if◌then◌else◌, Option, none, some, List, [], ◌∷◌, ◌++◌, Result,
  ok, raise, ◌>>=◌, ◌>>◌, raise_if, validation_error,
}
use trinity_eth.Types.{
  ValidatorIndex, domain_deposit, Deposit, DepositMessage, Validator, create_pending_validator,
  BeaconState, find_public_key, Eth2Config, zero_hash32, deposit_contract_tree_depth,
}
use trinity_eth.Extern.{Extern}
use trinity_eth.Utils.Bls.{verify}
use trinity_eth.Utils.Merkle.{verify_merkle_branch}
use trinity_eth.Helpers.{compute_domain, compute_signing_root}
use trinity_eth.EpochHelpers.{increase_balance}

-- A pending validator joins the registry, with the deposited amount as its balance.
unfoldable pub append_validator : BeaconState → Deposit → Eth2Config → BeaconState
append_validator state deposit config = record state {
  validators =
      state.validators
      ++ create_pending_validator deposit.deposited.pubkey deposit.deposited.withdrawal_credentials
          deposit.deposited.amount config
        ∷ [];
  balances = state.balances ++ deposit.deposited.amount ∷ [];
}

module _ (ext : Extern) where
  unfoldable pub validate_deposit_proof : BeaconState → Deposit → ℕ → Result (Unit {0})
  validate_deposit_proof state deposit tree_depth = do
    is_valid_proof ←
        verify_merkle_branch ext.sha256 (ext.deposit_data_root deposit.deposited) deposit.proof
          (tree_depth + 1) state.eth1_deposit_index state.eth1_data.deposit_root
    raise_if (not is_valid_proof) validation_error

  -- The proof of possession of a new validator's key.
  unfoldable pub is_valid_proof_of_possession : Deposit → Eth2Config → Bool
  is_valid_proof_of_possession deposit config =
      let message : DepositMessage = record {
        pubkey = deposit.deposited.pubkey;
        withdrawal_credentials = deposit.deposited.withdrawal_credentials;
        amount = deposit.deposited.amount;
      } in
      let domain = compute_domain ext domain_deposit config.genesis_fork_version zero_hash32 in
      verify ext (compute_signing_root ext (ext.deposit_message_root message) domain)
        deposit.deposited.signature deposit.deposited.pubkey

  -- What follows the proof: a new validator, a skipped deposit, or a top-up.
  unfoldable pub apply_deposit : BeaconState → Deposit → Eth2Config → Result BeaconState
  unfolding append_validator
  apply_deposit state deposit config =
      elim (find_public_key deposit.deposited.pubkey state.validators 0) [
        | none ↦
            if not (is_valid_proof_of_possession deposit config)
            then ok state
            else ok (append_validator state deposit config)
        | some i ↦ increase_balance state i deposit.deposited.amount
      ]

  unfoldable pub process_deposit : BeaconState → Deposit → Eth2Config → Result BeaconState
  unfolding apply_deposit
  process_deposit state deposit config = do
    validate_deposit_proof state deposit deposit_contract_tree_depth
    apply_deposit (record state { eth1_deposit_index = state.eth1_deposit_index + 1 }) deposit
        config
