-- ===== src/Block/Operations.antt =====
-- eth2/beacon/state_machines/forks/serenity/operation_processing.py.
pub mod WellFormed
use trinity_eth.Base.{
  ℕ, ◌-◌, ltb, ◌==◌, Bool, true, false, if◌then◌else◌, List, [], ◌∷◌, ◌++◌, length, distinct, sort,
  select, contains, Result, ok, raise, ◌>>=◌, ◌>>◌, raise_if, index, fold_list, validation_error,
}
use trinity_eth.Types.{
  Epoch, ValidatorIndex, is_slashable, PendingAttestation, Attestation, ProposerSlashing,
  AttesterSlashing, SignedVoluntaryExit, Deposit, BeaconState, current_epoch, BeaconBlock,
  Eth2Config,
}
use trinity_eth.Extern.{Extern}
use trinity_eth.Committee.{get_beacon_proposer_index}
use trinity_eth.ValidatorStatus.{initiate_validator_exit, slash_validator}
use trinity_eth.Deposits.{process_deposit}
use trinity_eth.Block.Validation.{
  validate_correct_number_of_deposits, validate_proposer_slashing, validate_attester_slashing,
  validate_some_slashing, validate_voluntary_exit,
}
use trinity_eth.Block.AttestationValidation.{validate_attestation}

-- The indices that attest in both attestations, in order and once each.
abbrev pub slashing_indices : AttesterSlashing → List ValidatorIndex
slashing_indices s = sort (
    select (λ i. contains i s.attestation_2.attesting_indices)
      (distinct s.attestation_1.attesting_indices))

module _ (ext : Extern) (config : Eth2Config) where
  unfoldable pub process_proposer_slashing : BeaconState → ProposerSlashing → Result BeaconState
  process_proposer_slashing state s = do
    validate_proposer_slashing ext state s config.slots_per_epoch
    slash_validator ext state s.signed_header_1.message.proposer_index config

  unfoldable pub process_proposer_slashings : BeaconState → BeaconBlock → Result BeaconState
  process_proposer_slashings state block = do
    raise_if (ltb config.max_proposer_slashings (length block.body.proposer_slashings))
        validation_error
    fold_list block.body.proposer_slashings process_proposer_slashing state

  -- The inner loop's state is the beacon state and `slashed_any`.
  unfoldable pub slash_attester :
      Epoch → BeaconState × Bool → ValidatorIndex → Result (BeaconState × Bool)
  slash_attester epoch (state, slashed_any) i = do
    validator ← index state.validators i
    if is_slashable validator epoch
        then (slash_validator ext state i config >>= λ slashed. ok (slashed, true))
        else ok (state, slashed_any)

  unfoldable pub process_attester_slashing :
      Epoch → BeaconState → AttesterSlashing → Result BeaconState
  process_attester_slashing epoch state s = do
    validate_attester_slashing ext state s config.slots_per_epoch
    slashed ← fold_list (slashing_indices s) (slash_attester epoch) (state, false)
    validate_some_slashing slashed.1
    ok slashed.0

  unfoldable pub process_attester_slashings : BeaconState → BeaconBlock → Result BeaconState
  process_attester_slashings state block = do
    raise_if (ltb config.max_attester_slashings (length block.body.attester_slashings))
        validation_error
    fold_list block.body.attester_slashings
        (process_attester_slashing (current_epoch state config.slots_per_epoch)) state

  -- The loop's state: the pending attestations of the current and of the previous epoch. A
  -- validated attestation is no newer than the state, so that the delay is not negative.
  unfoldable pub process_attestation :
      BeaconState
      → List PendingAttestation × List PendingAttestation
      → Attestation
      → Result (List PendingAttestation × List PendingAttestation)
  process_attestation state (current, previous) attestation = do
    validate_attestation ext state attestation config
    proposer_index ← get_beacon_proposer_index ext state config
    let pending : PendingAttestation = record {
      aggregation_bits = attestation.aggregation_bits;
      attested = attestation.attested;
      inclusion_delay = state.slot - attestation.attested.slot;
      proposer_index = proposer_index;
    }
    if attestation.attested.target.epoch == current_epoch state config.slots_per_epoch
        then ok (current ++ pending ∷ [], previous)
        else ok (current, previous ++ pending ∷ [])

  unfoldable pub process_attestations : BeaconState → BeaconBlock → Result BeaconState
  process_attestations state block = do
    raise_if (ltb config.max_attestations (length block.body.attestations)) validation_error
    pending ←
        fold_list block.body.attestations (process_attestation state)
          (state.current_epoch_attestations, state.previous_epoch_attestations)
    ok (record state {
      current_epoch_attestations = pending.0;
      previous_epoch_attestations = pending.1;
    })

  unfoldable pub process_deposits : BeaconState → BeaconBlock → Result BeaconState
  process_deposits state block = do
    raise_if (ltb config.max_deposits (length block.body.deposits)) validation_error
    fold_list block.body.deposits (λ s deposit. process_deposit ext s deposit config) state

  unfoldable pub process_voluntary_exit : BeaconState → SignedVoluntaryExit → Result BeaconState
  process_voluntary_exit state signed_exit = do
    validate_voluntary_exit ext state signed_exit config.slots_per_epoch
        config.shard_committee_period
    initiate_validator_exit state signed_exit.message.validator_index config

  unfoldable pub process_voluntary_exits : BeaconState → BeaconBlock → Result BeaconState
  process_voluntary_exits state block = do
    raise_if (ltb config.max_voluntary_exits (length block.body.voluntary_exits)) validation_error
    fold_list block.body.voluntary_exits process_voluntary_exit state

  unfoldable pub process_operations : BeaconState → BeaconBlock → Result BeaconState
  process_operations state block = do
    validate_correct_number_of_deposits state block config
    s1 ← process_proposer_slashings state block
    s2 ← process_attester_slashings s1 block
    s3 ← process_attestations s2 block
    s4 ← process_deposits s3 block
    process_voluntary_exits s4 block
