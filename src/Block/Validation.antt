-- ===== src/Block/Validation.antt =====
-- eth2/beacon/state_machines/forks/serenity/block_validation.py: the checks on a block's header
-- and on the operations that are not attestations.
use trinity_eth.Base.{
  ℕ, ◌+◌, leb, ltb, ◌==◌, not, Bool, none, some, [], ◌∷◌, length, same_bytes, ℤ, pos, sub_ℕ, ltb_ℤ,
  Result, ◌>>=◌, ◌>>◌, raise_if, index, validation_error, if◌then◌else◌, false,
}
use trinity_eth.Types.{
  BlsPubkey, BlsSignature, Epoch, ValidatorIndex, domain_beacon_proposer, domain_randao,
  domain_voluntary_exit, far_future_epoch, Validator, is_active, is_slashable, BeaconState,
  current_epoch, compute_epoch_at_slot, BeaconBlock, SignedBeaconBlock, SignedBeaconBlockHeader,
  ProposerSlashing, AttesterSlashing, IndexedAttestation, SignedVoluntaryExit, Eth2Config,
}
use trinity_eth.Extern.{Extern}
use trinity_eth.Utils.Bls.{validate}
use trinity_eth.Helpers.{get_domain, compute_signing_root}
use trinity_eth.Committee.{get_beacon_proposer_index}
use trinity_eth.Attestations.{
  signature_as_validation, is_slashable_attestation_data, validate_indexed_attestation,
}

-- `min(a, b)` on integers of either sign, with `a` not negative.
abbrev pub min_ℤ : ℕ → ℤ → ℤ
min_ℤ a b = if ltb_ℤ b (pos a) then b else pos a

-- `n != z` for a length `n`.
abbrev pub equals_ℤ : ℕ → ℤ → Bool
equals_ℤ n (pos m) = n == m
equals_ℤ n z = false

unfoldable pub validate_correct_number_of_deposits :
    BeaconState → BeaconBlock → Eth2Config → Result (Unit {0})
validate_correct_number_of_deposits state block config =
    let expected =
      min_ℤ config.max_deposits (sub_ℕ state.eth1_data.deposit_count state.eth1_deposit_index) in
    raise_if (not (equals_ℤ (length block.body.deposits) expected)) validation_error

unfoldable pub validate_block_slot : BeaconState → BeaconBlock → Result (Unit {0})
validate_block_slot state block = raise_if (not (block.slot == state.slot)) validation_error

unfoldable pub validate_block_is_new : BeaconState → BeaconBlock → Result (Unit {0})
validate_block_is_new state block =
    raise_if (leb block.slot state.latest_block_header.slot) validation_error

unfoldable pub validate_proposer_slashing_slot : ProposerSlashing → Result (Unit {0})
validate_proposer_slashing_slot s =
    raise_if (not (s.signed_header_1.message.slot == s.signed_header_2.message.slot))
      validation_error

unfoldable pub validate_proposer_slashing_is_slashable :
    BeaconState → Validator → ℕ → Result (Unit {0})
validate_proposer_slashing_is_slashable state proposer slots_per_epoch =
    raise_if (not (is_slashable proposer (current_epoch state slots_per_epoch))) validation_error

unfoldable pub validate_some_slashing : Bool → Result (Unit {0})
validate_some_slashing slashed_any = raise_if (not slashed_any) validation_error

unfoldable pub validate_validator_is_active : Validator → Epoch → Result (Unit {0})
validate_validator_is_active validator target_epoch =
    raise_if (not (is_active validator target_epoch)) validation_error

unfoldable pub validate_validator_has_not_exited : Validator → Result (Unit {0})
validate_validator_has_not_exited validator =
    raise_if (not (validator.exit_epoch == far_future_epoch)) validation_error

unfoldable pub validate_eligible_exit_epoch : Epoch → Epoch → Result (Unit {0})
validate_eligible_exit_epoch exit_epoch current = raise_if (ltb current exit_epoch) validation_error

unfoldable pub validate_validator_minimum_lifespan : Validator → Epoch → ℕ → Result (Unit {0})
validate_validator_minimum_lifespan validator current shard_committee_period =
    raise_if (ltb current (validator.activation_epoch + shard_committee_period)) validation_error

module _ (ext : Extern) where
  unfoldable pub validate_proposer_index :
      BeaconState → BeaconBlock → Eth2Config → Result (Unit {0})
  validate_proposer_index state block config = do
    expected_proposer ← get_beacon_proposer_index ext state config
    raise_if (not (block.proposer_index == expected_proposer)) validation_error

  unfoldable pub validate_block_parent_root : BeaconState → BeaconBlock → Result (Unit {0})
  validate_block_parent_root state block =
      raise_if (not (same_bytes block.parent_root (ext.header_root state.latest_block_header)))
        validation_error

  -- The block's root serves only the message of the error.
  unfoldable pub validate_proposer_is_not_slashed : BeaconState → Eth2Config → Result (Unit {0})
  validate_proposer_is_not_slashed state config = do
    proposer_index ← get_beacon_proposer_index ext state config
    proposer ← index state.validators proposer_index
    raise_if proposer.slashed validation_error

  unfoldable pub validate_proposer_signature :
      BeaconState → SignedBeaconBlock → Eth2Config → Result (Unit {0})
  validate_proposer_signature state signed_block config = do
    proposer_index ← get_beacon_proposer_index ext state config
    proposer ← index state.validators proposer_index
    let domain = get_domain ext state domain_beacon_proposer config.slots_per_epoch none
    let signing_root = compute_signing_root ext (ext.block_root signed_block.message) domain
    signature_as_validation
        (validate ext signing_root signed_block.signature (proposer.pubkey ∷ []))

  unfoldable pub validate_randao_reveal :
      BeaconState → ValidatorIndex → Epoch → BlsSignature → ℕ → Result (Unit {0})
  validate_randao_reveal state proposer_index epoch randao_reveal slots_per_epoch = do
    proposer ← index state.validators proposer_index
    let domain = get_domain ext state domain_randao slots_per_epoch none
    let signing_root = compute_signing_root ext (ext.uint64_root epoch) domain
    signature_as_validation (validate ext signing_root randao_reveal (proposer.pubkey ∷ []))

  unfoldable pub validate_proposer_slashing_headers : ProposerSlashing → Result (Unit {0})
  validate_proposer_slashing_headers s = do
    raise_if
        (not (s.signed_header_1.message.proposer_index == s.signed_header_2.message.proposer_index))
        validation_error
    raise_if (ext.same_signed_header s.signed_header_1 s.signed_header_2) validation_error

  unfoldable pub validate_block_header_signature :
      BeaconState → SignedBeaconBlockHeader → BlsPubkey → ℕ → Result (Unit {0})
  validate_block_header_signature state header pubkey slots_per_epoch =
      let domain =
        get_domain ext state domain_beacon_proposer slots_per_epoch
          (some (compute_epoch_at_slot header.message.slot slots_per_epoch)) in
      let signing_root = compute_signing_root ext (ext.header_root header.message) domain in
      signature_as_validation (validate ext signing_root header.signature (pubkey ∷ []))

  unfoldable pub validate_proposer_slashing : BeaconState → ProposerSlashing → ℕ → Result (Unit {0})
  validate_proposer_slashing state s slots_per_epoch = do
    proposer ← index state.validators s.signed_header_1.message.proposer_index
    validate_proposer_slashing_slot s
    validate_proposer_slashing_headers s
    validate_proposer_slashing_is_slashable state proposer slots_per_epoch
    validate_block_header_signature state s.signed_header_1 proposer.pubkey slots_per_epoch
    validate_block_header_signature state s.signed_header_2 proposer.pubkey slots_per_epoch

  unfoldable pub validate_is_slashable_attestation_data :
      IndexedAttestation → IndexedAttestation → Result (Unit {0})
  validate_is_slashable_attestation_data attestation_1 attestation_2 =
      raise_if
        (not (is_slashable_attestation_data ext attestation_1.attested attestation_2.attested))
        validation_error

  -- The source's `max_validators_per_committee` is not used.
  unfoldable pub validate_attester_slashing : BeaconState → AttesterSlashing → ℕ → Result (Unit {0})
  validate_attester_slashing state s slots_per_epoch = do
    validate_is_slashable_attestation_data s.attestation_1 s.attestation_2
    validate_indexed_attestation ext state s.attestation_1 slots_per_epoch
    validate_indexed_attestation ext state s.attestation_2 slots_per_epoch

  unfoldable pub validate_voluntary_exit_signature :
      BeaconState → SignedVoluntaryExit → Validator → ℕ → Result (Unit {0})
  validate_voluntary_exit_signature state signed_exit validator slots_per_epoch =
      let domain =
        get_domain ext state domain_voluntary_exit slots_per_epoch
          (some signed_exit.message.epoch) in
      let signing_root =
        compute_signing_root ext (ext.voluntary_exit_root signed_exit.message) domain in
      signature_as_validation
        (validate ext signing_root signed_exit.signature (validator.pubkey ∷ []))

  unfoldable pub validate_voluntary_exit :
      BeaconState → SignedVoluntaryExit → ℕ → ℕ → Result (Unit {0})
  validate_voluntary_exit state signed_exit slots_per_epoch shard_committee_period = do
    validator ← index state.validators signed_exit.message.validator_index
    let current = current_epoch state slots_per_epoch
    validate_validator_is_active validator current
    validate_validator_has_not_exited validator
    validate_eligible_exit_epoch signed_exit.message.epoch current
    validate_validator_minimum_lifespan validator current shard_committee_period
    validate_voluntary_exit_signature state signed_exit validator slots_per_epoch
