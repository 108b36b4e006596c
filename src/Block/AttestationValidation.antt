-- ===== src/Block/AttestationValidation.antt =====
-- eth2/beacon/state_machines/forks/serenity/block_validation.py: the checks on attestations.
use trinity_eth.Base.{
  ℕ, ◌+◌, leb, ltb, ◌==◌, not, ◌||◌, length, if◌then◌else◌, Result, ◌>>=◌, ◌>>◌, raise_if,
  validation_error,
}
use trinity_eth.Types.{
  Slot, Epoch, CommitteeIndex, Checkpoint, AttestationData, Attestation, BeaconState, current_epoch,
  previous_epoch, compute_epoch_at_slot, Eth2Config,
}
use trinity_eth.Extern.{Extern}
use trinity_eth.Committee.{get_committee_count_at_slot, get_beacon_committee}
use trinity_eth.EpochHelpers.{get_indexed_attestation}
use trinity_eth.Attestations.{validate_indexed_attestation}

unfoldable pub validate_eligible_committee_index :
    BeaconState → Slot → CommitteeIndex → ℕ → ℕ → ℕ → Result (Unit {0})
validate_eligible_committee_index state attestation_slot committee_index max_committees_per_slot
      slots_per_epoch target_committee_size =
    raise_if
      (leb
        (get_committee_count_at_slot state attestation_slot max_committees_per_slot slots_per_epoch
          target_committee_size)
        committee_index)
      validation_error

unfoldable pub validate_eligible_target_epoch : Epoch → Epoch → Epoch → Result (Unit {0})
validate_eligible_target_epoch target_epoch current previous =
    raise_if (not (target_epoch == previous || target_epoch == current)) validation_error

unfoldable pub validate_slot_matches_target_epoch : Epoch → Slot → ℕ → Result (Unit {0})
validate_slot_matches_target_epoch target_epoch attestation_slot slots_per_epoch =
    raise_if (not (target_epoch == compute_epoch_at_slot attestation_slot slots_per_epoch))
      validation_error

unfoldable pub validate_attestation_slot : Slot → Slot → ℕ → ℕ → Result (Unit {0})
validate_attestation_slot attestation_slot state_slot slots_per_epoch
      min_attestation_inclusion_delay =
    do
      raise_if (ltb state_slot (attestation_slot + min_attestation_inclusion_delay))
          validation_error
      raise_if (ltb (attestation_slot + slots_per_epoch) state_slot) validation_error

-- The source checkpoint that the target epoch calls for.
unfoldable pub expected_source : BeaconState → AttestationData → ℕ → Checkpoint
expected_source state attested slots_per_epoch =
    if attested.target.epoch == current_epoch state slots_per_epoch
    then state.current_justified_checkpoint
    else state.previous_justified_checkpoint

module _ (ext : Extern) where
  unfoldable pub validate_checkpoint : Checkpoint → Checkpoint → Result (Unit {0})
  validate_checkpoint checkpoint expected_checkpoint =
      raise_if (not (ext.same_checkpoint checkpoint expected_checkpoint)) validation_error

  unfoldable pub validate_attestation_data :
      BeaconState → AttestationData → Eth2Config → Result (Unit {0})
  validate_attestation_data state attested config = do
    validate_eligible_committee_index state attested.slot attested.index
        config.max_committees_per_slot config.slots_per_epoch config.target_committee_size
    validate_eligible_target_epoch attested.target.epoch
        (current_epoch state config.slots_per_epoch) (previous_epoch state config.slots_per_epoch)
    validate_slot_matches_target_epoch attested.target.epoch attested.slot config.slots_per_epoch
    validate_attestation_slot attested.slot state.slot config.slots_per_epoch
        config.min_attestation_inclusion_delay
    validate_checkpoint attested.source (expected_source state attested config.slots_per_epoch)

  unfoldable pub validate_aggregation_bits :
      BeaconState → Attestation → Eth2Config → Result (Unit {0})
  validate_aggregation_bits state attestation config = do
    committee ←
        get_beacon_committee ext state attestation.attested.slot attestation.attested.index config
    raise_if (not (length attestation.aggregation_bits == length committee)) validation_error

  unfoldable pub validate_attestation : BeaconState → Attestation → Eth2Config → Result (Unit {0})
  validate_attestation state attestation config = do
    validate_attestation_data state attestation.attested config
    validate_aggregation_bits state attestation config
    indexed ← get_indexed_attestation ext state attestation config
    validate_indexed_attestation ext state indexed config.slots_per_epoch
