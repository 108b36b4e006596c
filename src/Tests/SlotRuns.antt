-- ===== src/Tests/SlotRuns.antt =====
-- Slot processing and the state transition on the small state.
use trinity_eth.Base.{
  List, length, ◌∷◌, arith, ◌>>=◌, raise, validation_error, ◌≡◌, refl, ok, get_ok, true, none, some,
  [],
}
use trinity_eth.Types.{
  AttesterSlashing, IndexedAttestation, Attestation, ValidatorIndex, BeaconState, BeaconBlock,
  SignedBeaconBlock, zero_hash32,
}
use trinity_eth.Invariant.{IsWellFormed}
use trinity_eth.Slots.{process_slots, apply_state_transition}
use trinity_eth.Slots.Stages.{process_slots_stages}
use trinity_eth.Block.{process_block_header}
use trinity_eth.Committee.{get_beacon_committee}
use trinity_eth.Block.AttestationValidation.{validate_attestation}
use trinity_eth.Block.Inclusion.{Includable, validate_attestation-Includable}
use trinity_eth.Block.Validation.{validate_attester_slashing}
use trinity_eth.Block.Slashings.{IsOffence, validate_attester_slashing-IsOffence}
use trinity_eth.Block.Header.{process_block_header_once}
use trinity_eth.Slots.WellFormed.{process_slots-IsWellFormed, apply_state_transition-IsWellFormed}
use trinity_eth.Tests.Running.{run}
use trinity_eth.Tests.Fixtures.{checkpoint_of, ext, config, root_of, state, state-IsWellFormed}

abbrev advanced : BeaconState
advanced = get_ok state (process_slots ext state 11 config)

advanced_lem : process_slots ext state 11 config ≡ ok advanced
unfolding run
advanced_lem = refl

process_slots-IsWellFormed_example : IsWellFormed config 11 advanced
process_slots-IsWellFormed_example =
    process_slots-IsWellFormed ext config state advanced state-IsWellFormed 11 advanced_lem

abbrev block : BeaconBlock
block = record {
  slot = 10;
  proposer_index = 0;
  parent_root = root_of 2;
  state_root = zero_hash32;
  body = record {
    randao_reveal = root_of 30;
    eth1_data = record { deposit_root = root_of 14; deposit_count = 3; block_hash = root_of 21 };
    graffiti = zero_hash32;
    proposer_slashings = [];
    attester_slashings = [];
    attestations = [];
    deposits = [];
    voluntary_exits = [];
  };
}

abbrev signed_block : SignedBeaconBlock
signed_block = record { message = block; signature = root_of 31 }

abbrev accepted : BeaconState
accepted = get_ok state (apply_state_transition ext config state (some signed_block) none true)

accepted_lem : apply_state_transition ext config state (some signed_block) none true ≡ ok accepted
unfolding run
accepted_lem = refl

apply_state_transition-IsWellFormed_example : IsWellFormed config 10 accepted
apply_state_transition-IsWellFormed_example =
    apply_state_transition-IsWellFormed ext config state accepted state-IsWellFormed signed_block
      none true accepted_lem

process_slots_stages_example :
    process_slots ext state 13 config
    ≡ (process_slots ext state 12 config >>= λ t. process_slots ext t 13 config)
process_slots_stages_example =
    process_slots_stages ext config state 12 13 state-IsWellFormed (omega arith) (omega arith)

abbrev headed : BeaconState
headed = get_ok state (process_slots ext state 10 config)

abbrev header_state : BeaconState
header_state = get_ok state (process_block_header ext headed block config)

header_state_lem : process_block_header ext headed block config ≡ ok header_state
unfolding run
header_state_lem = refl

process_block_header_once_example :
    process_block_header ext header_state block config ≡ raise validation_error
process_block_header_once_example =
    process_block_header_once ext config headed header_state block block header_state_lem

abbrev attestation : Attestation
attestation = record {
  aggregation_bits = true ∷ [];
  attested = record {
    slot = 9;
    index = 0;
    beacon_block_root = root_of 2;
    source = checkpoint_of 1;
    target = checkpoint_of 2;
  };
  signature = root_of 33;
}

attestation_lem : validate_attestation ext headed attestation config ≡ ok tt
unfolding run
attestation_lem = refl

validate_attestation-Includable_example :
    Includable ext headed attestation.attested config
    × ((committee : List ValidatorIndex) × (get_beacon_committee ext headed 9 0 config
          ≡ ok committee)
        × (1 ≡ length committee))
validate_attestation-Includable_example =
    validate_attestation-Includable ext headed config attestation attestation_lem

abbrev indexed : IndexedAttestation
indexed = record {
  attesting_indices = 0 ∷ 2 ∷ [];
  attested = attestation.attested;
  signature = root_of 33;
}

abbrev slashing : AttesterSlashing
slashing = record {
  attestation_1 = indexed;
  attestation_2 = record indexed {
    attested = record indexed.attested { beacon_block_root = root_of 3 };
  };
}

slashing_lem : validate_attester_slashing ext headed slashing 4 ≡ ok tt
unfolding run
slashing_lem = refl

validate_attester_slashing-IsOffence_example : IsOffence ext slashing
validate_attester_slashing-IsOffence_example =
    validate_attester_slashing-IsOffence ext headed slashing 4 slashing_lem
