-- ===== src/Epoch/Justification.antt =====
-- eth2/beacon/state_machines/forks/serenity/epoch_processing.py, justification and finalization.
pub mod Casper
pub mod WellFormed
use trinity_eth.Base.{
  ℕ, ◌+◌, ◌*◌, leb, ◌==◌, not, ◌&&◌, Bool, true, false, if◌then◌else◌, List, ◌∷◌, all_but_last,
  slice, all_set, Result, ok, ◌>>=◌,
}
use trinity_eth.Types.{
  Epoch, Gwei, ValidatorIndex, genesis_epoch, Checkpoint, PendingAttestation, BeaconState,
  current_epoch, previous_epoch, Eth2Config,
}
use trinity_eth.Extern.{Extern}
use trinity_eth.Utils.Bitfield.{update_tuple_item}
use trinity_eth.Helpers.{get_block_root, get_total_balance}
use trinity_eth.EpochHelpers.{
  get_attesting_balance, get_total_active_balance, get_matching_target_attestations,
}

abbrev pub bft_threshold_met : Gwei → Gwei → Bool
bft_threshold_met participation total = leb (2 * total) (3 * participation)

abbrev pub determine_updated_justification_data :
    Epoch → List Bool → Bool → Epoch → ℕ → Result (Epoch × List Bool)
determine_updated_justification_data justified_epoch bitfield is_epoch_justifiable candidate_epoch
      bit_offset =
    if is_epoch_justifiable
    then (update_tuple_item bitfield bit_offset true >>= λ bits. ok (candidate_epoch, bits))
    else ok (justified_epoch, bitfield)

unfoldable pub determine_updated_justifications :
    Bool → Epoch → Bool → Epoch → Epoch → List Bool → Result (Epoch × List Bool)
determine_updated_justifications previous_epoch_justifiable previous current_epoch_justifiable
      current justified_epoch justification_bits =
    determine_updated_justification_data justified_epoch justification_bits
      previous_epoch_justifiable previous 1
    >>= λ updated.
        determine_updated_justification_data updated.0 updated.1 current_epoch_justifiable current 0

abbrev pub bitfield_matches : List Bool → ℕ → ℕ → Bool
bitfield_matches bitfield start stop = all_set (slice start stop bitfield)

-- Each rule may replace what the rules before it chose.
abbrev pub finalize_if : Bool → Epoch → Epoch → Epoch
finalize_if applies candidate chosen = if applies then candidate else chosen

unfoldable pub determine_new_finalized_epoch : Epoch → Epoch → Epoch → Epoch → List Bool → Epoch
determine_new_finalized_epoch last_finalized_epoch previous_justified_epoch current_justified_epoch
      current bits =
    finalize_if (bitfield_matches bits 0 2 && current_justified_epoch + 1 == current)
      current_justified_epoch
      (finalize_if (bitfield_matches bits 0 3 && current_justified_epoch + 2 == current)
        current_justified_epoch
        (finalize_if (bitfield_matches bits 1 3 && previous_justified_epoch + 2 == current)
          previous_justified_epoch
          (finalize_if (bitfield_matches bits 1 4 && previous_justified_epoch + 3 == current)
            previous_justified_epoch last_finalized_epoch)))

-- The root is looked up only for an epoch that is new.
unfoldable pub checkpoint_at : BeaconState → Epoch → Checkpoint → Eth2Config → Result Checkpoint
checkpoint_at state epoch old config =
    if not (epoch == old.epoch)
    then (get_block_root state epoch config.slots_per_epoch config.slots_per_historical_root
        >>= λ root. ok (record { epoch = epoch; root = root }))
    else ok (record { epoch = epoch; root = old.root })

unfoldable pub determine_new_finalized_checkpoint :
    BeaconState → List Bool → Eth2Config → Result Checkpoint
determine_new_finalized_checkpoint state justification_bits config =
    checkpoint_at state
      (determine_new_finalized_epoch state.finalized_checkpoint.epoch
        state.previous_justified_checkpoint.epoch state.current_justified_checkpoint.epoch
        (current_epoch state config.slots_per_epoch) justification_bits)
      state.finalized_checkpoint config

unfoldable pub is_threshold_met_against_committee :
    BeaconState → List ValidatorIndex → List ValidatorIndex → Eth2Config → Result Bool
is_threshold_met_against_committee state attesting_indices committee config = do
  total_attesting_balance ← get_total_balance state attesting_indices config
  total_committee_balance ← get_total_balance state committee config
  ok (bft_threshold_met total_attesting_balance total_committee_balance)

module _ (ext : Extern) where
  unfoldable pub is_threshold_met_against_active_set :
      BeaconState → List PendingAttestation → Eth2Config → Result Bool
  is_threshold_met_against_active_set state attestations config = do
    attesting_balance ← get_attesting_balance ext state attestations config
    total_balance ← get_total_active_balance state config
    ok (bft_threshold_met attesting_balance total_balance)

  unfoldable pub is_epoch_justifiable : BeaconState → Epoch → Eth2Config → Result Bool
  is_epoch_justifiable state epoch config = do
    attestations ← get_matching_target_attestations state epoch config
    is_threshold_met_against_active_set state attestations config

  unfoldable pub determine_new_justified_epoch_and_bitfield :
      BeaconState → Eth2Config → Result (Epoch × List Bool)
  determine_new_justified_epoch_and_bitfield state config = do
    let previous = previous_epoch state config.slots_per_epoch
    let current = current_epoch state config.slots_per_epoch
    previous_epoch_justifiable ← is_epoch_justifiable state previous config
    current_epoch_justifiable ← is_epoch_justifiable state current config
    determine_updated_justifications previous_epoch_justifiable previous current_epoch_justifiable
        current state.current_justified_checkpoint.epoch
        (false ∷ all_but_last state.justification_bits)

  unfoldable pub determine_new_justified_checkpoint_and_bitfield :
      BeaconState → Eth2Config → Result (Checkpoint × List Bool)
  determine_new_justified_checkpoint_and_bitfield state config = do
    justified ← determine_new_justified_epoch_and_bitfield state config
    checkpoint ← checkpoint_at state justified.0 state.current_justified_checkpoint config
    ok (checkpoint, justified.1)

  unfoldable pub process_justification_and_finalization :
      BeaconState → Eth2Config → Result BeaconState
  process_justification_and_finalization state config =
      if leb (current_epoch state config.slots_per_epoch) (genesis_epoch + 1) then ok state else do
        justified ← determine_new_justified_checkpoint_and_bitfield state config
        finalized ← determine_new_finalized_checkpoint state justified.1 config
        ok (record state {
          justification_bits = justified.1;
          previous_justified_checkpoint = state.current_justified_checkpoint;
          current_justified_checkpoint = justified.0;
          finalized_checkpoint = finalized;
        })
