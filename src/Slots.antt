-- ===== src/Slots.antt =====
-- eth2/beacon/state_machines/forks/serenity/slot_processing.py and state_transitions.py.
pub mod Stages
pub mod WellFormed
use trinity_eth.Base.{
  ℕ, zero, suc, ◌+◌, ◌-◌, ◌%◌, ltb, ◌==◌, Bool, true, false, if◌then◌else◌, Option, none, some,
  List, same_bytes, Result, ok, raise, ◌>>=◌, ◌>>◌, raise_if, or_raise, update_at, validation_error,
  assertion_error, out_of_rounds,
}
use trinity_eth.Types.{Root, Hash32, Slot, zero_hash32, BeaconState, SignedBeaconBlock, Eth2Config}
use trinity_eth.Extern.{Extern}
use trinity_eth.Epoch.{process_epoch}
use trinity_eth.Block.{process_block}
use trinity_eth.Block.Validation.{validate_proposer_signature}

unfoldable pub update_historical_root : List Hash32 → Slot → ℕ → Hash32 → Result (List Hash32)
update_historical_root roots i slots_per_historical_root new_root =
    update_at roots (i % slots_per_historical_root) (λ _. new_root)

unfoldable pub increment_slot : BeaconState → BeaconState
increment_slot state = record state { slot = state.slot + 1 }

module _ (ext : Extern) where
  -- The state root goes into the header only where the header's is still empty.
  unfoldable pub fill_state_root : Hash32 → BeaconState → BeaconState
  fill_state_root previous_state_root state =
      if same_bytes state.latest_block_header.state_root zero_hash32
      then record state {
        latest_block_header = record state.latest_block_header { state_root = previous_state_root };
      }
      else state

  unfoldable pub process_slot : BeaconState → Eth2Config → Result BeaconState
  unfolding fill_state_root
  process_slot state config = do
    let previous_state_root = ext.state_root state
    updated_state_roots ←
        update_historical_root state.state_roots state.slot config.slots_per_historical_root
          previous_state_root
    let filled = fill_state_root previous_state_root state
    updated_block_roots ←
        update_historical_root filled.block_roots filled.slot config.slots_per_historical_root
          (ext.header_root filled.latest_block_header)
    ok (record filled { block_roots = updated_block_roots; state_roots = updated_state_roots })

  -- The body of the `while` loop.
  unfoldable pub advance_slot : Eth2Config → BeaconState → Result BeaconState
  advance_slot config state = do
    processed ← process_slot state config
    closed ←
        (if (processed.slot + 1) % config.slots_per_epoch == 0
          then process_epoch ext processed config
          else ok processed)
    ok (increment_slot closed)

  -- `while state.slot < slot`, with fuel.
  unfoldable pub slots_loop : ℕ → Eth2Config → Slot → BeaconState → Result BeaconState
  slots_loop zero config slot state = if ltb state.slot slot then raise out_of_rounds else ok state
  slots_loop (suc fuel) config slot state = elim (ltb state.slot slot) [
    | true ↦ advance_slot config state >>= slots_loop fuel config slot
    | false ↦ ok state
  ]

  -- The fuel is the number of slots that are left.
  unfoldable pub process_slots : BeaconState → Slot → Eth2Config → Result BeaconState
  unfolding slots_loop
  process_slots state slot config = do
    raise_if (ltb slot state.slot) validation_error
    slots_loop (slot - state.slot) config slot state

  -- With a block, whose slot is the target; `check_proposer_signature` is the last argument.
  unfoldable pub apply_block :
      Eth2Config → BeaconState → SignedBeaconBlock → Bool → Result BeaconState
  apply_block config state signed_block check_proposer_signature = do
    advanced ← process_slots state signed_block.message.slot config
    (if check_proposer_signature
        then validate_proposer_signature ext advanced signed_block config
        else ok tt)
    process_block ext advanced signed_block.message config

  unfoldable pub apply_state_transition :
      Eth2Config → BeaconState → Option SignedBeaconBlock → Option Slot → Bool → Result BeaconState
  unfolding apply_block
  apply_state_transition config state (some signed_block) future_slot check_proposer_signature =
      apply_block config state signed_block check_proposer_signature
  apply_state_transition config state none future_slot check_proposer_signature =
      or_raise future_slot assertion_error >>= λ slot. process_slots state slot config
