-- ===== src/ForkChoice/LmdGhost.antt =====
-- eth2/beacon/fork_choice/lmd_ghost2.py, `LMDGHOSTForkChoice`, for one configuration. The calls of
-- the block sink are returned beside the fork choice.
use trinity_eth.Base.{
  ltb, ◌==◌, Bool, if◌then◌else◌, List, [], ◌∷◌, map, Result, ok, ◌>>=◌, for_each, index,
}
use trinity_eth.Types.{
  Root, Epoch, Gwei, ValidatorIndex, zero_hash32, genesis_slot, BeaconBlock, BeaconState,
  Checkpoint, Eth2Config, compute_epoch_at_slot, current_epoch,
}
use trinity_eth.Extern.{Extern}
use trinity_eth.Helpers.{get_active_validator_indices}
use trinity_eth.ForkChoice.ProtoArray.{BlockNode}
use trinity_eth.ForkChoice.Votes
use trinity_eth.ForkChoice.Votes.{ProtoArrayForkChoice}

pub record LmdGhostForkChoice : Type 0 where
  pub impl : ProtoArrayForkChoice
  pub justified : Checkpoint
  pub finalized : Checkpoint

abbrev pub SinkCalls : Type 0
SinkCalls = List (BeaconBlock × Bool)

module _ (ext : Extern) (config : Eth2Config) where
  unfoldable pub block_to_block_node : BeaconBlock → BlockNode
  block_to_block_node block = record {
    slot = block.slot;
    root = if block.slot == genesis_slot then zero_hash32 else ext.block_root block;
    block = block;
  }

  -- `max` by epoch, which keeps the old checkpoint where the epochs are the same.
  abbrev pub later_checkpoint : Checkpoint → Checkpoint → Checkpoint
  later_checkpoint old new = if ltb old.epoch new.epoch then new else old

  -- The effective balances of the validators that are active.
  unfoldable pub justified_balances : BeaconState → Result (List Gwei)
  justified_balances state =
      for_each
        (get_active_validator_indices state.validators (current_epoch state config.slots_per_epoch))
        (λ i. index state.validators i >>= λ v. ok v.effective_balance)

  unfoldable pub on_justified_state :
      LmdGhostForkChoice → BeaconState → Result (SinkCalls × LmdGhostForkChoice)
  on_justified_state f state = do
    let justified = later_checkpoint f.justified state.current_justified_checkpoint
    let finalized = later_checkpoint f.finalized state.finalized_checkpoint
    pruned ← Votes.prune_to f.impl finalized.root
    balances ← justified_balances state
    impl ← Votes.update_justified pruned.1 justified finalized balances
    ok (pruned.0, record f { impl = impl; justified = justified; finalized = finalized })

  unfoldable pub new_lmd_ghost :
      BlockNode → Checkpoint → BeaconState → Result (SinkCalls × LmdGhostForkChoice)
  new_lmd_ghost finalized_block_node justified_checkpoint justified_state = do
    let finalized_checkpoint : Checkpoint = record {
      epoch = compute_epoch_at_slot finalized_block_node.slot config.slots_per_epoch;
      root = finalized_block_node.root;
    }
    impl ←
        Votes.new_fork_choice finalized_block_node finalized_checkpoint justified_checkpoint config
    on_justified_state
        (record { impl = impl; justified = justified_checkpoint; finalized = finalized_checkpoint })
        justified_state

  unfoldable pub on_new_block : LmdGhostForkChoice → BeaconBlock → Result LmdGhostForkChoice
  on_new_block f block =
      Votes.process_block f.impl (block_to_block_node block) block.parent_root f.justified.epoch
        f.finalized.epoch
      >>= λ impl. ok (record f { impl = impl })

  abbrev pub attest_all :
      ProtoArrayForkChoice → Root → Epoch → List ValidatorIndex → ProtoArrayForkChoice
  attest_all impl block_root target_epoch [] = impl
  attest_all impl block_root target_epoch (i ∷ indices) =
      attest_all (Votes.process_attestation impl i block_root target_epoch) block_root target_epoch
        indices

  unfoldable pub on_attestation :
      LmdGhostForkChoice → Root → Epoch → List ValidatorIndex → LmdGhostForkChoice
  on_attestation f block_root target_epoch indices = record f {
    impl = attest_all f.impl block_root target_epoch indices;
  }

  unfoldable pub find_head_block : LmdGhostForkChoice → Result (BeaconBlock × LmdGhostForkChoice)
  find_head_block f =
      Votes.find_best f.impl >>= λ found. ok (found.0.block, record f { impl = found.1 })

  unfoldable pub get_canonical_chain :
      LmdGhostForkChoice → Result (List BeaconBlock × LmdGhostForkChoice)
  get_canonical_chain f = Votes.get_canonical_nodes f.impl f.finalized.root >>= λ found.
      ok (map (λ n. n.block) found.0, record f { impl = found.1 })
