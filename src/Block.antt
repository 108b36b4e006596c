-- ===== src/Block.antt =====
-- eth2/beacon/state_machines/forks/serenity/block_processing.py.
pub mod Slashings
pub mod Inclusion
pub mod Exits
pub mod Header
pub mod WellFormed
pub mod Validation
pub mod AttestationValidation
pub mod Operations
use trinity_eth.Base.{
  ℕ, ◌+◌, ◌*◌, ◌%◌, suc, ltb, Bool, if◌then◌else◌, List, [], ◌∷◌, ◌++◌, Result, ok, ◌>>=◌, ◌>>◌,
  update_at,
}
use trinity_eth.Types.{Eth1Data, zero_hash32, BeaconState, current_epoch, BeaconBlock, Eth2Config}
use trinity_eth.Extern.{Extern}
use trinity_eth.Utils.Bytes.{bitwise_xor}
use trinity_eth.Helpers.{get_randao_mix}
use trinity_eth.Committee.{get_beacon_proposer_index}
use Validation.{
  validate_block_slot, validate_block_is_new, validate_proposer_index, validate_block_parent_root,
  validate_proposer_is_not_slashed, validate_randao_reveal,
}
use Operations.{process_operations}

module _ (ext : Extern) where
  unfoldable pub process_block_header : BeaconState → BeaconBlock → Eth2Config → Result BeaconState
  process_block_header state block config = do
    validate_block_slot state block
    validate_block_is_new state block
    validate_proposer_index ext state block config
    validate_block_parent_root ext state block
    validate_proposer_is_not_slashed ext state config
    ok (record state {
      latest_block_header = record {
        slot = block.slot;
        proposer_index = block.proposer_index;
        parent_root = block.parent_root;
        state_root = zero_hash32;
        body_root = ext.body_root block.body;
      };
    })

  unfoldable pub process_randao : BeaconState → BeaconBlock → Eth2Config → Result BeaconState
  process_randao state block config = do
    proposer_index ← get_beacon_proposer_index ext state config
    let epoch = current_epoch state config.slots_per_epoch
    validate_randao_reveal ext state proposer_index epoch block.body.randao_reveal
        config.slots_per_epoch
    mix ← get_randao_mix state epoch config.epochs_per_historical_vector
    randao_mixes ←
        update_at state.randao_mixes (epoch % config.epochs_per_historical_vector)
          (λ _. bitwise_xor mix (ext.sha256 block.body.randao_reveal))
    ok (record state { randao_mixes = randao_mixes })

  -- `votes.count(vote)`
  abbrev pub count_votes : Eth1Data → List Eth1Data → ℕ
  count_votes vote [] = 0
  count_votes vote (v ∷ votes) =
      if ext.same_eth1_data v vote then suc (count_votes vote votes) else count_votes vote votes

  unfoldable pub process_eth1_data : BeaconState → BeaconBlock → Eth2Config → BeaconState
  process_eth1_data state block config =
      let votes = state.eth1_data_votes ++ block.body.eth1_data ∷ [] in
      record state {
        eth1_data =
            if ltb (config.epochs_per_eth1_voting_period * config.slots_per_epoch)
              (count_votes block.body.eth1_data votes * 2)
            then block.body.eth1_data
            else state.eth1_data;
        eth1_data_votes = votes;
      }

  unfoldable pub process_block : BeaconState → BeaconBlock → Eth2Config → Result BeaconState
  process_block state block config = do
    s1 ← process_block_header state block config
    s2 ← process_randao s1 block config
    process_operations ext config (process_eth1_data s2 block config) block
