-- ===== src/Types/State.antt =====
-- eth2/beacon/types/states.py: the beacon state and its methods on epochs.
use trinity_eth.Base.{
  ℕ, zero, suc, ◌+◌, ◌-◌, ◌/◌, ◌==◌, ◌&&◌, leb, Bool, Option, none, some, List, [], ◌∷◌,
  if◌then◌else◌, same_bytes,
}
use trinity_eth.Types.Names.{
  Root, Hash32, BlsPubkey, Slot, Epoch, Gwei, ValidatorIndex, genesis_epoch, far_future_epoch,
}
use trinity_eth.Types.Containers.{
  Fork, BeaconBlockHeader, Eth1Data, Validator, PendingAttestation, Checkpoint,
}

pub record BeaconState : Type 0 where
  pub genesis_time : ℕ
  pub genesis_validators_root : Root
  pub slot : Slot
  pub fork : Fork
  pub latest_block_header : BeaconBlockHeader
  pub block_roots : List Root
  pub state_roots : List Hash32
  pub historical_roots : List Hash32
  pub eth1_data : Eth1Data
  pub eth1_data_votes : List Eth1Data
  pub eth1_deposit_index : ℕ
  pub validators : List Validator
  pub balances : List Gwei
  pub randao_mixes : List Hash32
  pub slashings : List Gwei
  pub previous_epoch_attestations : List PendingAttestation
  pub current_epoch_attestations : List PendingAttestation
  pub justification_bits : List Bool
  pub previous_justified_checkpoint : Checkpoint
  pub current_justified_checkpoint : Checkpoint
  pub finalized_checkpoint : Checkpoint

-- eth2/beacon/helpers.py. `slots_per_epoch` is positive (`IsValidConfig`).
abbrev pub compute_epoch_at_slot : Slot → ℕ → Epoch
compute_epoch_at_slot slot slots_per_epoch = slot / slots_per_epoch

abbrev pub current_epoch : BeaconState → ℕ → Epoch
current_epoch state slots_per_epoch = compute_epoch_at_slot state.slot slots_per_epoch

abbrev pub previous_epoch : BeaconState → ℕ → Epoch
previous_epoch state slots_per_epoch =
    let current = current_epoch state slots_per_epoch in
    if current == genesis_epoch then genesis_epoch else current - 1

abbrev pub next_epoch : BeaconState → ℕ → Epoch
next_epoch state slots_per_epoch = current_epoch state slots_per_epoch + 1

-- `Validator.is_eligible_for_activation` of validators.py, which reads the state.
abbrev pub is_eligible_for_activation : Validator → BeaconState → Bool
is_eligible_for_activation v state =
    leb v.activation_eligibility_epoch state.finalized_checkpoint.epoch
    && v.activation_epoch == far_future_epoch

-- `for index, validator in enumerate(self.validators)`, from `index` on.
abbrev pub find_public_key : BlsPubkey → List Validator → ValidatorIndex → Option ValidatorIndex
find_public_key key [] index = none
find_public_key key (v ∷ vs) index =
    if same_bytes v.pubkey key then some index else find_public_key key vs (suc index)

abbrev pub get_validator_index_for_public_key : BeaconState → BlsPubkey → Option ValidatorIndex
get_validator_index_for_public_key state public_key =
    find_public_key public_key state.validators zero
