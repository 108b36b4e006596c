-- ===== src/Genesis.antt =====
-- eth2/beacon/genesis.py, with the defaults of `create` that it uses: those of the block body, the
-- header, the checkpoints and the state.
pub mod WellFormed
pub mod Reachable
use trinity_eth.Base.{
  ℕ, ◌+◌, ltb, ◌==◌, Bool, false, not, ◌&&◌, if◌then◌else◌, List, [], ◌∷◌, ◌++◌, map, length,
  replicate, range, Result, ok, ◌>>=◌, index, update_at, fold_list, select,
}
use trinity_eth.Types.{
  Root, Hash32, Epoch, Eth1Data, Checkpoint, BeaconBlockHeader, BeaconBlockBody, BeaconBlock,
  BeaconState, Deposit, DepositData, Validator, Eth2Config, zero_hash32, empty_signature,
  genesis_epoch, calculate_effective_balance,
}
use trinity_eth.Extern.{Extern}
use trinity_eth.Helpers.{get_active_validator_indices}
use trinity_eth.ValidatorStatus.{activate_validator}
use trinity_eth.Deposits.{process_deposit}

abbrev pub default_eth1_data : Eth1Data
default_eth1_data = record {
  deposit_root = zero_hash32;
  deposit_count = 0;
  block_hash = zero_hash32;
}

abbrev pub default_block_body : BeaconBlockBody
default_block_body = record {
  randao_reveal = empty_signature;
  eth1_data = default_eth1_data;
  graffiti = zero_hash32;
  proposer_slashings = [];
  attester_slashings = [];
  attestations = [];
  deposits = [];
  voluntary_exits = [];
}

abbrev pub default_block_header : Root → BeaconBlockHeader
default_block_header body_root = record {
  slot = 0;
  proposer_index = 0;
  parent_root = zero_hash32;
  state_root = zero_hash32;
  body_root = body_root;
}

abbrev pub default_checkpoint : Checkpoint
default_checkpoint = record { epoch = 0; root = zero_hash32 }

-- `BeaconState.create(config=config)`
abbrev pub default_state : Eth2Config → BeaconState
default_state config = record {
  genesis_time = 0;
  genesis_validators_root = zero_hash32;
  slot = 0;
  fork = record { previous_version = replicate 4 0; current_version = replicate 4 0; epoch = 0 };
  latest_block_header = default_block_header zero_hash32;
  block_roots = replicate config.slots_per_historical_root zero_hash32;
  state_roots = replicate config.slots_per_historical_root zero_hash32;
  historical_roots = [];
  eth1_data = default_eth1_data;
  eth1_data_votes = [];
  eth1_deposit_index = 0;
  validators = [];
  balances = [];
  randao_mixes = replicate config.epochs_per_historical_vector zero_hash32;
  slashings = replicate config.epochs_per_slashings_vector 0;
  previous_epoch_attestations = [];
  current_epoch_attestations = [];
  justification_bits = replicate 4 false;
  previous_justified_checkpoint = default_checkpoint;
  current_justified_checkpoint = default_checkpoint;
  finalized_checkpoint = default_checkpoint;
}

module _ (ext : Extern) (config : Eth2Config) where
  unfoldable pub is_genesis_trigger : List Deposit → Result Bool
  is_genesis_trigger deposits = do
    state ←
        fold_list deposits (λ s deposit. process_deposit ext s deposit config)
          (default_state config)
    let active_validator_count =
        length (select (λ v. v.effective_balance == config.max_effective_balance) state.validators)
    ok (active_validator_count == config.min_genesis_active_validator_count)

  -- The state before its deposits.
  abbrev pub empty_genesis_state : Hash32 → ℕ → List Deposit → BeaconState
  empty_genesis_state eth1_block_hash eth1_timestamp deposits = record (default_state config) {
    genesis_time = eth1_timestamp + config.genesis_delay;
    fork = record {
      previous_version = config.genesis_fork_version;
      current_version = config.genesis_fork_version;
      epoch = genesis_epoch;
    };
    eth1_data = record {
      deposit_root = zero_hash32;
      deposit_count = length deposits;
      block_hash = eth1_block_hash;
    };
    latest_block_header = default_block_header (ext.body_root default_block_body);
    randao_mixes = replicate config.epochs_per_historical_vector eth1_block_hash;
  }

  -- A deposit after those that went before: the root is that of all of them.
  unfoldable pub genesis_deposits : BeaconState → List Deposit → List Deposit → Result BeaconState
  genesis_deposits state before [] = ok state
  genesis_deposits state before (deposit ∷ deposits) = do
    let so_far = before ++ deposit ∷ []
    let eth1_data : Eth1Data = record state.eth1_data {
      deposit_root = ext.deposit_data_list_root (map (λ d. d.deposited) so_far);
    }
    next ← process_deposit ext (record state { eth1_data = eth1_data }) deposit config
    genesis_deposits next so_far deposits

  -- A validator with its effective balance, active where that is the largest one.
  abbrev pub genesis_validator : ℕ → Validator → Validator
  genesis_validator balance v =
      let effective_balance = calculate_effective_balance balance config in
      let v' : Validator = record v { effective_balance = effective_balance } in
      if effective_balance == config.max_effective_balance
      then activate_validator v' genesis_epoch
      else v'

  unfoldable pub genesis_activation : BeaconState → ℕ → Result BeaconState
  genesis_activation state validator_index = do
    balance ← index state.balances validator_index
    validators ← update_at state.validators validator_index (genesis_validator balance)
    ok (record state { validators = validators })

  unfoldable pub initialize_beacon_state_from_eth1 : Hash32 → ℕ → List Deposit → Result BeaconState
  initialize_beacon_state_from_eth1 eth1_block_hash eth1_timestamp deposits = do
    deposited ←
        genesis_deposits (empty_genesis_state eth1_block_hash eth1_timestamp deposits) [] deposits
    state ← fold_list (range 0 (length deposited.validators)) genesis_activation deposited
    ok (record state { genesis_validators_root = ext.validators_root state.validators })

unfoldable pub is_valid_genesis_state : BeaconState → Eth2Config → Bool
is_valid_genesis_state state config =
    not (ltb state.genesis_time config.min_genesis_time)
    && not (
        ltb (length (get_active_validator_indices state.validators genesis_epoch))
          config.min_genesis_active_validator_count)

abbrev pub get_genesis_block : Hash32 → BeaconBlock
get_genesis_block genesis_state_root = record {
  slot = 0;
  proposer_index = 0;
  parent_root = zero_hash32;
  state_root = genesis_state_root;
  body = default_block_body;
}
