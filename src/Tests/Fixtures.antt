-- ===== src/Tests/Fixtures.antt =====
-- A small configuration, stand-ins for the code outside the repository, and a state with three
-- validators in the middle of epoch 2.
use trinity_eth.Base.{
  ℕ, ◌%◌, true, false, [], ◌∷◌, sum, replicate, length-replicate, same_bytes, arith,
}
use trinity_eth.Types.{
  Bytes, Root, Hash32, Gwei, far_future_epoch, Eth2Config, IsValidConfig, Validator, Checkpoint,
  BeaconState, zero_hash32,
}
use trinity_eth.Extern.{Extern, HashesTo32}
use trinity_eth.Invariant.{IsWellFormed}

-- A digest that depends on the message only by the sum of its bytes.
abbrev pub sum_digest : Bytes → Hash32
sum_digest b = replicate 32 (sum b % 256)

abbrev pub root_of : ℕ → Root
root_of n = replicate 32 n

abbrev pub ext : Extern
ext = record {
  sha256 = sum_digest;
  state_root = λ s. root_of 1;
  header_root = λ h. root_of 2;
  block_root = λ b. root_of 3;
  body_root = λ b. root_of 4;
  attestation_data_root = λ a. root_of 5;
  deposit_message_root = λ m. root_of 6;
  deposit_data_root = λ d. root_of 7;
  voluntary_exit_root = λ e. root_of 8;
  uint64_root = λ e. root_of 9;
  fork_data_root = λ f. root_of 10;
  signing_data_root = λ s. root_of 11;
  historical_batch_root = λ b. root_of 12;
  validators_root = λ vs. root_of 13;
  deposit_data_list_root = λ ds. root_of 14;
  same_checkpoint = λ a b. same_bytes a.root b.root;
  same_attestation_data = λ a b. same_bytes a.beacon_block_root b.beacon_block_root;
  same_signed_header = λ a b. same_bytes a.signature b.signature;
  same_eth1_data = λ a b. same_bytes a.block_hash b.block_hash;
  is_noop_backend = true;
  verify = λ key message signature. true;
  fast_aggregate_verify = λ keys message signature. true;
  proposer_rounds = 100;
}

pub ext-HashesTo32 : HashesTo32 ext
ext-HashesTo32 b = length-replicate 32 (sum b % 256)

abbrev pub config : Eth2Config
config = record {
  max_committees_per_slot = 2;
  target_committee_size = 1;
  max_validators_per_committee = 8;
  min_per_epoch_churn_limit = 1;
  churn_limit_quotient = 4;
  shuffle_round_count = 3;
  hysteresis_quotient = 4;
  hysteresis_downward_multiplier = 1;
  hysteresis_upward_multiplier = 5;
  min_genesis_active_validator_count = 2;
  min_genesis_time = 0;
  max_effective_balance = 32;
  ejection_balance = 16;
  effective_balance_increment = 4;
  genesis_fork_version = 0 ∷ 0 ∷ 0 ∷ 0 ∷ [];
  genesis_delay = 10;
  min_attestation_inclusion_delay = 1;
  slots_per_epoch = 4;
  min_seed_lookahead = 1;
  max_seed_lookahead = 2;
  min_epochs_to_inactivity_penalty = 4;
  epochs_per_eth1_voting_period = 2;
  slots_per_historical_root = 8;
  min_validator_withdrawability_delay = 4;
  shard_committee_period = 1;
  epochs_per_historical_vector = 8;
  epochs_per_slashings_vector = 4;
  base_reward_factor = 8;
  whistleblower_reward_quotient = 4;
  proposer_reward_quotient = 2;
  inactivity_penalty_quotient = 16;
  min_slashing_penalty_quotient = 4;
  max_proposer_slashings = 2;
  max_attester_slashings = 1;
  max_attestations = 2;
  max_deposits = 2;
  max_voluntary_exits = 2;
}

pub config-IsValidConfig : IsValidConfig config
config-IsValidConfig = omega arith

-- A validator that is active from epoch 0 on.
abbrev pub active_validator : ℕ → Gwei → Validator
active_validator key balance = record {
  pubkey = replicate 48 key;
  withdrawal_credentials = root_of 0;
  effective_balance = balance;
  slashed = false;
  activation_eligibility_epoch = 0;
  activation_epoch = 0;
  exit_epoch = far_future_epoch;
  withdrawable_epoch = far_future_epoch;
}

abbrev pub checkpoint_of : ℕ → Checkpoint
checkpoint_of e = record { epoch = e; root = root_of e }

abbrev pub state : BeaconState
state = record {
  genesis_time = 0;
  genesis_validators_root = root_of 13;
  slot = 9;
  fork = record {
    previous_version = 0 ∷ 0 ∷ 0 ∷ 0 ∷ [];
    current_version = 0 ∷ 0 ∷ 0 ∷ 1 ∷ [];
    epoch = 0;
  };
  latest_block_header = record {
    slot = 8;
    proposer_index = 0;
    parent_root = root_of 2;
    state_root = zero_hash32;
    body_root = root_of 4;
  };
  block_roots = replicate 8 (root_of 2);
  state_roots = replicate 8 (root_of 1);
  historical_roots = [];
  eth1_data = record { deposit_root = root_of 14; deposit_count = 3; block_hash = root_of 20 };
  eth1_data_votes = [];
  eth1_deposit_index = 3;
  validators = active_validator 1 32 ∷ active_validator 2 32 ∷ active_validator 3 16 ∷ [];
  balances = 33 ∷ 32 ∷ 15 ∷ [];
  randao_mixes = replicate 8 (root_of 7);
  slashings = 0 ∷ 0 ∷ 0 ∷ 0 ∷ [];
  previous_epoch_attestations = [];
  current_epoch_attestations = [];
  justification_bits = false ∷ true ∷ true ∷ false ∷ [];
  previous_justified_checkpoint = checkpoint_of 0;
  current_justified_checkpoint = checkpoint_of 1;
  finalized_checkpoint = checkpoint_of 0;
}

pub state-IsWellFormed : IsWellFormed config 9 state
state-IsWellFormed = omega arith
