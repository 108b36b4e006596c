-- ===== src/Types/Config.antt =====
-- eth2/configs.py: the constants of a configuration that the state transition reads.
use trinity_eth.Base.{ℕ, ◌+◌, ◌<◌, ◌≤◌, ◌/◌}
use trinity_eth.Types.Names.{Gwei, Version}

pub record Eth2Config : Type 0 where
  -- Misc
  pub max_committees_per_slot : ℕ
  pub target_committee_size : ℕ
  pub max_validators_per_committee : ℕ
  pub min_per_epoch_churn_limit : ℕ
  pub churn_limit_quotient : ℕ
  pub shuffle_round_count : ℕ
  pub hysteresis_quotient : ℕ
  pub hysteresis_downward_multiplier : ℕ
  pub hysteresis_upward_multiplier : ℕ
  -- Genesis
  pub min_genesis_active_validator_count : ℕ
  pub min_genesis_time : ℕ
  -- Gwei values
  pub max_effective_balance : Gwei
  pub ejection_balance : Gwei
  pub effective_balance_increment : Gwei
  -- Initial values
  pub genesis_fork_version : Version
  -- Time parameters
  pub genesis_delay : ℕ
  pub min_attestation_inclusion_delay : ℕ
  pub slots_per_epoch : ℕ
  pub min_seed_lookahead : ℕ
  pub max_seed_lookahead : ℕ
  pub min_epochs_to_inactivity_penalty : ℕ
  pub epochs_per_eth1_voting_period : ℕ
  pub slots_per_historical_root : ℕ
  pub min_validator_withdrawability_delay : ℕ
  pub shard_committee_period : ℕ
  -- State list lengths
  pub epochs_per_historical_vector : ℕ
  pub epochs_per_slashings_vector : ℕ
  -- Rewards and penalties
  pub base_reward_factor : ℕ
  pub whistleblower_reward_quotient : ℕ
  pub proposer_reward_quotient : ℕ
  pub inactivity_penalty_quotient : ℕ
  pub min_slashing_penalty_quotient : ℕ
  -- Max operations per block
  pub max_proposer_slashings : ℕ
  pub max_attester_slashings : ℕ
  pub max_attestations : ℕ
  pub max_deposits : ℕ
  pub max_voluntary_exits : ℕ

-- What every configuration of the repository meets: the constants that the code divides by are
-- positive, so that no `//` or `%` by one of them raises, and the seed's epoch offset is no
-- negative number.
pub record IsValidConfig (c : Eth2Config) : Type 0 where
  pub epoch_has_slots : 0 < c.slots_per_epoch
  pub committees_allowed : 0 < c.max_committees_per_slot
  pub committee_size : 0 < c.target_committee_size
  pub churn_quotient : 0 < c.churn_limit_quotient
  pub hysteresis : 0 < c.hysteresis_quotient
  pub increment : 0 < c.effective_balance_increment
  pub voting_period : 0 < c.epochs_per_eth1_voting_period
  pub historical_roots : 0 < c.slots_per_historical_root
  pub historical_period : 0 < c.slots_per_historical_root / c.slots_per_epoch
  pub seed_lookahead : c.min_seed_lookahead + 1 ≤ c.epochs_per_historical_vector
  pub slashings_vector : 0 < c.epochs_per_slashings_vector
  pub whistleblower_quotient : 0 < c.whistleblower_reward_quotient
  pub proposer_quotient : 0 < c.proposer_reward_quotient
  pub inactivity_quotient : 0 < c.inactivity_penalty_quotient
  pub slashing_quotient : 0 < c.min_slashing_penalty_quotient
