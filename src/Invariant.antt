-- ===== src/Invariant.antt =====
-- The shape that every beacon state of a chain has: the vectors have the lengths of the
-- configuration, there is one balance for each validator, and four justification bits.
use trinity_eth.Base.{◌≡◌, length}
use trinity_eth.Types.{Slot, BeaconState, Eth2Config}

-- The state is at slot `n` and has the shape that `config` asks for.
pub record IsWellFormed (config : Eth2Config) (n : Slot) (s : BeaconState) : Type 0 where
  pub at_slot : s.slot ≡ n
  pub block_roots : length s.block_roots ≡ config.slots_per_historical_root
  pub state_roots : length s.state_roots ≡ config.slots_per_historical_root
  pub randao_mixes : length s.randao_mixes ≡ config.epochs_per_historical_vector
  pub slashings : length s.slashings ≡ config.epochs_per_slashings_vector
  pub balances : length s.balances ≡ length s.validators
  pub justification_bits : length s.justification_bits ≡ 4
