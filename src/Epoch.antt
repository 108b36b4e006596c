-- ===== src/Epoch.antt =====
-- eth2/beacon/state_machines/forks/serenity/epoch_processing.py: the steps of `process_epoch` are
-- the modules below.
pub mod WellFormed
pub mod Justification
pub mod Rewards
pub mod Registry
pub mod Final
use trinity_eth.Base.{Result, ◌>>=◌}
use trinity_eth.Types.{BeaconState, Eth2Config}
use trinity_eth.Extern.{Extern}
use Justification.{process_justification_and_finalization}
use Rewards.{process_rewards_and_penalties}
use Registry.{process_registry_updates}
use Final.{process_slashings, process_final_updates}

unfoldable pub process_epoch : Extern → BeaconState → Eth2Config → Result BeaconState
process_epoch ext state config = do
  justified ← process_justification_and_finalization ext state config
  rewarded ← process_rewards_and_penalties ext justified config
  updated ← process_registry_updates rewarded config
  slashed ← process_slashings updated config
  process_final_updates ext slashed config
