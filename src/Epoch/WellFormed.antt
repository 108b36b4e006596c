-- ===== src/Epoch/WellFormed.antt =====
-- Epoch processing keeps the state's shape and slot.
use trinity_eth.Base.{Ensures, Ensures-bind}
use trinity_eth.Types.{Slot, BeaconState, Eth2Config}
use trinity_eth.Extern.{Extern}
use trinity_eth.Invariant.{IsWellFormed}
use trinity_eth.Epoch.{process_epoch}
use trinity_eth.Epoch.Justification.WellFormed.{process_justification_and_finalization-IsWellFormed}
use trinity_eth.Epoch.Rewards.WellFormed.{process_rewards_and_penalties-IsWellFormed}
use trinity_eth.Epoch.Registry.WellFormed.{process_registry_updates-IsWellFormed}
use trinity_eth.Epoch.Final.WellFormed.{
  process_slashings-IsWellFormed, process_final_updates-IsWellFormed,
}

pub process_epoch-IsWellFormed :
    (ext : Extern) (config : Eth2Config) (n : Slot) (s : BeaconState)
    → IsWellFormed config n s
    → Ensures (IsWellFormed config n) (process_epoch ext s config)
unfolding process_epoch
process_epoch-IsWellFormed ext config n s h = Ensures-bind _ _ λ s1 e1. Ensures-bind _ _ λ s2 e2.
    Ensures-bind _ _ λ s3 e3. Ensures-bind _ _ λ s4 e4.
      let h1 = (process_justification_and_finalization-IsWellFormed ext config n s h).at s1 e1 in
      let h2 = (process_rewards_and_penalties-IsWellFormed ext config n s1 h1).at s2 e2 in
      let h3 = (process_registry_updates-IsWellFormed config n s2 h2).at s3 e3 in
      process_final_updates-IsWellFormed ext config n s4
        ((process_slashings-IsWellFormed config n s3 h3).at s4 e4)
