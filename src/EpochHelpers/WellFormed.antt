-- ===== src/EpochHelpers/WellFormed.antt =====
-- Changes of one balance keep the state's shape.
use trinity_eth.Base.{Ensures, Ensures-ok, Ensures-bind, length-update_at, arith}
use trinity_eth.Types.{Slot, Gwei, ValidatorIndex, BeaconState, Eth2Config}
use trinity_eth.Invariant.{IsWellFormed}
use trinity_eth.EpochHelpers.{increase_balance, decrease_balance}

module _ (config : Eth2Config) (n : Slot) (s : BeaconState) (h : IsWellFormed config n s) where
  pub increase_balance-IsWellFormed :
      (i : ValidatorIndex) (delta : Gwei)
      → Ensures (IsWellFormed config n) (increase_balance s i delta)
  unfolding increase_balance
  increase_balance-IsWellFormed i delta =
      Ensures-bind _ _ λ b e. Ensures-ok _ (ground (arith, (length-update_at _ _ _).at b e))

  pub decrease_balance-IsWellFormed :
      (i : ValidatorIndex) (delta : Gwei)
      → Ensures (IsWellFormed config n) (decrease_balance s i delta)
  unfolding decrease_balance
  decrease_balance-IsWellFormed i delta =
      Ensures-bind _ _ λ b e. Ensures-ok _ (ground (arith, (length-update_at _ _ _).at b e))
