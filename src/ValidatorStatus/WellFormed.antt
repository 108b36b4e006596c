-- ===== src/ValidatorStatus/WellFormed.antt =====
-- Exits and slashings keep the state's shape.
use trinity_eth.Base.{Ensures, Ensures-ok, Ensures-bind, length-update_at, arith}
use trinity_eth.Types.{Slot, ValidatorIndex, BeaconState, Eth2Config}
use trinity_eth.Extern.{Extern}
use trinity_eth.Invariant.{IsWellFormed}
use trinity_eth.EpochHelpers.WellFormed.{
  increase_balance-IsWellFormed, decrease_balance-IsWellFormed,
}
use trinity_eth.ValidatorStatus.{initiate_validator_exit, slash_validator}

module _ (config : Eth2Config) (n : Slot) (s : BeaconState) (h : IsWellFormed config n s) where
  pub initiate_validator_exit-IsWellFormed :
      (i : ValidatorIndex) → Ensures (IsWellFormed config n) (initiate_validator_exit s i config)
  unfolding initiate_validator_exit
  initiate_validator_exit-IsWellFormed i =
      Ensures-bind _ _ λ v e. Ensures-ok _ (ground (arith, (length-update_at _ _ _).at v e))

pub slash_validator-IsWellFormed :
    (ext : Extern) (config : Eth2Config) (n : Slot) (s : BeaconState) (i : ValidatorIndex)
    → IsWellFormed config n s
    → Ensures (IsWellFormed config n) (slash_validator ext s i config)
unfolding slash_validator
slash_validator-IsWellFormed ext config n s i h = Ensures-bind _ _ λ exiting e1.
    Ensures-bind _ _ λ validators e2. Ensures-bind _ _ λ validator e3.
      Ensures-bind _ _ λ slashings e4. Ensures-bind _ _ λ penalized e5.
        Ensures-bind _ _ λ proposer e6. Ensures-bind _ _ λ rewarded e7.
          increase_balance-IsWellFormed config n rewarded
            ((increase_balance-IsWellFormed config n penalized
                ((decrease_balance-IsWellFormed config n _
                    (ground (
                      arith,
                      (initiate_validator_exit-IsWellFormed config n s h i).at exiting e1,
                      (length-update_at _ _ _).at validators e2,
                      (length-update_at _ _ _).at slashings e4,
                    ))
                    i _).at
                  penalized e5)
                proposer _).at
              rewarded e7)
            proposer _
