-- ===== src/Deposits/WellFormed.antt =====
-- A deposit keeps the state's shape: a new validator comes with its balance.
use trinity_eth.Base.{
  Option-cases, inl, inr, not, ok, Ensures, Ensures-ok, Ensures-bind, Ensures-if, length-append,
  arith, ◌∷◌, [],
}
use trinity_eth.Types.{
  Slot, Gwei, Deposit, Validator, BeaconState, Eth2Config, create_pending_validator,
  find_public_key,
}
use trinity_eth.Extern.{Extern}
use trinity_eth.Invariant.{IsWellFormed}
use trinity_eth.EpochHelpers.WellFormed.{increase_balance-IsWellFormed}
use trinity_eth.Deposits.{apply_deposit, process_deposit, is_valid_proof_of_possession}

module _ (ext : Extern) (config : Eth2Config) (n : Slot) where
  pub apply_deposit-IsWellFormed :
      (s : BeaconState) (deposit : Deposit)
      → IsWellFormed config n s
      → Ensures (IsWellFormed config n) (apply_deposit ext s deposit config)
  unfolding apply_deposit
  apply_deposit-IsWellFormed s deposit h =
      elim (Option-cases (find_public_key deposit.deposited.pubkey s.validators 0)) [
        | inl absent ↦
            rw (absent, apply_deposit)
              (Ensures-if (not (is_valid_proof_of_possession ext deposit config)) (ok s) _
                (λ _. Ensures-ok _ h)
                λ _. Ensures-ok _ (
                  ground (
                    arith,
                    length-append s.validators (v ∷ []),
                    length-append s.balances (a ∷ []),
                  )))
        | inr (i, found) ↦
            rw (found, apply_deposit) (increase_balance-IsWellFormed config n s h i _)
      ]
    where
      v : Validator
      v =
          create_pending_validator deposit.deposited.pubkey deposit.deposited.withdrawal_credentials
            deposit.deposited.amount config

      a : Gwei
      a = deposit.deposited.amount

  pub process_deposit-IsWellFormed :
      (s : BeaconState) (deposit : Deposit)
      → IsWellFormed config n s
      → Ensures (IsWellFormed config n) (process_deposit ext s deposit config)
  unfolding process_deposit
  process_deposit-IsWellFormed s deposit h =
      Ensures-bind _ _ λ _ _. apply_deposit-IsWellFormed _ deposit (ground arith)
