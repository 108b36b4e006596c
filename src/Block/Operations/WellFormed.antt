-- ===== src/Block/Operations/WellFormed.antt =====
-- The operations of a block keep the state's shape and slot.
use trinity_eth.Base.{
  Bool, true, false, ok, Ensures, Ensures-ok, Ensures-bind, Ensures-fold, Ensures-if, arith,
}
use trinity_eth.Types.{
  Slot, Epoch, ValidatorIndex, is_slashable, ProposerSlashing, AttesterSlashing,
  SignedVoluntaryExit, BeaconState, BeaconBlock, Eth2Config,
}
use trinity_eth.Extern.{Extern}
use trinity_eth.Invariant.{IsWellFormed}
use trinity_eth.ValidatorStatus.WellFormed.{
  initiate_validator_exit-IsWellFormed, slash_validator-IsWellFormed,
}
use trinity_eth.Deposits.WellFormed.{process_deposit-IsWellFormed}
use trinity_eth.Block.Operations.{
  process_proposer_slashing, process_proposer_slashings, slash_attester, process_attester_slashing,
  process_attester_slashings, process_attestations, process_deposits, process_voluntary_exit,
  process_voluntary_exits, process_operations,
}

module _ (ext : Extern) (config : Eth2Config) (n : Slot) where
  proposer_slashing-IsWellFormed :
      (s : BeaconState) (p : ProposerSlashing)
      → IsWellFormed config n s
      → Ensures (IsWellFormed config n) (process_proposer_slashing ext config s p)
  unfolding process_proposer_slashing
  proposer_slashing-IsWellFormed s p h =
      Ensures-bind _ _ λ _ _. slash_validator-IsWellFormed ext config n s _ h

  proposer_slashings-IsWellFormed :
      (s : BeaconState) (block : BeaconBlock)
      → IsWellFormed config n s
      → Ensures (IsWellFormed config n) (process_proposer_slashings ext config s block)
  unfolding process_proposer_slashings
  proposer_slashings-IsWellFormed s block h =
      Ensures-bind _ _ λ _ _. Ensures-fold _ _ s h λ t p ht. proposer_slashing-IsWellFormed t p ht

  slash_attester-IsWellFormed :
      (epoch : Epoch) (s : BeaconState × Bool) (i : ValidatorIndex)
      → IsWellFormed config n s.0
      → Ensures (λ r. IsWellFormed config n r.0) (slash_attester ext config epoch s i)
  unfolding slash_attester
  slash_attester-IsWellFormed epoch (s, any) i h = Ensures-bind _ _ λ v _.
      Ensures-if (is_slashable v epoch) _ (ok (s, any))
        (λ _.
          Ensures-bind _ (λ slashed. ok (slashed, true))
            λ t e. Ensures-ok _ ((slash_validator-IsWellFormed ext config n s i h).at t e))
        (λ _. Ensures-ok _ h)

  attester_slashing-IsWellFormed :
      (epoch : Epoch) (s : BeaconState) (a : AttesterSlashing)
      → IsWellFormed config n s
      → Ensures (IsWellFormed config n) (process_attester_slashing ext config epoch s a)
  unfolding process_attester_slashing
  attester_slashing-IsWellFormed epoch s a h = Ensures-bind _ _ λ _ _. Ensures-bind _ _ λ slashed e.
      Ensures-bind _ _ λ _ _. Ensures-ok _ (
        (Ensures-fold _ _ (s, false) h (λ t i ht. slash_attester-IsWellFormed epoch t i ht)).at
          slashed e)

  attester_slashings-IsWellFormed :
      (s : BeaconState) (block : BeaconBlock)
      → IsWellFormed config n s
      → Ensures (IsWellFormed config n) (process_attester_slashings ext config s block)
  unfolding process_attester_slashings
  attester_slashings-IsWellFormed s block h =
      Ensures-bind _ _ λ _ _. Ensures-fold _ _ s h λ t a ht. attester_slashing-IsWellFormed _ t a ht

  attestations-IsWellFormed :
      (s : BeaconState) (block : BeaconBlock)
      → IsWellFormed config n s
      → Ensures (IsWellFormed config n) (process_attestations ext config s block)
  unfolding process_attestations
  attestations-IsWellFormed s block h =
      Ensures-bind _ _ λ _ _. Ensures-bind _ _ λ pending _. Ensures-ok _ (ground arith)

  deposits-IsWellFormed :
      (s : BeaconState) (block : BeaconBlock)
      → IsWellFormed config n s
      → Ensures (IsWellFormed config n) (process_deposits ext config s block)
  unfolding process_deposits
  deposits-IsWellFormed s block h =
      Ensures-bind _ _
        λ _ _. Ensures-fold _ _ s h λ t d ht. process_deposit-IsWellFormed ext config n t d ht

  voluntary_exit-IsWellFormed :
      (s : BeaconState) (e : SignedVoluntaryExit)
      → IsWellFormed config n s
      → Ensures (IsWellFormed config n) (process_voluntary_exit ext config s e)
  unfolding process_voluntary_exit
  voluntary_exit-IsWellFormed s e h =
      Ensures-bind _ _ λ _ _. initiate_validator_exit-IsWellFormed config n s h _

  voluntary_exits-IsWellFormed :
      (s : BeaconState) (block : BeaconBlock)
      → IsWellFormed config n s
      → Ensures (IsWellFormed config n) (process_voluntary_exits ext config s block)
  unfolding process_voluntary_exits
  voluntary_exits-IsWellFormed s block h =
      Ensures-bind _ _ λ _ _. Ensures-fold _ _ s h λ t e ht. voluntary_exit-IsWellFormed t e ht

  pub process_operations-IsWellFormed :
      (s : BeaconState) (block : BeaconBlock)
      → IsWellFormed config n s
      → Ensures (IsWellFormed config n) (process_operations ext config s block)
  unfolding process_operations
  process_operations-IsWellFormed s block h = Ensures-bind _ _ λ _ _. Ensures-bind _ _ λ s1 e1.
      Ensures-bind _ _ λ s2 e2. Ensures-bind _ _ λ s3 e3. Ensures-bind _ _ λ s4 e4.
        let h1 = (proposer_slashings-IsWellFormed s block h).at s1 e1 in
        let h2 = (attester_slashings-IsWellFormed s1 block h1).at s2 e2 in
        let h3 = (attestations-IsWellFormed s2 block h2).at s3 e3 in
        voluntary_exits-IsWellFormed s4 block ((deposits-IsWellFormed s3 block h3).at s4 e4)
