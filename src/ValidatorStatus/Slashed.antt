-- ===== src/ValidatorStatus/Slashed.antt =====
-- What slashing leaves behind: the validator is marked, and the slashings grow by its balance.
use trinity_eth.Base.{
  ℕ, ◌+◌, ◌≤◌, ◌≡◌, refl, ap, subst, ◌∙◌, true, sum, get_elem?, some, ok, >>=-eq-ok, index-some,
  get_elem?-update_at, sum-update_at, get_elem?_unique, Ensures, Ensures-ok, Ensures-bind, arith,
}
use trinity_eth.Types.{Gwei, ValidatorIndex, Validator, BeaconState, Eth2Config, current_epoch}
use trinity_eth.Extern.{Extern}
use trinity_eth.EpochHelpers.{increase_balance, decrease_balance}
use trinity_eth.ValidatorStatus.{set_validator_slashed, initiate_validator_exit, slash_validator}

-- Only balances differ, as far as validators and slashings go.
abbrev SameRegistry : BeaconState → BeaconState → Type 0
SameRegistry s t = (t.validators ≡ s.validators) × (t.slashings ≡ s.slashings)

module _ (s : BeaconState) (i : ValidatorIndex) (delta : Gwei) where
  increase_balance-SameRegistry : Ensures (SameRegistry s) (increase_balance s i delta)
  unfolding increase_balance
  increase_balance-SameRegistry = Ensures-bind _ _ λ b e. Ensures-ok _ (refl, refl)

  decrease_balance-SameRegistry : Ensures (SameRegistry s) (decrease_balance s i delta)
  unfolding decrease_balance
  decrease_balance-SameRegistry = Ensures-bind _ _ λ b e. Ensures-ok _ (refl, refl)

initiate_validator_exit_slashings :
    (s : BeaconState) (i : ValidatorIndex) (config : Eth2Config)
    → Ensures (λ t. t.slashings ≡ s.slashings) (initiate_validator_exit s i config)
unfolding initiate_validator_exit
initiate_validator_exit_slashings s i config = Ensures-bind _ _ λ v e. Ensures-ok _ refl

set_validator_slashed_lem :
    (epoch period : ℕ) (v : Validator) {w : Validator}
    → set_validator_slashed epoch period v ≡ w
    → (w.slashed ≡ true) × (epoch + period ≤ w.withdrawable_epoch)
unfolding set_validator_slashed
set_validator_slashed_lem epoch period v same =
    subst (λ w. (w.slashed ≡ true) × (epoch + period ≤ w.withdrawable_epoch)) same
      (refl, omega arith)

-- What `slash_validator` guarantees of the validator that it slashes.
pub record SlashedAt (s : BeaconState) (i : ValidatorIndex) (config : Eth2Config) (t : BeaconState)
    : Type 0 where
  pub validator : Validator
  pub found : get_elem? t.validators i ≡ some validator
  pub marked : validator.slashed ≡ true
  pub locked :
      current_epoch s config.slots_per_epoch + config.epochs_per_slashings_vector
      ≤ validator.withdrawable_epoch
  pub recorded : sum t.slashings ≡ sum s.slashings + validator.effective_balance

-- Where `slash_validator` returns, the validator is marked as slashed, it cannot withdraw for the
-- length of the slashings vector, and the slashings have grown by its effective balance.
pub slash_validator-SlashedAt :
    (ext : Extern) (s : BeaconState) (i : ValidatorIndex) (config : Eth2Config) (t : BeaconState)
    → slash_validator ext s i config ≡ ok t
    → SlashedAt s i config t
unfolding slash_validator
slash_validator-SlashedAt ext s i config t e0 =
    let (exiting, exited, e1) = >>=-eq-ok _ _ e0 in
    let (validators, marked, e2) = >>=-eq-ok _ _ e1 in
    let (validator, read, e3) = >>=-eq-ok _ _ e2 in
    let (slashings, summed, e4) = >>=-eq-ok _ _ e3 in
    let (penalized, lowered, e5) = >>=-eq-ok _ _ e4 in
    let (proposer, _, e6) = >>=-eq-ok _ _ e5 in
    let (rewarded, raised, e7) = >>=-eq-ok _ _ e6 in
    let (v1, s1) = (decrease_balance-SameRegistry _ i _).at penalized lowered in
    let (v2, s2) = (increase_balance-SameRegistry penalized proposer _).at rewarded raised in
    let (v3, s3) = (increase_balance-SameRegistry rewarded proposer _).at t e7 in
    let before = (initiate_validator_exit_slashings s i config).at exiting exited in
    let (old, _, updated) = get_elem?-update_at exiting.validators i _ marked in
    let here = index-some validators i read in
    let now = get_elem?_unique validators i updated here in
    let (slashed, far) = set_validator_slashed_lem _ _ old now in
    let total = sum-update_at exiting.slashings _ _ summed in
    record {
      validator = validator;
      found = ap (λ vs. get_elem? vs i) (v3 ∙ v2 ∙ v1) ∙ here;
      marked = slashed;
      locked = far;
      recorded =
          ap sum (s3 ∙ s2 ∙ s1) ∙ total ∙ ap (λ l. sum l + validator.effective_balance) before;
    }
