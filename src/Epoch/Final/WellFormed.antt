-- ===== src/Epoch/Final/WellFormed.antt =====
-- Slashings and the final updates keep the state's shape.
use trinity_eth.Base.{
  ℕ, ◌≡◌, ◌∙◌, List, length, refl, ok, Ensures, Ensures-ok, Ensures-bind, Ensures-fold, Ensures-if,
  length-update_at, arith,
}
use trinity_eth.Types.{Slot, Epoch, Gwei, Validator, BeaconState, Eth2Config}
use trinity_eth.Extern.{Extern}
use trinity_eth.Invariant.{IsWellFormed}
use trinity_eth.EpochHelpers.{decrease_balance}
use trinity_eth.EpochHelpers.WellFormed.{decrease_balance-IsWellFormed}
use trinity_eth.Epoch.Final.{
  is_slashing_due, leaves_band, slash_balance, process_slashings, update_effective_balance,
  update_effective_balances, compute_next_slashings, compute_next_randao_mixes,
  process_final_updates,
}

module _ (config : Eth2Config) (n : Slot) where
  slash_balance-IsWellFormed :
      (epoch : Epoch) (total : Gwei) (s : BeaconState) (entry : ℕ × Validator)
      → IsWellFormed config n s
      → Ensures (IsWellFormed config n) (slash_balance config epoch total s entry)
  unfolding slash_balance
  slash_balance-IsWellFormed epoch total s (i, v) h =
      Ensures-if (is_slashing_due config epoch v) _ (ok s)
        (λ _.
          Ensures-bind _ (decrease_balance s i)
            λ penalty _. decrease_balance-IsWellFormed config n s h i penalty)
        (λ _. Ensures-ok _ h)

  pub process_slashings-IsWellFormed :
      (s : BeaconState)
      → IsWellFormed config n s
      → Ensures (IsWellFormed config n) (process_slashings s config)
  unfolding process_slashings
  process_slashings-IsWellFormed s h =
      Ensures-bind _ _
        λ total _. Ensures-fold _ _ s h λ t entry ht. slash_balance-IsWellFormed _ total t entry ht

length-update_effective_balance :
    (s : BeaconState) (config : Eth2Config) (k : ℕ) (vs : List Validator) (entry : ℕ × Validator)
    → length vs ≡ k
    → Ensures (λ ws. length ws ≡ k) (update_effective_balance s config vs entry)
unfolding update_effective_balance
length-update_effective_balance s config k vs (i, v) h = Ensures-bind _ _ λ balance _.
    Ensures-if (leaves_band config balance v.effective_balance) _ (ok vs)
      (λ _. record { at = λ ws e. (length-update_at _ _ _).at ws e ∙ h }) (λ _. Ensures-ok _ h)

length-update_effective_balances :
    (s : BeaconState) (config : Eth2Config)
    → Ensures (λ ws. length ws ≡ length s.validators) (update_effective_balances s config)
unfolding update_effective_balances
length-update_effective_balances s config =
    Ensures-fold _ _ s.validators refl
      λ vs entry h. length-update_effective_balance s config _ vs entry h

length-compute_next_slashings :
    (s : BeaconState) (config : Eth2Config)
    → Ensures (λ xs. length xs ≡ length s.slashings) (compute_next_slashings s config)
unfolding compute_next_slashings
length-compute_next_slashings s config = length-update_at _ _ _

length-compute_next_randao_mixes :
    (s : BeaconState) (config : Eth2Config)
    → Ensures (λ xs. length xs ≡ length s.randao_mixes) (compute_next_randao_mixes s config)
unfolding compute_next_randao_mixes
length-compute_next_randao_mixes s config = Ensures-bind _ _ λ mix _. length-update_at _ _ _

pub process_final_updates-IsWellFormed :
    (ext : Extern) (config : Eth2Config) (n : Slot) (s : BeaconState)
    → IsWellFormed config n s
    → Ensures (IsWellFormed config n) (process_final_updates ext s config)
unfolding process_final_updates
process_final_updates-IsWellFormed ext config n s h = Ensures-bind _ _ λ vs e1.
    Ensures-bind _ _ λ slashings e2. Ensures-bind _ _ λ mixes e3.
      let l1 = (length-update_effective_balances s config).at vs e1 in
      let l2 = (length-compute_next_slashings s config).at slashings e2 in
      let l3 = (length-compute_next_randao_mixes s config).at mixes e3 in
      Ensures-ok _ (ground arith)
