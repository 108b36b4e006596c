-- ===== src/Epoch/Rewards/WellFormed.antt =====
-- Rewards and penalties keep the state's shape: `zip` drops no balance, since the deltas have an
-- entry for each validator.
use trinity_eth.Base.{
  ℕ, ◌==◌, ◌≡◌, refl, List, [], ◌∷◌, length, length-replicate, ok, Ensures, Ensures-ok,
  Ensures-bind, Ensures-fold, Ensures-if, contains, ◌>>=◌, arith,
}
use trinity_eth.Types.{
  Slot, Gwei, ValidatorIndex, PendingAttestation, BeaconState, Eth2Config, current_epoch,
  genesis_epoch,
}
use trinity_eth.Extern.{Extern}
use trinity_eth.Invariant.{IsWellFormed}
use trinity_eth.Utils.Bitfield.{length-update_tuple_item_with_fn}
use trinity_eth.Epoch.Rewards.{
  Deltas, add_reward, add_penalty, component_delta, component_deltas, inclusion_delta, leak_delta,
  leak_deltas, get_attestation_deltas, apply_deltas, process_rewards_and_penalties,
  is_in_inactivity_leak, component_reward,
}

-- Both tuples have `k` entries.
pub record HasEntries (k : ℕ) (d : Deltas) : Type 0 where
  pub rewards : length d.rewards ≡ k
  pub penalties : length d.penalties ≡ k

module _ (k : ℕ) (d : Deltas) (h : HasEntries k d) (i : ValidatorIndex) where
  add_reward-HasEntries : (delta : Gwei) → Ensures (HasEntries k) (add_reward d i delta)
  unfolding add_reward
  add_reward-HasEntries delta =
      Ensures-bind _ _
        λ xs e. Ensures-ok _ (ground (arith, (length-update_tuple_item_with_fn _ _ _).at xs e))

  add_penalty-HasEntries : (delta : Gwei) → Ensures (HasEntries k) (add_penalty d i delta)
  unfolding add_penalty
  add_penalty-HasEntries delta =
      Ensures-bind _ _
        λ xs e. Ensures-ok _ (ground (arith, (length-update_tuple_item_with_fn _ _ _).at xs e))

module _ (state : BeaconState) (config : Eth2Config) (k : ℕ) where
  component_delta-HasEntries :
      (attesters : List ValidatorIndex) (part total : Gwei) (d : Deltas) (i : ValidatorIndex)
      → HasEntries k d
      → Ensures (HasEntries k) (component_delta state config attesters part total d i)
  unfolding component_delta
  component_delta-HasEntries attesters part total d i h =
      Ensures-if (contains i attesters)
        (component_reward state config part total i >>= add_reward d i) _
        (λ _. Ensures-bind _ _ λ delta _. add_reward-HasEntries k d h i delta)
        (λ _. Ensures-bind _ _ λ delta _. add_penalty-HasEntries k d h i delta)

  leak_delta-HasEntries :
      (attesters : List ValidatorIndex) (d : Deltas) (i : ValidatorIndex)
      → HasEntries k d
      → Ensures (HasEntries k) (leak_delta state config attesters d i)
  unfolding leak_delta
  leak_delta-HasEntries attesters d i h = Ensures-bind _ _ λ base _. Ensures-bind _ _ λ proposer _.
      Ensures-bind _ _ λ d' e.
        let h' = (add_penalty-HasEntries k d h i _).at d' e in
        Ensures-if (contains i attesters) (ok d') _ (λ _. Ensures-ok _ h')
          λ _. Ensures-bind _ _ λ v _. add_penalty-HasEntries k d' h' i _

module _ (ext : Extern) (state : BeaconState) (config : Eth2Config) (k : ℕ) where
  component_deltas-HasEntries :
      (total : Gwei) (d : Deltas) (attestations : List PendingAttestation)
      → HasEntries k d
      → Ensures (HasEntries k) (component_deltas ext state config total d attestations)
  unfolding component_deltas
  component_deltas-HasEntries total d attestations h = Ensures-bind _ _ λ attesters _.
      Ensures-bind _ _ λ balance _.
        Ensures-fold _ _ d h λ d' i h'. component_delta-HasEntries state config k _ _ _ d' i h'

  inclusion_delta-HasEntries :
      (attestations : List PendingAttestation) (d : Deltas) (i : ValidatorIndex)
      → HasEntries k d
      → Ensures (HasEntries k) (inclusion_delta ext state config attestations d i)
  unfolding inclusion_delta
  inclusion_delta-HasEntries attestations d i h = Ensures-bind _ _ λ including _.
      Ensures-bind _ _ λ attestation _. Ensures-bind _ _ λ proposer_reward _.
        Ensures-bind _ _ λ d' e. Ensures-bind _ _ λ base _.
          Ensures-bind _ _
            λ reward _. add_reward-HasEntries k d' ((add_reward-HasEntries k d h _ _).at d' e) i _

  leak_deltas-HasEntries :
      (target : List PendingAttestation) (d : Deltas)
      → HasEntries k d
      → Ensures (HasEntries k) (leak_deltas ext state config target d)
  unfolding leak_deltas
  leak_deltas-HasEntries target d h =
      Ensures-bind _ _ λ attesters _.
        Ensures-fold _ _ d h λ d' i h'. leak_delta-HasEntries state config k _ d' i h'

-- The deltas have one entry for each validator.
pub get_attestation_deltas-HasEntries :
    (ext : Extern) (state : BeaconState) (config : Eth2Config)
    → Ensures (HasEntries (length state.validators)) (get_attestation_deltas ext state config)
unfolding get_attestation_deltas
get_attestation_deltas-HasEntries ext state config =
    let k = length state.validators in
    Ensures-bind _ _ λ total _. Ensures-bind _ _ λ source _. Ensures-bind _ _ λ target _.
      Ensures-bind _ _ λ head _. Ensures-bind _ _ λ votes e1. Ensures-bind _ _ λ attesters _.
        Ensures-bind _ _ λ included e2.
          let hv =
            (Ensures-fold _ _ _
                (record { rewards = length-replicate k 0; penalties = length-replicate k 0 })
                (λ d a h. component_deltas-HasEntries ext state config k _ d a h)).at
              votes e1 in
          let hi =
            (Ensures-fold _ _ _ hv
                (λ d i h. inclusion_delta-HasEntries ext state config k source d i h)).at
              included e2 in
          Ensures-if (is_in_inactivity_leak state config)
            (leak_deltas ext state config target included) _
            (λ _. leak_deltas-HasEntries ext state config k target included hi)
            (λ _. Ensures-ok _ hi)

length-apply_deltas :
    (balances rewards penalties : List Gwei)
    → length rewards ≡ length balances
    → length penalties ≡ length balances
    → length (apply_deltas balances rewards penalties) ≡ length balances
length-apply_deltas [] rewards penalties r p = refl
length-apply_deltas (b ∷ bs) [] penalties r p = absurd (omega arith)
length-apply_deltas (b ∷ bs) (x ∷ xs) [] r p = absurd (omega arith)
length-apply_deltas (b ∷ bs) (x ∷ xs) (y ∷ ys) r p =
    omega (arith, length-apply_deltas bs xs ys (omega arith) (omega arith))

pub process_rewards_and_penalties-IsWellFormed :
    (ext : Extern) (config : Eth2Config) (n : Slot) (s : BeaconState)
    → IsWellFormed config n s
    → Ensures (IsWellFormed config n) (process_rewards_and_penalties ext s config)
unfolding process_rewards_and_penalties
process_rewards_and_penalties-IsWellFormed ext config n s h =
    Ensures-if (current_epoch s config.slots_per_epoch == genesis_epoch) (ok s) _
      (λ _. Ensures-ok _ h)
      λ _. Ensures-bind _ _ λ d e.
        let entries = (get_attestation_deltas-HasEntries ext s config).at d e in
        let kept =
          length-apply_deltas s.balances d.rewards d.penalties (omega arith) (omega arith) in
        Ensures-ok _ (ground arith)
