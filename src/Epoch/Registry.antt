-- ===== src/Epoch/Registry.antt =====
-- eth2/beacon/state_machines/forks/serenity/epoch_processing.py, registry updates: activation
-- eligibility, ejection, and activation up to the churn limit.
pub mod Activations
pub mod WellFormed
use trinity_eth.Base.{
  ℕ, zero, suc, ◌+◌, ltb, leb, ◌==◌, ◌&&◌, ◌||◌, Bool, if◌then◌else◌, List, [], ◌∷◌, length, map,
  take, select, set, range, enumerate_from, Result, ok, ◌>>=◌, index, update_at, fold_list,
}
use trinity_eth.Types.{
  Epoch, ValidatorIndex, Validator, is_active, is_eligible_for_activation_queue,
  is_eligible_for_activation, BeaconState, current_epoch, Eth2Config,
}
use trinity_eth.EpochHelpers.{compute_activation_exit_epoch, get_validator_churn_limit}
use trinity_eth.ValidatorStatus.{initiate_exit_for_validator}

-- The validator after `_process_activation_eligibility_or_ejections`.
unfoldable pub eligible_or_ejected : BeaconState → Eth2Config → Validator → Validator
eligible_or_ejected state config validator =
    let current = current_epoch state config.slots_per_epoch in
    let queued =
      if is_eligible_for_activation_queue validator config
      then record validator { activation_eligibility_epoch = current + 1 }
      else validator in
    if is_active queued current && leb queued.effective_balance config.ejection_balance
    then initiate_exit_for_validator queued state config
    else queued

unfoldable pub process_activation_eligibility_or_ejections :
    Eth2Config → BeaconState → ValidatorIndex → Result BeaconState
process_activation_eligibility_or_ejections config state i = do
  validators ← update_at state.validators i (eligible_or_ejected state config)
  ok (record state { validators = validators })

-- The order by `(activation_eligibility_epoch, index)`.
abbrev pub queued_before : Epoch × ValidatorIndex → Epoch × ValidatorIndex → Bool
queued_before (a, i) (b, j) = ltb a b || (a == b && leb i j)

abbrev pub enqueue :
    Epoch × ValidatorIndex → List (Epoch × ValidatorIndex) → List (Epoch × ValidatorIndex)
enqueue e [] = e ∷ []
enqueue e (f ∷ queue) = if queued_before e f then e ∷ f ∷ queue else f ∷ enqueue e queue

abbrev pub sort_queue : List (Epoch × ValidatorIndex) → List (Epoch × ValidatorIndex)
sort_queue [] = []
sort_queue (e ∷ queue) = enqueue e (sort_queue queue)

-- The entries, from index `i` on, of the validators that wait for activation.
unfoldable pub waiting : BeaconState → ℕ → List Validator → List (Epoch × ValidatorIndex)
waiting state i [] = []
waiting state i (v ∷ vs) =
    let rest = waiting state (suc i) vs in
    if is_eligible_for_activation v state then (v.activation_eligibility_epoch, i) ∷ rest else rest

-- Eligibility is read from the state before the loop, the validators from the one after it.
unfoldable pub get_activation_queue : BeaconState → List Validator → List ValidatorIndex
get_activation_queue state validators =
    map (λ (e : Epoch × ValidatorIndex). e.1) (sort_queue (waiting state zero validators))

unfoldable pub update_validator_activation_epoch : BeaconState → Eth2Config → Validator → Validator
update_validator_activation_epoch state config validator = record validator {
  activation_epoch =
      compute_activation_exit_epoch (current_epoch state config.slots_per_epoch)
        config.max_seed_lookahead;
}

unfoldable pub activate_at :
    BeaconState → Eth2Config → BeaconState → ValidatorIndex → Result BeaconState
activate_at state config new_state i = do
  validators ← update_at new_state.validators i (update_validator_activation_epoch state config)
  ok (record new_state { validators = validators })

unfoldable pub process_registry_updates : BeaconState → Eth2Config → Result BeaconState
process_registry_updates state config = do
  new_state ←
      fold_list (range 0 (length state.validators))
        (process_activation_eligibility_or_ejections config) state
  fold_list
      (take (get_validator_churn_limit state config)
        (get_activation_queue state new_state.validators))
      (activate_at state config) new_state
