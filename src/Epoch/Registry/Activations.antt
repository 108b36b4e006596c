-- ===== src/Epoch/Registry/Activations.antt =====
-- The registry activates no more validators in an epoch than the churn limit.
use trinity_eth.Base.{
  ℕ, zero, suc, ◌+◌, ◌≤◌, ◌≡◌, refl, sym, subst, ◌∙◌, ◌==◌, ==_refl, Bool, true, false, Bool-cases,
  inl, inr, if◌then◌else◌, List, [], ◌∷◌, length, length-take, range, get_elem?, set, some, ok,
  >>=-eq-ok, ok_injective, fold_list, update_at-eq-ok, Ensures, Ensures-ok, Ensures-bind,
  Ensures-fold, arith,
}
use trinity_eth.Types.{
  far_future_epoch, ValidatorIndex, Validator, BeaconState, Eth2Config,
  is_eligible_for_activation_queue,
}
use trinity_eth.EpochHelpers.{get_validator_churn_limit}
use trinity_eth.ValidatorStatus.{initiate_exit_for_validator}
use trinity_eth.Epoch.Registry.{
  eligible_or_ejected, process_activation_eligibility_or_ejections, get_activation_queue,
  update_validator_activation_epoch, activate_at, process_registry_updates,
}

-- How many validators of the first list have another activation epoch in the second.
abbrev pub activations : List Validator → List Validator → ℕ
activations [] ws = 0
activations (v ∷ vs) [] = 0
activations (v ∷ vs) (w ∷ ws) =
    let rest = activations vs ws in
    if v.activation_epoch == w.activation_epoch then rest else suc rest

activations_self : (vs : List Validator) → activations vs vs ≡ 0
activations_self [] = refl
activations_self (v ∷ vs) = rw (==_refl v.activation_epoch) (activations_self vs)

activations-set-le :
    (vs ws : List Validator) (i : ℕ) (w : Validator)
    → activations vs (set ws i w) ≤ suc (activations vs ws)
activations-set-le [] ws i w = omega arith
activations-set-le (v ∷ vs) [] i w = omega arith
activations-set-le (v ∷ vs) (x ∷ ws) zero w = ground arith
activations-set-le (v ∷ vs) (x ∷ ws) (suc i) w = ground (arith, activations-set-le vs ws i w)

activations-set_same :
    (vs ws : List Validator) (i : ℕ) {x : Validator} (w : Validator)
    → get_elem? ws i ≡ some x
    → w.activation_epoch ≡ x.activation_epoch
    → activations vs (set ws i w) ≡ activations vs ws
activations-set_same [] ws i w found same = refl
activations-set_same (v ∷ vs) [] i w found same = refl
activations-set_same (v ∷ vs) (y ∷ ws) zero w found same = ground arith
activations-set_same (v ∷ vs) (y ∷ ws) (suc i) w found same =
    ground (arith, activations-set_same vs ws i w found same)

exit_activation :
    (v : Validator) (s : BeaconState) (config : Eth2Config)
    → (initiate_exit_for_validator v s config).activation_epoch ≡ v.activation_epoch
unfolding initiate_exit_for_validator
exit_activation v s config = elim (Bool-cases (v.exit_epoch == far_future_epoch)) [
  | inl unset ↦ rw unset refl
  | inr exits ↦ rw exits refl
]

if_activation :
    (b : Bool) (x y : Validator) {epoch : ℕ}
    → x.activation_epoch ≡ epoch
    → y.activation_epoch ≡ epoch
    → (if b then x else y).activation_epoch ≡ epoch
if_activation true x y hx hy = hx
if_activation false x y hx hy = hy

module _ (s : BeaconState) (config : Eth2Config) where
  eligible_activation :
      (v : Validator) → (eligible_or_ejected s config v).activation_epoch ≡ v.activation_epoch
  unfolding eligible_or_ejected
  eligible_activation v =
      let queued = if_activation (is_eligible_for_activation_queue v config) _ v refl refl in
      if_activation _ _ _ (exit_activation _ s config ∙ queued) queued

  activated-le :
      (vs : List Validator) (queue : List ValidatorIndex) (r t : BeaconState)
      → fold_list queue (activate_at s config) r ≡ ok t
      → activations vs t.validators ≤ activations vs r.validators + length queue
  unfolding fold_list activate_at
  activated-le vs [] r t e =
      subst (λ q. activations vs q.validators ≤ activations vs r.validators + 0) (ok_injective e)
        (omega arith)
  activated-le vs (i ∷ queue) r t e =
      let (u, step, rest) = >>=-eq-ok _ _ e in
      let (validators, updated, done) = >>=-eq-ok _ _ step in
      let (x, _, same) = update_at-eq-ok r.validators i _ updated in
      let one =
        activations-set-le vs r.validators i (update_validator_activation_epoch s config x) in
      let first : activations vs validators ≤ suc (activations vs r.validators) =
        subst (λ ws. activations vs ws ≤ suc (activations vs r.validators)) (sym same) one in
      let second : activations vs u.validators ≤ suc (activations vs r.validators) =
        subst (λ q. activations vs q.validators ≤ suc (activations vs r.validators))
          (ok_injective done) first in
      omega (arith, activated-le vs queue u t rest)

none_activated :
    (config : Eth2Config) (vs : List Validator) (r : BeaconState) (i : ValidatorIndex)
    → activations vs r.validators ≡ 0
    → Ensures
        (λ t. activations vs t.validators ≡ 0)
        (process_activation_eligibility_or_ejections config r i)
unfolding process_activation_eligibility_or_ejections
none_activated config vs r i h = Ensures-bind _ _ λ validators e.
    let (x, found, same) = update_at-eq-ok r.validators i _ e in
    let kept = activations-set_same vs r.validators i _ found (eligible_activation r config x) in
    Ensures-ok _ (subst (λ ws. activations vs ws ≡ 0) (sym same) (kept ∙ h))

-- The registry updates that return give no more validators than the churn limit a new activation
-- epoch.
pub process_registry_updates-activations :
    (s t : BeaconState) (config : Eth2Config)
    → process_registry_updates s config ≡ ok t
    → activations s.validators t.validators ≤ get_validator_churn_limit s config
unfolding process_registry_updates
process_registry_updates-activations s t config e =
    let (r, first, rest) = >>=-eq-ok _ _ e in
    let none_yet =
      (Ensures-fold {P = λ q. activations s.validators q.validators ≡ 0}
          (range 0 (length s.validators)) _ s (activations_self s.validators)
          (λ q i h. none_activated config s.validators q i h)).at
        r first in
    let limit = get_validator_churn_limit s config in
    let few = length-take limit (get_activation_queue s r.validators) in
    let grown = activated-le s config s.validators _ r t rest in omega arith
