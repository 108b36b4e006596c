-- ===== src/ValidatorStatus/Churn.antt =====
-- The exit queue: no more validators exit in one epoch than the churn limit allows.
use trinity_eth.Base.{
  ℕ, ◌+◌, ◌≤◌, ◌<◌, ◌≡◌, ◌≢◌, refl, leb, ◌==◌, List, [], ◌∷◌, length, select, Bool-cases, inl, inr,
  leb→gt, arith,
}
use trinity_eth.Types.{Epoch, Validator, BeaconState, Eth2Config, current_epoch, far_future_epoch}
use trinity_eth.EpochHelpers.{compute_activation_exit_epoch}
use trinity_eth.ValidatorStatus.{latest_exit, exits_at, compute_exit_queue_epoch}

latest_exit-ge : (vs : List Validator) (least : Epoch) → least ≤ latest_exit vs least
unfolding latest_exit
latest_exit-ge [] least = omega arith
latest_exit-ge (v ∷ vs) least = ground (arith, latest_exit-ge vs least)

-- Nobody exits after the latest exit.
none_later :
    (vs : List Validator) (least later : Epoch)
    → latest_exit vs least < later
    → later ≢ far_future_epoch
    → length (select (exits_at later) vs) ≡ 0
unfolding latest_exit
none_later [] least later h set = refl
none_later (v ∷ vs) least later h set = elim (Bool-cases (v.exit_epoch == far_future_epoch)) [
  | inl unset ↦ ground (arith, none_later vs least later (ground arith) set)
  | inr exits ↦ ground (arith, none_later vs least later (ground arith) set)
]

-- With a positive churn limit, the epoch that the exit queue gives next is no earlier than the
-- delay of an exit allows, and fewer validators than the limit exit in it already, unless it is
-- the epoch that stands for no exit.
pub compute_exit_queue_epoch_churn :
    (s : BeaconState) (churn_limit : ℕ) (config : Eth2Config)
    → 0 < churn_limit
    → compute_exit_queue_epoch s churn_limit config ≢ far_future_epoch
    → (compute_activation_exit_epoch
          (current_epoch s config.slots_per_epoch)
          config.max_seed_lookahead
        ≤ compute_exit_queue_epoch s churn_limit config)
      × (length (select (exits_at (compute_exit_queue_epoch s churn_limit config)) s.validators)
          < churn_limit)
unfolding compute_exit_queue_epoch
compute_exit_queue_epoch_churn s churn_limit config positive set =
    let least =
      compute_activation_exit_epoch (current_epoch s config.slots_per_epoch)
        config.max_seed_lookahead in
    let latest = latest_exit s.validators least in
    let low = latest_exit-ge s.validators least in
    elim (Bool-cases (leb churn_limit (length (select (exits_at latest) s.validators)))) [
      | inl full ↦
          let empty = none_later s.validators least (latest + 1) (omega arith) (rw full at set) in
          rw full (omega arith, omega arith)
      | inr room ↦ rw room (low, leb→gt _ _ room)
    ]
