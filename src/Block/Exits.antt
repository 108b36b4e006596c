-- ===== src/Block/Exits.antt =====
-- When a voluntary exit is accepted.
use trinity_eth.Base.{
  ℕ, ◌+◌, ◌≤◌, ◌<◌, ◌≡◌, ap, ◌∙◌, ◌↔◌, ◌==◌, ==_refl, ltb→ge, ge→ltb, le→leb, lt→ltb, true,
  get_elem?, some, index-some, or_raise, index_error, ok, raise_if-eq-ok, ◌>>=◌, >>=-eq-ok, arith,
}
use trinity_eth.Types.{far_future_epoch, Validator, BeaconState, SignedVoluntaryExit, current_epoch}
use trinity_eth.Extern.{Extern}
use trinity_eth.Block.Validation.{
  validate_validator_is_active, validate_validator_has_not_exited, validate_eligible_exit_epoch,
  validate_validator_minimum_lifespan, validate_voluntary_exit_signature, validate_voluntary_exit,
}

-- The conditions of a voluntary exit, `period` epochs being the least time to serve.
pub record MayExit (ext : Extern) (s : BeaconState) (exit : SignedVoluntaryExit)
    (slots_per_epoch period : ℕ) : Type 0 where
  pub validator : Validator
  pub found : get_elem? s.validators exit.message.validator_index ≡ some validator
  pub activated : validator.activation_epoch ≤ current_epoch s slots_per_epoch
  pub active : current_epoch s slots_per_epoch < validator.exit_epoch
  pub staying : validator.exit_epoch ≡ far_future_epoch
  pub due : exit.message.epoch ≤ current_epoch s slots_per_epoch
  pub served : validator.activation_epoch + period ≤ current_epoch s slots_per_epoch
  pub signed : validate_voluntary_exit_signature ext s exit validator slots_per_epoch ≡ ok tt

module _ (ext : Extern) (s : BeaconState) (exit : SignedVoluntaryExit)
    (slots_per_epoch period : ℕ) where
  accepted-MayExit :
      validate_voluntary_exit ext s exit slots_per_epoch period ≡ ok tt
      → MayExit ext s exit slots_per_epoch period
  unfolding validate_voluntary_exit validate_validator_is_active validate_validator_has_not_exited
      validate_eligible_exit_epoch validate_validator_minimum_lifespan
  accepted-MayExit e0 =
      let (v, read, e1) = >>=-eq-ok _ _ e0 in
      let (_, c1, e2) = >>=-eq-ok _ _ e1 in
      let (_, c2, e3) = >>=-eq-ok _ _ e2 in
      let (_, c3, e4) = >>=-eq-ok _ _ e3 in
      let (_, c4, e5) = >>=-eq-ok _ _ e4 in
      let h1 = raise_if-eq-ok _ _ c1 in
      let h2 = raise_if-eq-ok _ _ c2 in
      let h3 = raise_if-eq-ok _ _ c3 in
      let h4 = raise_if-eq-ok _ _ c4 in
      record {
        validator = v;
        found = index-some s.validators _ read;
        activated = ground (arith, h1);
        active = ground (arith, h1);
        staying = ground (arith, h2);
        due = ltb→ge _ _ h3;
        served = ltb→ge _ _ h4;
        signed = e5;
      }

  MayExit-accepted :
      MayExit ext s exit slots_per_epoch period
      → validate_voluntary_exit ext s exit slots_per_epoch period ≡ ok tt
  unfolding validate_voluntary_exit validate_validator_is_active validate_validator_has_not_exited
      validate_eligible_exit_epoch validate_validator_minimum_lifespan ◌>>=◌
      validate_voluntary_exit_signature
  MayExit-accepted h =
      let current = current_epoch s slots_per_epoch in
      let unset : (h.validator.exit_epoch == far_future_epoch) ≡ true =
        ap (λ e. e == far_future_epoch) h.staying ∙ ==_refl far_future_epoch in
      let read = ap (λ o. or_raise o index_error) h.found in
      rw read (
        rw (le→leb h.validator.activation_epoch current h.activated) (
          rw (lt→ltb current h.validator.exit_epoch h.active) (
            rw h.staying (
              rw (ge→ltb current exit.message.epoch h.due)
                (rw (ge→ltb current (h.validator.activation_epoch + period) h.served) h.signed)))))

  -- A voluntary exit is accepted exactly when its validator exists, is active and has no exit set,
  -- the exit's epoch has come, the validator has served its time, and the signature passes.
  pub validate_voluntary_exit-MayExit :
      (validate_voluntary_exit ext s exit slots_per_epoch period ≡ ok tt)
      ↔ MayExit ext s exit slots_per_epoch period
  validate_voluntary_exit-MayExit = (accepted-MayExit, MayExit-accepted)
