-- ===== src/Block/Inclusion.antt =====
-- When an attestation is accepted, and what is recorded of it.
use trinity_eth.Base.{
  unnegated, ℕ, ◌+◌, ◌≤◌, ◌<◌, ◌≡◌, ◌≢◌, ◌⊎◌, ◌==◌, ==→eq, ltb→ge, leb→gt, not, ◌||◌, true, false,
  List, length, ok, raise_if-eq-ok, >>=-eq-ok, arith,
}
use trinity_eth.Types.{
  ValidatorIndex, Attestation, AttestationData, BeaconState, Eth2Config, current_epoch,
  previous_epoch, compute_epoch_at_slot,
}
use trinity_eth.Extern.{Extern}
use trinity_eth.Committee.{get_committee_count_at_slot, get_beacon_committee}
use trinity_eth.Block.AttestationValidation.{
  validate_eligible_committee_index, validate_eligible_target_epoch,
  validate_slot_matches_target_epoch, validate_attestation_slot, expected_source,
  validate_checkpoint, validate_attestation_data, validate_aggregation_bits, validate_attestation,
}

either : (target a b : ℕ) → not (target == a || target == b) ≡ false → (target ≡ a) ⊎ (target ≡ b)
either target a b h = ground arith

-- What holds of an attestation that a state accepts.
pub record Includable (ext : Extern) (s : BeaconState) (a : AttestationData) (config : Eth2Config)
    : Type 0 where
  pub committee_exists :
      a.index
      < get_committee_count_at_slot s a.slot config.max_committees_per_slot config.slots_per_epoch
          config.target_committee_size
  pub recent_target :
      (a.target.epoch ≡ previous_epoch s config.slots_per_epoch)
      ⊎ (a.target.epoch ≡ current_epoch s config.slots_per_epoch)
  pub target_of_slot : a.target.epoch ≡ compute_epoch_at_slot a.slot config.slots_per_epoch
  pub late_enough : a.slot + config.min_attestation_inclusion_delay ≤ s.slot
  pub early_enough : s.slot ≤ a.slot + config.slots_per_epoch
  -- the source of an attestation to the current epoch, or of one to the previous epoch
  pub justified_source :
      ((a.target.epoch ≡ current_epoch s config.slots_per_epoch)
        × (ext.same_checkpoint a.source s.current_justified_checkpoint ≡ true))
      ⊎ ((a.target.epoch ≢ current_epoch s config.slots_per_epoch)
          × (ext.same_checkpoint a.source s.previous_justified_checkpoint ≡ true))

module _ (ext : Extern) (s : BeaconState) (config : Eth2Config) where
  expected_source_sides :
      (a : AttestationData)
      → ext.same_checkpoint a.source (expected_source s a config.slots_per_epoch) ≡ true
      → ((a.target.epoch ≡ current_epoch s config.slots_per_epoch)
          × (ext.same_checkpoint a.source s.current_justified_checkpoint ≡ true))
        ⊎ ((a.target.epoch ≢ current_epoch s config.slots_per_epoch)
            × (ext.same_checkpoint a.source s.previous_justified_checkpoint ≡ true))
  unfolding expected_source
  expected_source_sides a h = ground arith

  slot_bounds :
      (slot : ℕ) {u : Unit {0}}
      → validate_attestation_slot slot s.slot config.slots_per_epoch
          config.min_attestation_inclusion_delay
        ≡ ok u
      → (slot + config.min_attestation_inclusion_delay ≤ s.slot)
        × (s.slot ≤ slot + config.slots_per_epoch)
  unfolding validate_attestation_slot
  slot_bounds slot e0 =
      let (_, c1, c2) = >>=-eq-ok _ _ e0 in
      (ltb→ge _ _ (raise_if-eq-ok _ _ c1), ltb→ge _ _ (raise_if-eq-ok _ _ c2))

  data-Includable :
      (a : AttestationData) {u : Unit {0}}
      → validate_attestation_data ext s a config ≡ ok u
      → Includable ext s a config
  unfolding validate_attestation_data validate_eligible_committee_index
      validate_eligible_target_epoch validate_slot_matches_target_epoch validate_checkpoint
  data-Includable a e0 =
      let (_, c1, e1) = >>=-eq-ok _ _ e0 in
      let (_, c2, e2) = >>=-eq-ok _ _ e1 in
      let (_, c3, e3) = >>=-eq-ok _ _ e2 in
      let (_, c4, c5) = >>=-eq-ok _ _ e3 in
      let h2 = raise_if-eq-ok _ _ c2 in
      let h3 = raise_if-eq-ok _ _ c3 in
      let h5 = raise_if-eq-ok _ _ c5 in
      let (late, early) = slot_bounds a.slot c4 in
      record {
        committee_exists = leb→gt _ _ (raise_if-eq-ok _ _ c1);
        recent_target = either a.target.epoch _ _ h2;
        target_of_slot = ==→eq _ _ (unnegated _ h3);
        late_enough = late;
        early_enough = early;
        justified_source = expected_source_sides a (unnegated _ h5);
      }

  -- An attestation that is accepted names an existing committee, targets the previous or the
  -- current epoch, which is the epoch of its slot, comes no sooner than the inclusion delay and
  -- no later than an epoch after its slot, has the current justified checkpoint of the state as
  -- its source if it targets the current epoch, and the previous justified checkpoint if it does
  -- not, and has one bit for each member of its committee.
  pub validate_attestation-Includable :
      (attestation : Attestation)
      → validate_attestation ext s attestation config ≡ ok tt
      → Includable ext s attestation.attested config
        × ((committee : List ValidatorIndex) × (get_beacon_committee ext s attestation.attested.slot
                attestation.attested.index config
              ≡ ok committee)
            × (length attestation.aggregation_bits ≡ length committee))
  unfolding validate_attestation validate_aggregation_bits
  validate_attestation-Includable attestation e0 =
      let (_, c1, e1) = >>=-eq-ok _ _ e0 in
      let (_, c2, _) = >>=-eq-ok _ _ e1 in
      let (committee, found, sized) = >>=-eq-ok _ _ c2 in
      (
        data-Includable attestation.attested c1,
        (committee, found, ==→eq _ _ (unnegated _ (raise_if-eq-ok _ _ sized))),
      )
