-- ===== src/Block/Slashings.antt =====
-- When an attester slashing is accepted.
use trinity_eth.Base.{
  ℕ, ◌<◌, ◌≡◌, ◌⊎◌, inl, inr, ltb, ◌==◌, unnegated, not, ◌&&◌, ◌||◌, Bool, true, false, ok,
  raise_if-eq-ok, >>=-eq-ok, arith,
}
use trinity_eth.Types.{AttestationData, AttesterSlashing, BeaconState}
use trinity_eth.Extern.{Extern}
use trinity_eth.Attestations.{is_slashable_attestation_data}
use trinity_eth.Attestations.Ascending.{Ascending, validate_indexed_attestation-Ascending}
use trinity_eth.Block.Validation.{
  validate_is_slashable_attestation_data, validate_attester_slashing,
}

-- Two votes for one target epoch that differ.
pub record DoubleVote (ext : Extern) (a b : AttestationData) : Type 0 where
  pub differ : ext.same_attestation_data a b ≡ false
  pub one_target : a.target.epoch ≡ b.target.epoch

-- The first vote's link goes around the second's.
pub record SurroundVote (a b : AttestationData) : Type 0 where
  pub earlier_source : a.source.epoch < b.source.epoch
  pub later_target : b.target.epoch < a.target.epoch

offence :
    (same : Bool) (a b c d : ℕ)
    → (not same && a == b || ltb c d && ltb b a) ≡ true
    → ((same ≡ false) × (a ≡ b)) ⊎ ((c < d) × (b < a))
offence same a b c d h = ground arith

slashable_vote :
    (ext : Extern) (a b : AttestationData)
    → is_slashable_attestation_data ext a b ≡ true
    → DoubleVote ext a b ⊎ SurroundVote a b
unfolding is_slashable_attestation_data
slashable_vote ext a b h =
    elim (offence (ext.same_attestation_data a b) a.target.epoch b.target.epoch a.source.epoch
      b.source.epoch h) [
        | inl (differ, one) ↦ inl (record { differ = differ; one_target = one })
        | inr (earlier, later) ↦ inr (record { earlier_source = earlier; later_target = later })
      ]

-- What an attester slashing that is accepted shows.
pub record IsOffence (ext : Extern) (slashing : AttesterSlashing) : Type 0 where
  pub vote :
      DoubleVote ext slashing.attestation_1.attested slashing.attestation_2.attested
      ⊎ SurroundVote slashing.attestation_1.attested slashing.attestation_2.attested
  pub first_ascends : Ascending slashing.attestation_1.attesting_indices
  pub second_ascends : Ascending slashing.attestation_2.attesting_indices

-- An attester slashing that is accepted shows a double vote, or a first vote that surrounds the
-- second, and the indices of both its attestations strictly ascend.
pub validate_attester_slashing-IsOffence :
    (ext : Extern) (s : BeaconState) (slashing : AttesterSlashing) (slots_per_epoch : ℕ)
    → validate_attester_slashing ext s slashing slots_per_epoch ≡ ok tt
    → IsOffence ext slashing
unfolding validate_attester_slashing validate_is_slashable_attestation_data
validate_attester_slashing-IsOffence ext s slashing slots_per_epoch e0 =
    let (_, c1, e1) = >>=-eq-ok _ _ e0 in
    let (_, c2, c3) = >>=-eq-ok _ _ e1 in
    let slashable = unnegated _ (raise_if-eq-ok _ _ c1) in
    let (_, first) =
      validate_indexed_attestation-Ascending ext s slashing.attestation_1 slots_per_epoch c2 in
    let (_, second) =
      validate_indexed_attestation-Ascending ext s slashing.attestation_2 slots_per_epoch c3 in
    record {
      vote = slashable_vote ext _ _ slashable;
      first_ascends = first;
      second_ascends = second;
    }
