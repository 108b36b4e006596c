-- ===== src/Attestations.antt =====
-- eth2/beacon/attestation_helpers.py: indexed attestations and the Casper FFG slashing rules.
pub mod Ascending
use trinity_eth.Base.{
  ℕ, Bool, not, ◌&&◌, ◌||◌, ltb, ◌==◌, some, length, distinct, sort, same_bytes, Result, ok, raise,
  ◌>>=◌, ◌>>◌, raise_if, index, for_each, signature_error, validation_error,
}
use trinity_eth.Types.{domain_beacon_attester, AttestationData, IndexedAttestation, BeaconState}
use trinity_eth.Extern.{Extern}
use trinity_eth.Utils.Bls.{validate}
use trinity_eth.Helpers.{get_domain, compute_signing_root}

-- `except SignatureError as error: raise ValidationError(...)`; a `PublicKeyError` passes.
abbrev pub signature_as_validation {ℓ} : {A : Type ℓ} → Result A → Result A
signature_as_validation (ok a) = ok a
signature_as_validation (raise signature_error) = raise validation_error
signature_as_validation (raise e) = raise e

module _ (ext : Extern) where
  unfoldable pub validate_indexed_attestation_aggregate_signature :
      BeaconState → IndexedAttestation → ℕ → Result (Unit {0})
  validate_indexed_attestation_aggregate_signature state indexed slots_per_epoch = do
    public_keys ←
        for_each indexed.attesting_indices (λ i. index state.validators i >>= λ v. ok v.pubkey)
    let domain =
        get_domain ext state domain_beacon_attester slots_per_epoch
          (some indexed.attested.target.epoch)
    let signing_root = compute_signing_root ext (ext.attestation_data_root indexed.attested) domain
    validate ext signing_root indexed.signature public_keys

  -- `validate_signature` has its default, `True`.
  unfoldable pub validate_indexed_attestation :
      BeaconState → IndexedAttestation → ℕ → Result (Unit {0})
  validate_indexed_attestation state indexed slots_per_epoch = do
    raise_if (length indexed.attesting_indices == 0) validation_error
    raise_if
        (not (same_bytes indexed.attesting_indices (sort (distinct indexed.attesting_indices))))
        validation_error
    signature_as_validation
        (validate_indexed_attestation_aggregate_signature state indexed slots_per_epoch)

  unfoldable pub is_slashable_attestation_data : AttestationData → AttestationData → Bool
  is_slashable_attestation_data data_1 data_2 =
      not (ext.same_attestation_data data_1 data_2) && data_1.target.epoch == data_2.target.epoch
      || ltb data_1.source.epoch data_2.source.epoch && ltb data_2.target.epoch data_1.target.epoch
