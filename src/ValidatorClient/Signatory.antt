-- ===== src/ValidatorClient/Signatory.antt =====
-- eth2/validator_client/signatory_db.py and signatory.py. The operation of a duty is of the class
-- that the duty's type calls for, so that the casts of the source hold. The calls of
-- `beacon_node.publish` are returned as a list, the last one first. `ssz.encode` of a slot, the
-- root of an attestation, the key store and the backend of `bls` are parameters. No call of the
-- in-memory database gives way to another task, so a call up to `publish` is one step. A call that
-- raises after the signature is recorded leaves the record and publishes nothing; the outcome of
-- each call is returned.
pub mod Once
pub mod Authorized
pub mod Served
use trinity_eth.Base.{
  ℕ, Bool, if◌then◌else◌, List, [], ◌∷◌, ◌++◌, replicate, Dict, dict_has, dict_set, Result, ok,
  raise, ◌>>=◌,
}
use trinity_eth.Types.{
  Bytes, Root, Hash32, BlsPubkey, BlsSignature, Slot, Attestation, BeaconBlock, SignedBeaconBlock,
}
use trinity_eth.Extern.{Extern}
use trinity_eth.Helpers.{compute_domain, compute_signing_root}
use trinity_eth.ValidatorClient.Keys.{KeyStore, Backend, private_key_for, bls_sign}
use trinity_eth.ValidatorClient.Duties.{Duty, DutyType, attestation_type, block_proposal_type}

abbrev pub Operation : DutyType → Type 0
Operation attestation_type = Attestation
Operation block_proposal_type = BeaconBlock

abbrev pub SignedOperation : DutyType → Type 0
SignedOperation attestation_type = Attestation
SignedOperation block_proposal_type = SignedBeaconBlock

pub record ResolvedDuty : Type 0 where
  pub duty : Duty
  pub operation : Operation duty.duty_type

pub record Publication : Type 0 where
  pub duty : Duty
  pub operation : SignedOperation duty.duty_type

pub record SignatoryState : Type 0 where
  pub db : Dict Root
  pub published : List Publication

abbrev pub no_signatures : SignatoryState
no_signatures = record { db = []; published = [] }

-- The root that signatory.py writes out as a constant.
abbrev pub testing_validators_root : Root
testing_validators_root =
    131 ∷ 67 ∷ 30 ∷ 199 ∷ 252 ∷ 249 ∷ 44 ∷ 252 ∷ 68 ∷ 148 ∷ 127 ∷ 192 ∷ 65 ∷ 142 ∷ 131 ∷ 28 ∷ 37
    ∷ 225 ∷ 208 ∷ 128 ∷ 101 ∷ 144 ∷ 35 ∷ 28 ∷ 67 ∷ 152 ∷ 48 ∷ 219 ∷ 122 ∷ 213 ∷ 79 ∷ 218 ∷ []

-- What the signatory takes from outside.
pub record Signer : Type 0 where
  -- `ssz.encode(slot, ssz.sedes.uint64)`
  pub encode_uint64 : ℕ → Bytes
  pub attestation_root : Attestation → Root
  pub key_store : KeyStore
  pub backend : Backend

module _ (ext : Extern) (signer : Signer) where
  abbrev pub operation_tag : DutyType → Bytes
  operation_tag attestation_type = 0 ∷ []
  operation_tag block_proposal_type = 1 ∷ []

  -- The keys of the database, for an attestation and for a block proposal.
  abbrev pub key_for : Duty → Bytes
  key_for duty =
      operation_tag duty.duty_type
      ++ duty.validator_public_key
      ++ signer.encode_uint64 duty.tick_for_execution.slot

  abbrev pub is_slashable : Dict Root → Duty → Bool
  is_slashable db duty = dict_has (key_for duty) db

  abbrev pub operation_root : (t : DutyType) → Operation t → Root
  operation_root attestation_type attestation = signer.attestation_root attestation
  operation_root block_proposal_type block = ext.block_root block

  abbrev pub record_signature_for : Dict Root → ResolvedDuty → Dict Root
  record_signature_for db r =
      dict_set (key_for r.duty) (operation_root r.duty.duty_type r.operation) db

  unfoldable pub sign : ResolvedDuty → Result BlsSignature
  sign r = do
    private_key ← private_key_for signer.key_store r.duty.validator_public_key
    let domain = compute_domain ext r.duty.signature_domain (replicate 4 0) testing_validators_root
    bls_sign signer.backend private_key
        (compute_signing_root ext (operation_root r.duty.duty_type r.operation) domain)

  abbrev pub attach_signature : (t : DutyType) → Operation t → BlsSignature → SignedOperation t
  attach_signature attestation_type attestation signature = record attestation {
    signature = signature;
  }
  attach_signature block_proposal_type block signature = record {
    message = block;
    signature = signature;
  }

  -- What follows the call of `sign`, which may have raised.
  abbrev pub broadcast :
      SignatoryState → ResolvedDuty → Result BlsSignature → SignatoryState × Result (Unit {0})
  broadcast s r (ok signature) = (
    record s {
      published =
          record {
            duty = r.duty;
            operation = attach_signature r.duty.duty_type r.operation signature;
          }
          ∷ s.published;
    },
    ok tt,
  )
  broadcast s r (raise e) = (s, raise e)

  unfoldable pub sign_and_broadcast_operation_if_valid :
      SignatoryState → ResolvedDuty → SignatoryState × Result (Unit {0})
  sign_and_broadcast_operation_if_valid s r =
      if is_slashable s.db r.duty
      then (s, ok tt)
      else broadcast (record s { db = record_signature_for s.db r }) r (sign r)

  -- The tasks that the signatory's loop starts for the resolved duties, each run on what those
  -- before it left, with the outcome of each.
  unfoldable pub signatory :
      SignatoryState → List ResolvedDuty → SignatoryState × List (Result (Unit {0}))
  signatory s [] = (s, [])
  signatory s (r ∷ resolved_duties) =
      let (s', outcome) = sign_and_broadcast_operation_if_valid s r in
      let (last, outcomes) = signatory s' resolved_duties in (last, outcome ∷ outcomes)
