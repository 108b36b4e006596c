-- ===== src/Types/Containers.antt =====
-- The SSZ containers of eth2/beacon/types that blocks and states are made of, field by field.
use trinity_eth.Base.{ℕ, Bool, false, List, leb, ltb, ◌==◌, ◌&&◌, ◌-◌, ◌%◌, not, min}
use trinity_eth.Types.Config.{Eth2Config}
use trinity_eth.Types.Names.{
  Root, Hash32, Version, Domain, BlsPubkey, BlsSignature, Slot, Epoch, Gwei, ValidatorIndex,
  CommitteeIndex, far_future_epoch,
}

-- forks.py
pub record Fork : Type 0 where
  pub previous_version : Version
  pub current_version : Version
  pub epoch : Epoch

-- fork_data.py
pub record ForkData : Type 0 where
  pub current_version : Version
  pub genesis_validators_root : Root

-- signing_data.py
pub record SigningData : Type 0 where
  pub object_root : Root
  pub domain : Domain

-- checkpoints.py
pub record Checkpoint : Type 0 where
  pub epoch : Epoch
  pub root : Root

-- attestation_data.py
pub record AttestationData : Type 0 where
  pub slot : Slot
  pub index : CommitteeIndex
  pub beacon_block_root : Root
  pub source : Checkpoint
  pub target : Checkpoint

-- attestations.py
pub record Attestation : Type 0 where
  pub aggregation_bits : List Bool
  pub attested : AttestationData
  pub signature : BlsSignature

pub record IndexedAttestation : Type 0 where
  pub attesting_indices : List ValidatorIndex
  pub attested : AttestationData
  pub signature : BlsSignature

-- pending_attestations.py
pub record PendingAttestation : Type 0 where
  pub aggregation_bits : List Bool
  pub attested : AttestationData
  pub inclusion_delay : Slot
  pub proposer_index : ValidatorIndex

-- eth1_data.py
pub record Eth1Data : Type 0 where
  pub deposit_root : Root
  pub deposit_count : ℕ
  pub block_hash : Hash32

-- historical_batch.py
pub record HistoricalBatch : Type 0 where
  pub block_roots : List Root
  pub state_roots : List Hash32

-- deposit_data.py
pub record DepositMessage : Type 0 where
  pub pubkey : BlsPubkey
  pub withdrawal_credentials : Hash32
  pub amount : Gwei

pub record DepositData : Type 0 where
  pub pubkey : BlsPubkey
  pub withdrawal_credentials : Hash32
  pub amount : Gwei
  pub signature : BlsSignature

-- deposits.py
pub record Deposit : Type 0 where
  pub proof : List Hash32
  pub deposited : DepositData

-- block_headers.py
pub record BeaconBlockHeader : Type 0 where
  pub slot : Slot
  pub proposer_index : ValidatorIndex
  pub parent_root : Root
  pub state_root : Root
  pub body_root : Root

pub record SignedBeaconBlockHeader : Type 0 where
  pub message : BeaconBlockHeader
  pub signature : BlsSignature

-- proposer_slashings.py
pub record ProposerSlashing : Type 0 where
  pub signed_header_1 : SignedBeaconBlockHeader
  pub signed_header_2 : SignedBeaconBlockHeader

-- attester_slashings.py
pub record AttesterSlashing : Type 0 where
  pub attestation_1 : IndexedAttestation
  pub attestation_2 : IndexedAttestation

-- voluntary_exits.py
pub record VoluntaryExit : Type 0 where
  pub epoch : Epoch
  pub validator_index : ValidatorIndex

pub record SignedVoluntaryExit : Type 0 where
  pub message : VoluntaryExit
  pub signature : BlsSignature

-- validators.py
pub record Validator : Type 0 where
  pub pubkey : BlsPubkey
  pub withdrawal_credentials : Hash32
  pub effective_balance : Gwei
  pub slashed : Bool
  pub activation_eligibility_epoch : Epoch
  pub activation_epoch : Epoch
  pub exit_epoch : Epoch
  pub withdrawable_epoch : Epoch

abbrev pub round_down_to_previous_multiple : ℕ → ℕ → ℕ
round_down_to_previous_multiple amount increment = amount - amount % increment

abbrev pub calculate_effective_balance : Gwei → Eth2Config → Gwei
calculate_effective_balance amount config =
    min (round_down_to_previous_multiple amount config.effective_balance_increment)
      config.max_effective_balance

abbrev pub is_active : Validator → Epoch → Bool
is_active v epoch = leb v.activation_epoch epoch && ltb epoch v.exit_epoch

abbrev pub is_slashable : Validator → Epoch → Bool
is_slashable v epoch =
    not v.slashed && (leb v.activation_epoch epoch && ltb epoch v.withdrawable_epoch)

abbrev pub is_eligible_for_activation_queue : Validator → Eth2Config → Bool
is_eligible_for_activation_queue v config =
    v.activation_eligibility_epoch == far_future_epoch
    && v.effective_balance == config.max_effective_balance

abbrev pub create_pending_validator : BlsPubkey → Hash32 → Gwei → Eth2Config → Validator
create_pending_validator pubkey withdrawal_credentials amount config = record {
  pubkey = pubkey;
  withdrawal_credentials = withdrawal_credentials;
  effective_balance = calculate_effective_balance amount config;
  slashed = false;
  activation_eligibility_epoch = far_future_epoch;
  activation_epoch = far_future_epoch;
  exit_epoch = far_future_epoch;
  withdrawable_epoch = far_future_epoch;
}
