-- ===== src/Extern.antt =====
-- What the state transition takes from code outside the repository: SHA-256 (hashlib), the hash
-- tree roots and the equality of SSZ containers (py-ssz), and the BLS backends. Each is a field,
-- and every definition that needs one takes the record as its argument `ext`.
use trinity_eth.Base.{ℕ, Bool, true, List, ◌≡◌, ◌↔◌, length}
use trinity_eth.Types.{
  Bytes, Root, Hash32, BlsPubkey, BlsSignature, Epoch, Checkpoint, AttestationData, Eth1Data,
  HistoricalBatch, DepositMessage, DepositData, BeaconBlockHeader, SignedBeaconBlockHeader,
  VoluntaryExit, ForkData, SigningData, Validator, BeaconBlock, BeaconBlockBody, BeaconState,
}

pub record Extern : Type 0 where
  -- `hashlib.sha256(b).digest()`
  pub sha256 : Bytes → Hash32
  -- `.hash_tree_root` of each container
  pub state_root : BeaconState → Root
  pub header_root : BeaconBlockHeader → Root
  pub block_root : BeaconBlock → Root
  pub body_root : BeaconBlockBody → Root
  pub attestation_data_root : AttestationData → Root
  pub deposit_message_root : DepositMessage → Root
  pub deposit_data_root : DepositData → Root
  pub voluntary_exit_root : VoluntaryExit → Root
  pub uint64_root : Epoch → Root
  pub fork_data_root : ForkData → Root
  pub signing_data_root : SigningData → Root
  pub historical_batch_root : HistoricalBatch → Root
  pub validators_root : List Validator → Root
  pub deposit_data_list_root : List DepositData → Root
  -- `==` on containers
  pub same_checkpoint : Checkpoint → Checkpoint → Bool
  pub same_attestation_data : AttestationData → AttestationData → Bool
  pub same_signed_header : SignedBeaconBlockHeader → SignedBeaconBlockHeader → Bool
  pub same_eth1_data : Eth1Data → Eth1Data → Bool
  -- the backend of eth2/_utils/bls in use: whether it is `NoOpBackend`, and its methods
  -- `Verify` and `FastAggregateVerify`
  pub is_noop_backend : Bool
  pub verify : BlsPubkey → Hash32 → BlsSignature → Bool
  pub fast_aggregate_verify : List BlsPubkey → Hash32 → BlsSignature → Bool
  -- how many rounds the model gives to the `while True` of `compute_proposer_index`
  pub proposer_rounds : ℕ

-- A digest has 32 bytes.
abbrev pub HashesTo32 : Extern → Type 0
HashesTo32 ext = (b : Bytes) → length (ext.sha256 b) ≡ 32

-- Containers of one class are equal when their fields are.
pub record ComparesFields (ext : Extern) : Type 0 where
  pub checkpoints : (a b : Checkpoint) → (ext.same_checkpoint a b ≡ true) ↔ (a ≡ b)
  pub attestation_data : (a b : AttestationData) → (ext.same_attestation_data a b ≡ true) ↔ (a ≡ b)
  pub signed_headers :
      (a b : SignedBeaconBlockHeader) → (ext.same_signed_header a b ≡ true) ↔ (a ≡ b)
  pub eth1_data : (a b : Eth1Data) → (ext.same_eth1_data a b ≡ true) ↔ (a ≡ b)
