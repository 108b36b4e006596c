-- ===== src/Types/Names.antt =====
-- eth2/beacon/typing.py, constants.py and signature_domain.py: named types and constants. Python's
-- integers are unbounded, and none of these is negative.
use trinity_eth.Base.{ℕ, ◌-◌, ◌^◌, List, replicate}

abbrev pub Bytes : Type 0
Bytes = List ℕ

abbrev pub Root : Type 0
Root = Bytes

abbrev pub Hash32 : Type 0
Hash32 = Bytes

abbrev pub Version : Type 0
Version = Bytes

abbrev pub Domain : Type 0
Domain = Bytes

abbrev pub BlsPubkey : Type 0
BlsPubkey = Bytes

abbrev pub BlsSignature : Type 0
BlsSignature = Bytes

abbrev pub Slot : Type 0
Slot = ℕ

abbrev pub Epoch : Type 0
Epoch = ℕ

abbrev pub Gwei : Type 0
Gwei = ℕ

abbrev pub ValidatorIndex : Type 0
ValidatorIndex = ℕ

abbrev pub CommitteeIndex : Type 0
CommitteeIndex = ℕ

abbrev pub far_future_epoch : Epoch
far_future_epoch = 2 ^ 64 - 1

abbrev pub genesis_slot : Slot
genesis_slot = 0

abbrev pub genesis_epoch : Epoch
genesis_epoch = 0

abbrev pub max_index_count : ℕ
max_index_count = 2 ^ 40

abbrev pub max_random_byte : ℕ
max_random_byte = 2 ^ 8 - 1

abbrev pub base_rewards_per_epoch : ℕ
base_rewards_per_epoch = 4

abbrev pub deposit_contract_tree_depth : ℕ
deposit_contract_tree_depth = 2 ^ 5

abbrev pub zero_hash32 : Hash32
zero_hash32 = replicate 32 0

abbrev pub empty_signature : BlsSignature
empty_signature = replicate 96 0

abbrev pub empty_pubkey : BlsPubkey
empty_pubkey = replicate 48 0

-- `class SignatureDomain(IntEnum)`
pub data SignatureDomain : Type 0 where
  domain_beacon_proposer : SignatureDomain
  domain_beacon_attester : SignatureDomain
  domain_randao : SignatureDomain
  domain_deposit : SignatureDomain
  domain_voluntary_exit : SignatureDomain
  domain_selection_proof : SignatureDomain
  domain_aggregate_and_proof : SignatureDomain

abbrev pub domain_value : SignatureDomain → ℕ
domain_value domain_beacon_proposer = 0
domain_value domain_beacon_attester = 1
domain_value domain_randao = 2
domain_value domain_deposit = 3
domain_value domain_voluntary_exit = 4
domain_value domain_selection_proof = 5
domain_value domain_aggregate_and_proof = 6
