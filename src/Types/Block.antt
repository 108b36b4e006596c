-- ===== src/Types/Block.antt =====
-- eth2/beacon/types/blocks.py: blocks and their bodies.
use trinity_eth.Base.{List}
use trinity_eth.Types.Names.{Root, Hash32, BlsSignature, Slot, ValidatorIndex}
use trinity_eth.Types.Containers.{
  Eth1Data, ProposerSlashing, AttesterSlashing, Attestation, Deposit, SignedVoluntaryExit,
}

pub record BeaconBlockBody : Type 0 where
  pub randao_reveal : BlsSignature
  pub eth1_data : Eth1Data
  pub graffiti : Hash32
  pub proposer_slashings : List ProposerSlashing
  pub attester_slashings : List AttesterSlashing
  pub attestations : List Attestation
  pub deposits : List Deposit
  pub voluntary_exits : List SignedVoluntaryExit

pub record BeaconBlock : Type 0 where
  pub slot : Slot
  pub proposer_index : ValidatorIndex
  pub parent_root : Root
  pub state_root : Hash32
  pub body : BeaconBlockBody

pub record SignedBeaconBlock : Type 0 where
  pub message : BeaconBlock
  pub signature : BlsSignature
