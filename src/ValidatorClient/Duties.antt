-- ===== src/ValidatorClient/Duties.antt =====
-- eth2/validator_client/duty.py and eth2/clock/tick.py. A tick is modelled without its time in
-- seconds, a float that neither the store nor the signatory reads. The committee of a duty is
-- `none` where the duty is no attestation.
use trinity_eth.Base.{ℕ, Option, none, some}
use trinity_eth.Types.{
  BlsPubkey, Slot, Epoch, CommitteeIndex, SignatureDomain, domain_beacon_attester,
  domain_beacon_proposer,
}

pub record Tick : Type 0 where
  pub slot : Slot
  pub epoch : Epoch
  pub count : ℕ

pub data DutyType : Type 0 where
  attestation_type : DutyType
  block_proposal_type : DutyType

pub record Duty : Type 0 where
  pub validator_public_key : BlsPubkey
  pub tick_for_execution : Tick
  pub discovered_at_tick : Tick
  pub tick_count : ℕ
  pub duty_type : DutyType
  pub signature_domain : SignatureDomain
  pub committee_index : Option CommitteeIndex

abbrev pub attestation_duty : BlsPubkey → Tick → Tick → CommitteeIndex → Duty
attestation_duty key execution discovered committee_index = record {
  validator_public_key = key;
  tick_for_execution = execution;
  discovered_at_tick = discovered;
  tick_count = 1;
  duty_type = attestation_type;
  signature_domain = domain_beacon_attester;
  committee_index = some committee_index;
}

abbrev pub block_proposal_duty : BlsPubkey → Tick → Tick → Duty
block_proposal_duty key execution discovered = record {
  validator_public_key = key;
  tick_for_execution = execution;
  discovered_at_tick = discovered;
  tick_count = 0;
  duty_type = block_proposal_type;
  signature_domain = domain_beacon_proposer;
  committee_index = none;
}
