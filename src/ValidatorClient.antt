-- ===== src/ValidatorClient.antt =====
-- eth2/validator_client: duties, the store of duties, the key store and the signatory.
pub mod Duties
pub mod DutyStore
pub mod Keys
pub mod Signatory
