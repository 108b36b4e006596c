-- ===== src/Utils.antt =====
-- eth2/_utils: bit fields, tuples, numbers, byte strings, BLS and Merkle trees.
pub mod Bytes
pub mod Bitfield
pub mod Numeric
pub mod Bls
pub mod Merkle
