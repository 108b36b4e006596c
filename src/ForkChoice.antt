-- ===== src/ForkChoice.antt =====
-- eth2/beacon/fork_choice: the LMD GHOST fork choice on a proto-array.
pub mod ProtoArray
pub mod Votes
pub mod LmdGhost
