-- ===== src/Lib.antt =====
-- The beacon chain of eth2/beacon: how a beacon state moves from slot to slot, through the ends of
-- epochs and over the blocks it accepts, and how the fork choice finds the head among the blocks.
--
-- The parts and the files that model them. Each function has the name of the Python function, less
-- a leading underscore; a loop's body or a closure of the source is a function of its own beside
-- it.
--
--   Types            eth2/beacon/types/*.py, typing.py, constants.py, signature_domain.py and
--                    eth2/configs.py: records with the containers' fields. The field `data` of an
--                    attestation is `attested`, the field `data` of a deposit is `deposited`.
--   Extern           what is taken from outside the repository, see below.
--   Utils            eth2/_utils: bitfield.py, tuple.py, numeric.py, bls/ and merkle/ (common.py and
--                    normal.py).
--   Helpers          eth2/beacon/helpers.py.
--   Committee        eth2/beacon/committee_helpers.py: the shuffle, proposers and committees.
--   EpochHelpers     eth2/beacon/epoch_processing_helpers.py.
--   ValidatorStatus  eth2/beacon/validator_status_helpers.py: exits and slashing.
--   Deposits         eth2/beacon/deposit_helpers.py.
--   Attestations     eth2/beacon/attestation_helpers.py.
--   Epoch            epoch_processing.py of eth2/beacon/state_machines/forks/serenity, as are the
--                    next two: Epoch/Justification, Epoch/Rewards, Epoch/Registry, Epoch/Final.
--   Block            block_processing.py, block_validation.py and operation_processing.py.
--   Slots            slot_processing.py and state_transitions.py.
--   Invariant        the shape of a state that every operation keeps.
--   Genesis          eth2/beacon/genesis.py, and the defaults of `create` that it uses.
--   ForkChoice       eth2/beacon/fork_choice/lmd_ghost2.py: ProtoArray (the tree of blocks), Votes
--                    (`ProtoArrayForkChoice`) and LmdGhost (`LMDGHOSTForkChoice`). Where two classes
--                    have a method of one name, that of the outer one has a longer name here.
--   ValidatorClient  eth2/validator_client: Duties (duty.py and eth2/clock/tick.py), DutyStore
--                    (duty_store.py), Keys (`KeyStore.private_key_for` of key_store.py and `Eth2BLS.sign`)
--                    and Signatory (signatory.py, signatory_db.py and the loop of `Client.signatory`).
--   Tests            runs of the model, and the theorems at concrete states.
--
-- `apply_state_transition` calls `process_slots`, which runs `process_slot` for every slot and
-- `process_epoch` at the end of every epoch, and then `process_block`, which checks the header and
-- runs the block's operations. The state is passed from each step to the next, as the source does
-- with its persistent containers.
--
-- The fork choice keeps its own state: `LmdGhostForkChoice` holds a `ProtoArrayForkChoice`, which
-- holds the `ProtoArray`. Blocks and attestations are fed to it after the transition; a justified
-- state prunes the array, sets the balances and applies the votes. The calls of the block sink are
-- returned as a list.
--
-- The validator client stands apart: its store keeps the duties of its validators by tick, and its
-- signatory signs the operation of a duty unless the database has a signature of its kind for the
-- validator and the slot. It runs one call after the other: no call of the in-memory database
-- gives way to another task. A call in which `sign` raises, since the key store has no key of the
-- validator or the key is out of range, leaves the record of the signature and publishes nothing.
-- Such a call makes async_service end the client; the calls after it in the model are those of the
-- tasks that were started before and still run, and their number is left open. The record `Signer`
-- has what the signatory takes from outside: py-ssz's encoding of integers, the root of an
-- attestation, the key store, and the backend of `bls` with the order of its curve.
--
-- How the code is read. A function that can raise returns a `Result`; its errors are the
-- exceptions of the source, by kind, without their messages. An index out of a list's range raises
-- `index_error`, where py-ssz does; where the source updates by `transform` (`increase_balance`,
-- `decrease_balance` and `initiate_validator_exit`) it raises there too, but another kind of
-- exception. Python's integers are unbounded, and the model's are the
-- natural numbers: a subtraction whose result can be negative is written with ℤ or with a test.
-- The bound of 64 bits that py-ssz puts on a field when it is encoded is not modelled. A set is a
-- list without duplicates. Caches (`lru_cache`), logging and printing are left out.
--
-- What is outside. SHA-256, the hash tree roots, the equality of containers and the BLS backend
-- are the fields of `Extern`. A theorem that needs digests of 32 bytes says so (`HashesTo32`).
-- `integer_squareroot` takes the integral part of a decimal root with 128 digits, and the model is
-- the largest number whose square is at most the value. `calc_merkle_tree_from_leaves` takes
-- `math.log2` of the number of leaves, and the model the logarithm of an exact power of two, which
-- is the same below 2^40 leaves; for some larger numbers that are no power of two, as 2^49 - 1, the
-- logarithm is a whole float, and the source goes on and raises `Exception` where the model raises
-- `value_error`.
--
-- Fuel. The loop of `process_slots` has as fuel the number of slots that are left, and each round
-- goes on by one slot. The loop of `compute_proposer_index` has no bound in the source; its fuel
-- is `proposer_rounds` of `Extern`, and `out_of_rounds` is raised when it is used up.
-- `canonical_chain` has a round for each node and one more, which is enough since parents come
-- before their children.
--
-- Not modelled: the older fork choice rules, the start of the fork choice from a database, the
-- chain's database, the clock and the validator client's scheduling, which build the inputs of the
-- modelled parts or keep their results; the second implementation of the transition for Medalla,
-- which does the same work with caches; and the node application in trinity-eth2, which is input
-- and output around them.
pub mod Base
pub mod Types
pub mod Extern
pub mod Invariant
pub mod Utils
pub mod Helpers
pub mod Committee
pub mod EpochHelpers
pub mod ValidatorStatus
pub mod Deposits
pub mod Attestations
pub mod Epoch
pub mod Block
pub mod Slots
pub mod Genesis
pub mod ForkChoice
pub mod ValidatorClient
pub mod Tests
