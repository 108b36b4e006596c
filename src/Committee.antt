-- ===== src/Committee.antt =====
-- eth2/beacon/committee_helpers.py: the swap-or-not shuffle, proposers and committees. The
-- warning that `compute_proposer_index` logs is not modelled.
pub mod Proposer
pub mod Partition
pub mod Total
pub mod Shuffle
use trinity_eth.Base.{
  ℕ, zero, suc, ◌+◌, ◌-◌, ◌*◌, ◌/◌, ◌%◌, min, max, ltb, leb, ◌==◌, Bool, true, false, if◌then◌else◌,
  List, [], ◌∷◌, ◌++◌, ◌^◌, length, range, take, drop, Result, ok, raise, ◌>>=◌, ◌>>◌, raise_if,
  index, for_each, fold_list, validation_error, out_of_rounds,
}
use trinity_eth.Types.{
  Bytes, Hash32, Slot, Epoch, Gwei, ValidatorIndex, CommitteeIndex, domain_beacon_proposer,
  domain_beacon_attester, Validator, BeaconState, current_epoch, compute_epoch_at_slot, Eth2Config,
  max_index_count, max_random_byte,
}
use trinity_eth.Extern.{Extern}
use trinity_eth.Utils.Bytes.{to_bytes, from_bytes}
use trinity_eth.Helpers.{
  get_active_validator_indices, get_seed, signature_domain_to_domain_type,
  compute_start_slot_at_epoch,
}

unfoldable pub get_committee_count_per_slot_at_epoch : BeaconState → Epoch → ℕ → ℕ → ℕ → ℕ
get_committee_count_per_slot_at_epoch state epoch max_committees_per_slot slots_per_epoch
      target_committee_size =
    max 1 (
      min max_committees_per_slot (
        length (get_active_validator_indices state.validators epoch)
        / slots_per_epoch
        / target_committee_size))

unfoldable pub get_committee_count_at_slot : BeaconState → Slot → ℕ → ℕ → ℕ → ℕ
get_committee_count_at_slot state slot max_committees_per_slot slots_per_epoch
      target_committee_size =
    get_committee_count_per_slot_at_epoch state (compute_epoch_at_slot slot slots_per_epoch)
      max_committees_per_slot slots_per_epoch target_committee_size

-- The part of a round that follows the hashes: swap with the mirror image about the pivot, or
-- not, as the bit at the larger of both positions says.
abbrev pub flip_of : ℕ → ℕ → ℕ → ℕ
flip_of index_count pivot i = (pivot + index_count - i) % index_count

module _ (ext : Extern) where
  -- `pivot` of a round.
  unfoldable pub round_pivot : ℕ → Hash32 → ℕ → Result ℕ
  round_pivot index_count seed round = do
    round_byte ← to_bytes round 1
    ok (from_bytes (take 8 (ext.sha256 (seed ++ round_byte))) % index_count)

  -- `bit` of a round at a position.
  unfoldable pub round_bit : Hash32 → ℕ → ℕ → Result ℕ
  round_bit seed round position = do
    round_byte ← to_bytes round 1
    position_bytes ← to_bytes (position / 256) 4
    byte ← index (ext.sha256 (seed ++ round_byte ++ position_bytes)) (position % 256 / 8)
    ok (byte / 2 ^ (position % 8) % 2)

  -- The body of the `for current_round in range(shuffle_round_count)` loop.
  unfoldable pub shuffle_round : ℕ → Hash32 → ℕ → ℕ → Result ℕ
  shuffle_round index_count seed new_index round = do
    pivot ← round_pivot index_count seed round
    let flip = flip_of index_count pivot new_index
    let position = max new_index flip
    bit ← round_bit seed round position
    ok (if bit == 0 then new_index else flip)

  unfoldable pub compute_shuffled_index : ℕ → ℕ → Hash32 → ℕ → Result ℕ
  compute_shuffled_index i index_count seed shuffle_round_count = do
    raise_if (leb index_count i) validation_error
    raise_if (ltb max_index_count index_count) validation_error
    fold_list (range 0 shuffle_round_count) (shuffle_round index_count seed) i

  -- One round of the `while True` loop: the candidate, and whether it is taken.
  unfoldable pub proposer_candidate :
      List Validator → List ValidatorIndex → Hash32 → Gwei → ℕ → ℕ → Result (ValidatorIndex × Bool)
  proposer_candidate validators indices seed max_effective_balance shuffle_round_count i = do
    shuffled ← compute_shuffled_index (i % length indices) (length indices) seed shuffle_round_count
    candidate_index ← index indices shuffled
    i_bytes ← to_bytes (i / 32) 8
    random_byte ← index (ext.sha256 (seed ++ i_bytes)) (i % 32)
    validator ← index validators candidate_index
    ok (
      candidate_index,
      leb (max_effective_balance * random_byte) (validator.effective_balance * max_random_byte),
    )

  -- The loop from round `i` on, for `rounds` rounds.
  unfoldable pub proposer_loop :
      ℕ → List Validator → List ValidatorIndex → Hash32 → Gwei → ℕ → ℕ → Result ValidatorIndex
  proposer_loop zero validators indices seed max_effective_balance shuffle_round_count i =
      raise out_of_rounds
  proposer_loop (suc rounds) validators indices seed max_effective_balance shuffle_round_count i =
      let rest =
        proposer_loop rounds validators indices seed max_effective_balance shuffle_round_count
          (i + 1) in
      proposer_candidate validators indices seed max_effective_balance shuffle_round_count i
      >>= λ found. if found.1 then ok found.0 else rest

  unfoldable pub compute_proposer_index :
      List Validator → List ValidatorIndex → Hash32 → Gwei → ℕ → Result ValidatorIndex
  compute_proposer_index validators indices seed max_effective_balance shuffle_round_count = do
    raise_if (length indices == 0) validation_error
    proposer_loop ext.proposer_rounds validators indices seed max_effective_balance
        shuffle_round_count 0

  unfoldable pub get_beacon_proposer_index : BeaconState → Eth2Config → Result ValidatorIndex
  get_beacon_proposer_index state config = do
    let epoch = current_epoch state config.slots_per_epoch
    let domain_type = signature_domain_to_domain_type domain_beacon_proposer
    epoch_seed ← get_seed ext state epoch domain_type config
    slot_bytes ← to_bytes state.slot 8
    compute_proposer_index state.validators (get_active_validator_indices state.validators epoch)
        (ext.sha256 (epoch_seed ++ slot_bytes)) config.max_effective_balance
        config.shuffle_round_count

  -- The members `range(start, end)` of a committee, each an active index after the shuffle.
  unfoldable pub committee_members :
      List ValidatorIndex → Hash32 → ℕ → List ℕ → Result (List ValidatorIndex)
  committee_members indices seed shuffle_round_count positions =
      for_each positions
        λ i. compute_shuffled_index i (length indices) seed shuffle_round_count >>= index indices

  unfoldable pub compute_committee :
      List ValidatorIndex → Hash32 → ℕ → ℕ → ℕ → Result (List ValidatorIndex)
  compute_committee indices seed i count shuffle_round_count =
      let start = length indices * i / count in
      let stop = length indices * (i + 1) / count in
      committee_members indices seed shuffle_round_count (range start (stop - start))

  unfoldable pub get_beacon_committee :
      BeaconState → Slot → CommitteeIndex → Eth2Config → Result (List ValidatorIndex)
  get_beacon_committee state slot i config = do
    let epoch = compute_epoch_at_slot slot config.slots_per_epoch
    let committees_per_slot =
        get_committee_count_at_slot state slot config.max_committees_per_slot config.slots_per_epoch
          config.target_committee_size
    let active = get_active_validator_indices state.validators epoch
    seed ← get_seed ext state epoch (signature_domain_to_domain_type domain_beacon_attester) config
    compute_committee active seed (slot % config.slots_per_epoch * committees_per_slot + i)
        (committees_per_slot * config.slots_per_epoch) config.shuffle_round_count

  unfoldable pub iterate_committees_at_slot :
      BeaconState
      → Slot
      → ℕ
      → Eth2Config
      → Result (List (List ValidatorIndex × CommitteeIndex × Slot))
  iterate_committees_at_slot state slot committees_per_slot config =
      for_each (range 0 committees_per_slot)
        λ i. get_beacon_committee state slot i config >>= λ committee. ok (committee, i, slot)

  unfoldable pub iterate_committees_at_epoch :
      BeaconState
      → Epoch
      → Eth2Config
      → Result (List (List (List ValidatorIndex × CommitteeIndex × Slot)))
  iterate_committees_at_epoch state epoch config =
      let committees_per_slot =
        get_committee_count_per_slot_at_epoch state epoch config.max_committees_per_slot
          config.slots_per_epoch config.target_committee_size in
      for_each
        (range (compute_start_slot_at_epoch epoch config.slots_per_epoch) config.slots_per_epoch)
        λ slot. iterate_committees_at_slot state slot committees_per_slot config
