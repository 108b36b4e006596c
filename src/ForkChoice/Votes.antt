-- ===== src/ForkChoice/Votes.antt =====
-- eth2/beacon/fork_choice/lmd_ghost2.py, `VoteTracker`, `ProtoArrayForkChoice` and
-- `_compute_deltas`. The checkpoints of `ProtoArrayForkChoice` are missing until `update_justified`
-- sets them. `compute_deltas` returns the votes beside the deltas, since it changes them.
pub mod Deltas
pub mod Counted
pub mod Attesting
pub mod Arriving
pub mod Changes
pub mod Latest
pub mod Start
use trinity_eth.Base.{
  ℕ, ◌+◌, ◌-◌, ltb, leb, ◌==◌, Bool, not, ◌&&◌, ◌||◌, if◌then◌else◌, Option, none, some, List, [],
  ◌∷◌, ◌++◌, length, replicate, get_elem?, set, same_bytes, Result, ok, ◌>>=◌, ◌>>◌, raise_if,
  or_raise, update_at, ℤ, pos, ◌+ℤ◌, ◌-ℤ◌, Dict, dict_get, index_error, assertion_error,
  attribute_error,
}
use trinity_eth.Types.{
  Root, Epoch, Gwei, ValidatorIndex, zero_hash32, BeaconBlock, Checkpoint, Eth2Config,
  compute_epoch_at_slot,
}
use trinity_eth.ForkChoice.ProtoArray
use trinity_eth.ForkChoice.ProtoArray.{ProtoArray, BlockNode}

pub record VoteTracker : Type 0 where
  pub current_root : Root
  pub next_root : Root
  pub next_epoch : Epoch

abbrev pub no_vote : VoteTracker
no_vote = record { current_root = zero_hash32; next_root = zero_hash32; next_epoch = 0 }

pub record ProtoArrayForkChoice : Type 0 where
  pub proto_array : ProtoArray
  pub votes : List VoteTracker
  pub balances : List Gwei
  pub justified : Option Checkpoint
  pub finalized : Option Checkpoint

unfoldable pub new_fork_choice :
    BlockNode → Checkpoint → Checkpoint → Eth2Config → Result ProtoArrayForkChoice
new_fork_choice finalized_block finalized justified config = do
  let finalized_epoch = compute_epoch_at_slot finalized_block.slot config.slots_per_epoch
  raise_if (not (finalized_epoch == finalized.epoch)) assertion_error
  ok (record {
    proto_array = ProtoArray.new_proto_array justified.epoch finalized_block config;
    votes = [];
    balances = [];
    justified = none;
    finalized = none;
  })

-- `self.votes.extend([...])` where the index is not below the length.
abbrev pub extend_votes : List VoteTracker → ValidatorIndex → List VoteTracker
extend_votes votes validator_index =
    if leb (length votes) validator_index
    then votes ++ replicate (validator_index - length votes + 1) no_vote
    else votes

-- `self.votes[validator_index]`, which is there after the extension.
abbrev pub vote_or_none : Option VoteTracker → VoteTracker
vote_or_none none = no_vote
vote_or_none (some vote) = vote

abbrev pub vote_at : List VoteTracker → ValidatorIndex → VoteTracker
vote_at votes validator_index = vote_or_none (get_elem? votes validator_index)

abbrev pub newer_vote : VoteTracker → Root → Epoch → VoteTracker
newer_vote vote block_root target_epoch =
    if ltb vote.next_epoch target_epoch
    then record vote { next_root = block_root; next_epoch = target_epoch }
    else vote

unfoldable pub process_attestation :
    ProtoArrayForkChoice → ValidatorIndex → Root → Epoch → ProtoArrayForkChoice
process_attestation f validator_index block_root target_epoch =
    let votes = extend_votes f.votes validator_index in
    let vote = newer_vote (vote_at votes validator_index) block_root target_epoch in
    record f { votes = set votes validator_index vote }

unfoldable pub process_block :
    ProtoArrayForkChoice → BlockNode → Root → Epoch → Epoch → Result ProtoArrayForkChoice
process_block f block parent_root justified_epoch finalized_epoch =
    ProtoArray.on_block f.proto_array block parent_root justified_epoch finalized_epoch >>= λ a.
    ok (record f { proto_array = a })

-- `balances[i] if i < len(balances) else 0`
abbrev pub balance_at : List Gwei → ValidatorIndex → Gwei
balance_at balances i = elim (get_elem? balances i) [ none ↦ 0 | some b ↦ b ]

-- `deltas[i - index_offset] += ...`. A difference below 0 counts from the end of the list, as
-- Python's indices do.
unfoldable pub add_at : Option ℕ → ℕ → (ℤ → ℤ) → List ℤ → Result (List ℤ)
add_at none index_offset change deltas = ok deltas
add_at (some i) index_offset change deltas =
    if leb index_offset i
    then update_at deltas (i - index_offset) change
    else (raise_if (ltb (i + length deltas) index_offset) index_error
        >> update_at deltas (i + length deltas - index_offset) change)

-- The change at the node of a root, where the root is known.
abbrev pub add_at_root : Dict ℕ → ℕ → Root → (ℤ → ℤ) → List ℤ → Result (List ℤ)
add_at_root indices index_offset root change deltas =
    add_at (dict_get root indices) index_offset change deltas

abbrev pub is_idle : VoteTracker → Bool
is_idle vote = same_bytes vote.current_root zero_hash32 && same_bytes vote.next_root zero_hash32

-- The round of the loop for a vote with its old and new balance.
unfoldable pub vote_delta :
    Dict ℕ → ℕ → Gwei → Gwei → VoteTracker → List ℤ → Result (List ℤ × VoteTracker)
vote_delta indices index_offset old_balance new_balance vote deltas =
    if is_idle vote
    then ok (deltas, vote)
    else if not (same_bytes vote.current_root vote.next_root) || not (old_balance == new_balance)
    then (add_at_root indices index_offset vote.current_root (λ d. d -ℤ pos old_balance) deltas
        >>= λ taken.
            add_at_root indices index_offset vote.next_root (λ d. d +ℤ pos new_balance) taken
            >>= λ given. ok (given, record vote { current_root = vote.next_root }))
    else ok (deltas, vote)

-- The rounds for the votes of the validators from `i` on.
unfoldable pub delta_loop :
    Dict ℕ
    → ℕ
    → List Gwei
    → List Gwei
    → ℕ
    → List VoteTracker
    → List ℤ
    → Result (List ℤ × List VoteTracker)
delta_loop indices index_offset old_balances new_balances i [] deltas = ok (deltas, [])
delta_loop indices index_offset old_balances new_balances i (vote ∷ votes) deltas = do
  moved ←
      vote_delta indices index_offset (balance_at old_balances i) (balance_at new_balances i) vote
        deltas
  rest ← delta_loop indices index_offset old_balances new_balances (i + 1) votes moved.0
  ok (rest.0, moved.1 ∷ rest.1)

unfoldable pub compute_deltas :
    Dict ℕ → ℕ → List VoteTracker → List Gwei → List Gwei → Result (List ℤ × List VoteTracker)
compute_deltas indices index_offset votes old_balances new_balances =
    delta_loop indices index_offset old_balances new_balances 0 votes
      (replicate (length indices) (pos 0))

-- The deltas of the votes and of the change of balances, applied to the array.
abbrev pub apply_votes :
    ProtoArrayForkChoice → List Gwei → Epoch → Epoch → Result ProtoArrayForkChoice
apply_votes f new_balances justified_epoch finalized_epoch = do
  let a = f.proto_array
  (deltas, votes) ← compute_deltas a.indices a.index_offset f.votes f.balances new_balances
  a' ← ProtoArray.apply_score_changes a deltas justified_epoch finalized_epoch
  ok (record f { proto_array = a'; votes = votes; balances = new_balances })

unfoldable pub update_justified :
    ProtoArrayForkChoice → Checkpoint → Checkpoint → List Gwei → Result ProtoArrayForkChoice
update_justified f justified finalized justified_state_balances =
    apply_votes f justified_state_balances justified.epoch finalized.epoch >>= λ f'.
    ok (record f' { justified = some justified; finalized = some finalized })

unfoldable pub reconcile_changes : ProtoArrayForkChoice → Result ProtoArrayForkChoice
reconcile_changes f = do
  justified ← or_raise f.justified attribute_error
  finalized ← or_raise f.finalized attribute_error
  apply_votes f f.balances justified.epoch finalized.epoch

unfoldable pub find_best : ProtoArrayForkChoice → Result (BlockNode × ProtoArrayForkChoice)
find_best f = do
  f' ← reconcile_changes f
  justified ← or_raise f'.justified attribute_error
  head ← ProtoArray.find_head f'.proto_array justified.root
  ok (head, f')

unfoldable pub get_canonical_nodes :
    ProtoArrayForkChoice → Root → Result (List BlockNode × ProtoArrayForkChoice)
get_canonical_nodes f anchor_root = do
  f' ← reconcile_changes f
  nodes ← ProtoArray.canonical_chain f'.proto_array anchor_root
  ok (nodes, f')

unfoldable pub prune_to :
    ProtoArrayForkChoice → Root → Result (List (BeaconBlock × Bool) × ProtoArrayForkChoice)
prune_to f anchor_root = ProtoArray.on_prune f.proto_array anchor_root >>= λ pruned.
    ok (pruned.0, record f { proto_array = pruned.1 })
