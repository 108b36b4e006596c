-- ===== src/Tests/ForkRuns.antt =====
-- The fork choice on a tree of a genesis block with two children.
use trinity_eth.Base.{
  EachItem, same_bytes, false, EachItem-cons, length, ◌+ℤ◌, ℤ, dict_get, get_ok, ℕ, zero, suc, ◌≤◌,
  ◌≡◌, refl, sym, subst, ◌≢◌, none, some, List, [], ◌∷◌, map, arith, ok, pos, negsuc,
}
use trinity_eth.Types.{Root, Slot, BeaconBlock, Gwei, zero_hash32}
use trinity_eth.ForkChoice.ProtoArray
use trinity_eth.ForkChoice.ProtoArray.{BlockNode, ProtoArray, ProtoNode}
use trinity_eth.ForkChoice.ProtoArray.Links.{WellLinked}
use trinity_eth.ForkChoice.ProtoArray.Traces.{Traceable}
use trinity_eth.ForkChoice.ProtoArray.Reads.{delta_at}
use trinity_eth.ForkChoice.ProtoArray.Weights.{IsSumAt, Scored, apply_score_changes-Scored}
use trinity_eth.ForkChoice.ProtoArray.Growth.{Grown, on_block-WellLinked}
use trinity_eth.ForkChoice.ProtoArray.Histories.{
  Reached, started, added, HeadOf, new_proto_array-WellLinked, find_head-HeadOf,
}
use trinity_eth.ForkChoice.ProtoArray.Chains.{Chain, canonical_chain-Chain}
use trinity_eth.ForkChoice.Votes
use trinity_eth.ForkChoice.Votes.Arriving.{process_block-Counted}
use trinity_eth.ForkChoice.Votes.Attesting.{process_attestation-Counted}
use trinity_eth.ForkChoice.Votes.{VoteTracker, ProtoArrayForkChoice, vote_at}
use trinity_eth.ForkChoice.Votes.Counted.{
  Counted, IsCountedPosition, own_votes, InArray-WellLinked, update_justified-Counted,
}
use trinity_eth.ForkChoice.Votes.Deltas.{place, vote_sum, compute_deltas-AllMoved}
use trinity_eth.ForkChoice.Votes.Changes.{settle}
use trinity_eth.ForkChoice.Votes.Latest.{
  Message, IsLatest, process_all, process_all-IsLatest, process_all-Counted,
}
use trinity_eth.Tests.ForkRunning.{run}
use trinity_eth.Tests.Fixtures.{checkpoint_of, config, root_of}

abbrev block_at : Slot → Root → BeaconBlock
block_at slot parent_root = record {
  slot = slot;
  proposer_index = 0;
  parent_root = parent_root;
  state_root = zero_hash32;
  body = record {
    randao_reveal = root_of 30;
    eth1_data = record { deposit_root = root_of 14; deposit_count = 3; block_hash = root_of 21 };
    graffiti = zero_hash32;
    proposer_slashings = [];
    attester_slashings = [];
    attestations = [];
    deposits = [];
    voluntary_exits = [];
  };
}

abbrev node_of : ℕ → BlockNode
node_of k = record { slot = k; root = root_of k; block = block_at k zero_hash32 }

-- A genesis block, and then one child and another.
abbrev alone : ProtoArray
alone = ProtoArray.new_proto_array 0 (node_of 0) config

alone-WellLinked : WellLinked alone
alone-WellLinked = new_proto_array-WellLinked 0 (node_of 0) config

abbrev one_child : ProtoArray
one_child = get_ok alone (ProtoArray.on_block alone (node_of 1) zero_hash32 0 0)

on_block-WellLinked_example :
    (a' : ProtoArray) × WellLinked a'
    × Grown alone (node_of 1) a'
    × (Traceable alone → Traceable a')
    × (ProtoArray.on_block alone (node_of 1) zero_hash32 0 0 ≡ ok a')
on_block-WellLinked_example = on_block-WellLinked alone (node_of 1) zero_hash32 0 0 alone-WellLinked

one_child-WellLinked : WellLinked one_child
one_child-WellLinked =
    let (a', linked, grown, traced, e) =
      on_block-WellLinked alone (node_of 1) zero_hash32 0 0 alone-WellLinked in
    subst (λ r. WellLinked (get_ok alone r)) (sym e) linked

abbrev two_children : ProtoArray
two_children = get_ok alone (ProtoArray.on_block one_child (node_of 2) zero_hash32 0 0)

two_children-WellLinked : WellLinked two_children
two_children-WellLinked =
    let (a', linked, grown, traced, e) =
      on_block-WellLinked one_child (node_of 2) zero_hash32 0 0 one_child-WellLinked in
    subst (λ r. WellLinked (get_ok alone r)) (sym e) linked

two_children_lem : length two_children.nodes ≡ 3
unfolding run
two_children_lem = refl

apply_score_changes-Scored_example :
    (a' : ProtoArray) × Scored two_children (pos 0 ∷ pos 5 ∷ negsuc 2 ∷ []) 0 0 a'
    × (ProtoArray.apply_score_changes two_children (pos 0 ∷ pos 5 ∷ negsuc 2 ∷ []) 0 0 ≡ ok a')
apply_score_changes-Scored_example =
    apply_score_changes-Scored two_children (pos 0 ∷ pos 5 ∷ negsuc 2 ∷ []) 0 0
      two_children-WellLinked (sym two_children_lem)

one_child_lem : ProtoArray.on_block alone (node_of 1) zero_hash32 0 0 ≡ ok one_child
unfolding run
one_child_lem = refl

two_children_made : ProtoArray.on_block one_child (node_of 2) zero_hash32 0 0 ≡ ok two_children
unfolding run
two_children_made = refl

two_children-Reached : Reached two_children
two_children-Reached =
    added one_child two_children (node_of 2) zero_hash32 0 0
      (added alone one_child (node_of 1) zero_hash32 0 0 (started 0 (node_of 0) config)
        one_child_lem)
      two_children_made

head_lem : ProtoArray.find_head two_children (root_of 0) ≡ ok (node_of 2)
unfolding run
head_lem = refl

find_head-HeadOf_example : HeadOf two_children (root_of 0) (node_of 2)
find_head-HeadOf_example =
    find_head-HeadOf two_children (root_of 0) (node_of 2) two_children-Reached head_lem

canonical_chain-Chain_example :
    (i : ℕ) × (blocks : List BlockNode) × (dict_get (root_of 2) two_children.indices ≡ some i)
    × (length blocks ≤ length two_children.nodes)
    × Chain two_children (root_of 0) (some i) blocks
    × (ProtoArray.canonical_chain two_children (root_of 0) ≡ ok blocks)
canonical_chain-Chain_example =
    canonical_chain-Chain two_children (root_of 0) (node_of 2) two_children-WellLinked head_lem

-- The fork choice before any vote, and three votes.
abbrev unvoted : ProtoArrayForkChoice
unvoted = record {
  proto_array = two_children;
  votes = [];
  balances = [];
  justified = none;
  finalized = none;
}

no_sums : (i : ℕ) → IsCountedPosition two_children i → IsSumAt two_children (own_votes unvoted) i
unfolding run
no_sums zero position = refl
no_sums (suc zero) position = refl
no_sums (suc (suc zero)) position = refl
no_sums (suc (suc (suc i))) (below, other) = absurd (omega arith)

unvoted-Counted : Counted unvoted
unvoted-Counted = record { well_linked = two_children-WellLinked; sums = no_sums }

abbrev messages : List Message
messages =
    record { validator = 0; root = root_of 1; epoch = 1 }
    ∷ record { validator = 2; root = root_of 2; epoch = 1 }
    ∷ record { validator = 0; root = root_of 2; epoch = 2 }
    ∷ record { validator = 0; root = root_of 1; epoch = 2 }
    ∷ []

process_all-IsLatest_example :
    IsLatest messages 0 (vote_at unvoted.votes 0) (vote_at (process_all unvoted messages).votes 0)
process_all-IsLatest_example = process_all-IsLatest unvoted messages 0

abbrev balances : List Gwei
balances = 32 ∷ 31 ∷ 30 ∷ []

update_justified-Counted_example :
    (f' : ProtoArrayForkChoice) × (Votes.update_justified
        (process_all unvoted messages)
        (checkpoint_of 0)
        (checkpoint_of 0)
        balances
      ≡ ok f')
    × Counted f'
    × (f'.votes ≡ map settle (process_all unvoted messages).votes)
    × (f'.balances ≡ balances)
update_justified-Counted_example =
    update_justified-Counted (process_all unvoted messages) (checkpoint_of 0) (checkpoint_of 0)
      balances (process_all-Counted unvoted messages unvoted-Counted)

compute_deltas-AllMoved_example :
    (deltas : List ℤ) × (Votes.compute_deltas two_children.indices two_children.index_offset
        (process_all unvoted messages).votes
        []
        balances
      ≡ ok (deltas, map settle (process_all unvoted messages).votes))
    × (length deltas ≡ length two_children.indices)
    × ((i : ℕ)
        → place two_children.indices two_children.index_offset zero_hash32 ≢ some i
        → delta_at deltas i
            +ℤ vote_sum two_children.indices two_children.index_offset [] 0
                (process_all unvoted messages).votes
                i
          ≡ vote_sum two_children.indices two_children.index_offset balances 0
              (map settle (process_all unvoted messages).votes)
              i)
compute_deltas-AllMoved_example =
    compute_deltas-AllMoved two_children.indices two_children.index_offset
      (process_all unvoted messages).votes [] balances
      (InArray-WellLinked two_children two_children-WellLinked)

-- A block that arrives after an attestation for another one.
abbrev voted_once : ProtoArrayForkChoice
voted_once = Votes.process_attestation unvoted 0 (root_of 1) 1

abbrev first_vote : VoteTracker
first_vote = record { current_root = zero_hash32; next_root = root_of 1; next_epoch = 1 }

no_others : EachItem {A = VoteTracker} (λ n v. same_bytes (root_of 3) v.current_root ≡ false) []
no_others n v at = cc

first_others : EachItem (λ n v. same_bytes (root_of 3) v.current_root ≡ false) voted_once.votes
unfolding run
first_others = EachItem-cons _ first_vote [] refl no_others

process_block-Counted_example :
    (f' : ProtoArrayForkChoice) × (Votes.process_block voted_once (node_of 3) (root_of 1) 0 0
      ≡ ok f')
    × Counted f'
    × (f'.votes ≡ voted_once.votes)
    × (f'.balances ≡ voted_once.balances)
process_block-Counted_example =
    process_block-Counted voted_once (node_of 3) (root_of 1) 0 0
      (process_attestation-Counted unvoted 0 (root_of 1) 1 unvoted-Counted) first_others

-- After deltas that turn the order of two children around, the best child is still the old one:
-- it was compared with the new one before its own weight was lowered.
abbrev first_best : ProtoArray
first_best =
    get_ok two_children
      (ProtoArray.apply_score_changes two_children (pos 0 ∷ pos 10 ∷ pos 0 ∷ []) 0 0)

abbrev turned : ProtoArray
turned =
    get_ok first_best
      (ProtoArray.apply_score_changes first_best (pos 0 ∷ negsuc 7 ∷ pos 5 ∷ []) 0 0)

turned_weights : map (λ n. n.weight) turned.nodes ≡ pos 7 ∷ pos 2 ∷ pos 5 ∷ []
unfolding run
turned_weights = refl

turned_head : ProtoArray.find_head turned (root_of 0) ≡ ok (node_of 1)
unfolding run
turned_head = refl
