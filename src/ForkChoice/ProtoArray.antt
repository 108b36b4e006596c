-- ===== src/ForkChoice/ProtoArray.antt =====
-- eth2/beacon/fork_choice/lmd_ghost2.py, `BlockNode`, `ProtoNode` and `ProtoArray`. The block's
-- data is a block, as it is in every use. The calls of the block sink are returned as a list.
pub mod Links
pub mod Sums
pub mod Traces
pub mod Reads
pub mod Rounds
pub mod Weights
pub mod Growth
pub mod Heads
pub mod Pruning
pub mod Chains
pub mod Histories
use trinity_eth.Base.{
  ℕ, zero, suc, ◌+◌, ◌-◌, ltb, leb, ◌==◌, Bool, true, false, not, ◌&&◌, ◌||◌, if◌then◌else◌, Option,
  none, some, List, [], ◌∷◌, ◌++◌, length, range, drop, same_bytes, Result, ok, raise, ◌>>=◌, ◌>>◌,
  raise_if, or_raise, index, update_at, fold_list, ℤ, pos, ◌+ℤ◌, leb_ℤ, ltb_ℤ, Dict, dict_get,
  dict_has, dict_set, dict_del, index_error, key_error, type_error, assertion_error, out_of_rounds,
}
use trinity_eth.Types.{
  Root, Slot, Epoch, zero_hash32, BeaconBlock, Eth2Config, compute_epoch_at_slot,
}

pub record BlockNode : Type 0 where
  pub slot : Slot
  pub root : Root
  pub block : BeaconBlock

pub record ProtoNode : Type 0 where
  pub node : BlockNode
  pub parent : Option ℕ
  pub justified_epoch : Epoch
  pub finalized_epoch : Epoch
  pub weight : ℤ
  pub best_child : Option ℕ
  pub best_descendant : Option ℕ

abbrev pub new_proto_node : BlockNode → Option ℕ → Epoch → Epoch → ProtoNode
new_proto_node node parent justified_epoch finalized_epoch = record {
  node = node;
  parent = parent;
  justified_epoch = justified_epoch;
  finalized_epoch = finalized_epoch;
  weight = pos 0;
  best_child = none;
  best_descendant = none;
}

pub record ProtoArray : Type 0 where
  pub index_offset : ℕ
  pub justified_epoch : Epoch
  pub finalized_epoch : Epoch
  pub nodes : List ProtoNode
  pub indices : Dict ℕ

abbrev pub new_proto_array : Epoch → BlockNode → Eth2Config → ProtoArray
new_proto_array justified_epoch finalized_block config =
    let finalized_epoch = compute_epoch_at_slot finalized_block.slot config.slots_per_epoch in
    record {
      index_offset = 0;
      justified_epoch = justified_epoch;
      finalized_epoch = finalized_epoch;
      nodes = new_proto_node finalized_block none justified_epoch finalized_epoch ∷ [];
      indices = (finalized_block.root, 0) ∷ [];
    }

-- `child.block.root >= best_child.block.root`, the order of byte strings.
abbrev pub bytes_ge : List ℕ → List ℕ → Bool
bytes_ge xs [] = true
bytes_ge [] (y ∷ ys) = false
bytes_ge (x ∷ xs) (y ∷ ys) = ltb y x || (x == y && bytes_ge xs ys)

unfoldable pub get_node : ProtoArray → ℕ → Result ProtoNode
get_node a i = do
  raise_if (ltb i a.index_offset) index_error
  raise_if (ltb (length a.nodes) (i - a.index_offset)) index_error
  index a.nodes (i - a.index_offset)

unfoldable pub node_is_viable_for_head : ProtoArray → ProtoNode → Bool
node_is_viable_for_head a n =
    (n.justified_epoch == a.justified_epoch || a.justified_epoch == 0)
    && (n.finalized_epoch == a.finalized_epoch || a.finalized_epoch == 0)

unfoldable pub node_leads_to_viable_head : ProtoArray → ProtoNode → Result Bool
node_leads_to_viable_head a n = elim n.best_descendant [
  | none ↦ ok (node_is_viable_for_head a n)
  | some i ↦ get_node a i >>= λ descendant. ok (node_is_viable_for_head a descendant)
]

-- The three options that the parent's links may be set to.
pub data Outcome : Type 0 where
  change_to_none : Outcome
  change_to_child : Outcome
  no_change : Outcome

-- The choice between a child and another best child.
abbrev pub better_child : Bool → Bool → ProtoNode → ProtoNode → Outcome
better_child child_viable best_viable child best =
    if child_viable && not best_viable
    then change_to_child
    else if not child_viable && best_viable
    then no_change
    else if leb_ℤ child.weight best.weight && leb_ℤ best.weight child.weight
    then (if bytes_ge child.node.root best.node.root then change_to_child else no_change)
    else if leb_ℤ best.weight child.weight
    then change_to_child
    else no_change

-- The choice for a parent with its best child, or without one.
unfoldable pub best_child_outcome : ProtoArray → Option ℕ → ProtoNode → ℕ → Bool → Result Outcome
best_child_outcome a none child child_index child_viable =
    ok (if child_viable then change_to_child else no_change)
best_child_outcome a (some best_index) child child_index child_viable =
    if best_index == child_index
    then ok (if not child_viable then change_to_none else change_to_child)
    else get_node a best_index >>= λ best. node_leads_to_viable_head a best >>= λ best_viable.
        ok (better_child child_viable best_viable child best)

abbrev pub link_child : Outcome → ProtoNode → ℕ → ProtoNode → ProtoNode
link_child change_to_none child child_index parent = record parent {
  best_child = none;
  best_descendant = none;
}
link_child change_to_child child child_index parent = record parent {
  best_child = some child_index;
  best_descendant = elim child.best_descendant [ none ↦ some child_index | some d ↦ some d ];
}
link_child no_change child child_index parent = parent

unfoldable pub maybe_update_best_child_and_descendant : ProtoArray → ℕ → ℕ → Result ProtoArray
maybe_update_best_child_and_descendant a parent_index child_index = do
  child ← get_node a child_index
  parent ← get_node a parent_index
  child_viable ← node_leads_to_viable_head a child
  outcome ← best_child_outcome a parent.best_child child child_index child_viable
  nodes ← update_at a.nodes (parent_index - a.index_offset) (link_child outcome child child_index)
  ok (record a { nodes = nodes })

-- A node with a parent in the array hands its delta on to it.
unfoldable pub update_parent : ProtoArray → List ℤ → ℕ → ℤ → Option ℕ → Result (ProtoArray × List ℤ)
update_parent a deltas position delta none = ok (a, deltas)
update_parent a deltas position delta (some parent) =
    if leb a.index_offset parent
    then (update_at deltas (parent - a.index_offset) (λ d. d +ℤ delta) >>= λ deltas'.
        maybe_update_best_child_and_descendant a parent (a.index_offset + position) >>= λ a'.
        ok (a', deltas'))
    else ok (a, deltas)

-- The round of the backwards loop for the node at a position.
unfoldable pub score_step : ℕ → ProtoArray × List ℤ → Result (ProtoArray × List ℤ)
score_step position (a, deltas) = do
  n ← index a.nodes position
  delta ← index deltas position
  nodes ← update_at a.nodes position (λ m. record m { weight = m.weight +ℤ delta })
  update_parent (record a { nodes = nodes }) deltas position delta n.parent

-- The rounds for the positions below a count, backwards.
unfoldable pub score_loop : ℕ → ProtoArray × List ℤ → Result (ProtoArray × List ℤ)
score_loop zero s = ok s
score_loop (suc position) s = score_step position s >>= score_loop position

unfoldable pub apply_score_changes : ProtoArray → List ℤ → Epoch → Epoch → Result ProtoArray
apply_score_changes a deltas justified_epoch finalized_epoch = do
  raise_if (not (length deltas == length a.nodes && length a.nodes == length a.indices))
      assertion_error
  let a' = record a { justified_epoch = justified_epoch; finalized_epoch = finalized_epoch }
  scored ← score_loop (length a.nodes) (a', deltas)
  ok scored.0

-- The parent of a new block: a missing one is the block with the empty root, if that is there.
abbrev pub parent_index_of : Dict ℕ → Root → Option ℕ
parent_index_of indices parent_root =
    if dict_has parent_root indices
    then dict_get parent_root indices
    else dict_get zero_hash32 indices

-- The array with a new node at its end, before the links of the parent are updated.
abbrev pub with_new_node : ProtoArray → BlockNode → Option ℕ → Epoch → Epoch → ProtoArray
with_new_node a block parent justified_epoch finalized_epoch = record a {
  indices = dict_set block.root (a.index_offset + length a.nodes) a.indices;
  nodes = a.nodes ++ new_proto_node block parent justified_epoch finalized_epoch ∷ [];
}

unfoldable pub add_node : ProtoArray → BlockNode → Option ℕ → Epoch → Epoch → Result ProtoArray
add_node a block none justified_epoch finalized_epoch =
    ok (with_new_node a block none justified_epoch finalized_epoch)
add_node a block (some p) justified_epoch finalized_epoch =
    maybe_update_best_child_and_descendant
      (with_new_node a block (some p) justified_epoch finalized_epoch) p
      (a.index_offset + length a.nodes)

unfoldable pub on_block : ProtoArray → BlockNode → Root → Epoch → Epoch → Result ProtoArray
on_block a block parent_root justified_epoch finalized_epoch =
    if dict_has block.root a.indices
    then ok a
    else add_node a block (parent_index_of a.indices parent_root) justified_epoch finalized_epoch

unfoldable pub find_head : ProtoArray → Root → Result BlockNode
find_head a anchor_root = do
  anchor_index ← or_raise (dict_get anchor_root a.indices) type_error
  anchor ← get_node a anchor_index
  best ← get_node a (elim anchor.best_descendant [ none ↦ anchor_index | some i ↦ i ])
  raise_if (not (node_is_viable_for_head a best)) assertion_error
  ok best.node

-- The loop of `canonical_chain`, which ends at the anchor or where a parent is not in the array.
unfoldable pub chain_loop : ℕ → ProtoArray → Root → Option ℕ → Result (List BlockNode)
chain_loop zero a anchor_root i = raise out_of_rounds
chain_loop (suc rounds) a anchor_root none = ok []
chain_loop (suc rounds) a anchor_root (some i) =
    if leb a.index_offset i
    then (get_node a i >>= λ n.
        let rest = chain_loop rounds a anchor_root n.parent in
        if same_bytes n.node.root anchor_root
        then ok (n.node ∷ [])
        else (rest >>= λ nodes. ok (n.node ∷ nodes)))
    else ok []

-- The rounds are at most one for each node, and one more.
unfoldable pub canonical_chain : ProtoArray → Root → Result (List BlockNode)
canonical_chain a anchor_root = do
  head ← find_head a anchor_root
  i ← or_raise (dict_get head.root a.indices) key_error
  chain_loop (suc (length a.nodes)) a anchor_root (some i)

abbrev pub same_index : Option ℕ → ℕ → Bool
same_index none j = false
same_index (some i) j = i == j

-- The calls of the sink for the nodes before the anchor, and the indices without those nodes.
unfoldable pub prune_nodes :
    ℕ → ℕ → List ProtoNode → Dict ℕ → Result (List (BeaconBlock × Bool) × Dict ℕ)
prune_nodes zero best_index nodes indices = ok ([], indices)
prune_nodes (suc count) best_index [] indices = ok ([], indices)
prune_nodes (suc count) best_index (n ∷ nodes) indices = do
  raise_if (not (dict_has n.node.root indices)) key_error
  pruned ← prune_nodes count best_index nodes (dict_del n.node.root indices)
  ok ((n.node.block, same_index n.best_descendant best_index) ∷ pruned.0, pruned.1)

unfoldable pub on_prune : ProtoArray → Root → Result (List (BeaconBlock × Bool) × ProtoArray)
on_prune a anchor_root = do
  anchor_index ← or_raise (dict_get anchor_root a.indices) key_error
  if anchor_index == a.index_offset then ok ([], a) else do
    raise_if (not (ltb a.index_offset anchor_index)) assertion_error
    head ← find_head a anchor_root
    best_index ← or_raise (dict_get head.root a.indices) key_error
    let count = anchor_index - a.index_offset
    pruned ← prune_nodes count best_index a.nodes a.indices
    ok (
      pruned.0,
      record a { nodes = drop count a.nodes; indices = pruned.1; index_offset = anchor_index },
    )
