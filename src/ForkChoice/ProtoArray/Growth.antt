-- ===== src/ForkChoice/ProtoArray/Growth.antt =====
-- `on_block`: it returns on a well linked array, which stays well linked.
use trinity_eth.Base.{
  dict_get-dict_set, Bool-cases, length, set, length-append, same_bytes, Dict, dict_get, dict_has,
  dict_set, some_injective, EachItem-snoc, ℕ, suc, ◌+◌, ◌-◌, ◌≤◌, ◌<◌, ◌≡◌, refl, sym, ap, ◌∙◌, inl,
  inr, true, false, Option, none, some, List, [], ◌∷◌, ◌++◌, arith, ok,
}
use trinity_eth.Types.{Epoch, Root, zero_hash32}
use trinity_eth.ForkChoice.ProtoArray.{
  BlockNode, ProtoNode, new_proto_node, ProtoArray, maybe_update_best_child_and_descendant,
  parent_index_of, with_new_node, add_node, on_block,
}
use trinity_eth.ForkChoice.ProtoArray.Links.{
  NodeLinks, entries, high_of, LinksOf, WellLinked, maybe_update-ok, Between-none,
}
use trinity_eth.ForkChoice.ProtoArray.Traces.{
  Traced, Traceable, Traced-Relinked, Traced-with_new_node, with_parent, with_parent_here,
}
use trinity_eth.ForkChoice.ProtoArray.Rounds.{SameTree-refl}
use trinity_eth.ForkChoice.ProtoArray.Reads.{
  weight_at, weight_at-set, SameTree, with_nodes, SameTree-set, LinksOf-set, NodeLinks-Relinked,
}

-- The dictionary of the nodes maps a root to an index of the array.
pub dict_get-entries :
    (root : Root) (offset : ℕ) (nodes : List ProtoNode) {i : ℕ}
    → dict_get root (entries offset nodes) ≡ some i
    → (offset ≤ i) × (i < offset + length nodes)
dict_get-entries root offset [] e = cc
dict_get-entries root offset (n ∷ nodes) {i} e = elim (Bool-cases (same_bytes n.node.root root)) [
  | inl same ↦ let found = some_injective (rw same at e) in (omega arith, omega arith)
  | inr other ↦
      let (low, high) = dict_get-entries root (suc offset) nodes (rw other at e) in
      (omega arith, omega arith)
]

dict_set_new :
    {V : Type 0} (key : Root) (value : V) (d : Dict V)
    → dict_has key d ≡ false
    → dict_set key value d ≡ d ++ (key, value) ∷ []
dict_set_new key value [] new = refl
dict_set_new key value (entry ∷ d) new = elim (Bool-cases (same_bytes entry.0 key)) [
  | inl same ↦ cc
  | inr other ↦ rw other (ap (λ r. entry ∷ r) (dict_set_new key value d (rw other at new)))
]

entries-snoc :
    (offset : ℕ) (nodes : List ProtoNode) (n : ProtoNode)
    → entries offset (nodes ++ n ∷ [])
      ≡ entries offset nodes ++ (n.node.root, offset + length nodes) ∷ []
entries-snoc offset [] n = ap (λ k. (n.node.root, k) ∷ []) (omega arith)
entries-snoc offset (m ∷ nodes) n =
    ap (λ d. (m.node.root, offset) ∷ d)
      (entries-snoc (suc offset) nodes n
        ∙ ap (λ k. entries (suc offset) nodes ++ (n.node.root, k) ∷ []) (omega arith))

parent_index_of-entries :
    (parent_root : Root) (offset : ℕ) (nodes : List ProtoNode) {i : ℕ}
    → parent_index_of (entries offset nodes) parent_root ≡ some i
    → (offset ≤ i) × (i < offset + length nodes)
parent_index_of-entries root offset nodes e =
    elim (Bool-cases (dict_has root (entries offset nodes))) [
      | inl known ↦ dict_get-entries root offset nodes (rw known at e)
      | inr unknown ↦ dict_get-entries zero_hash32 offset nodes (rw unknown at e)
    ]

NodeLinks-higher :
    (offset high high' p : ℕ) (n : ProtoNode)
    → high ≤ high'
    → NodeLinks offset high p n
    → NodeLinks offset high' p n
NodeLinks-higher offset high high' p n le links = record {
  parent_before = links.parent_before;
  child_behind = λ i e. let (low, below) = links.child_behind i e in (low, omega arith);
  descendant_behind = λ i e. let (low, below) = links.descendant_behind i e in (low, omega arith);
}

LinksOf-snoc :
    (a : ProtoArray) (n : ProtoNode)
    → LinksOf a
    → NodeLinks a.index_offset (suc (high_of a)) (length a.nodes) n
    → LinksOf (with_nodes a (a.nodes ++ n ∷ []))
LinksOf-snoc a n links new = rw (length-append a.nodes (n ∷ [])) (
    EachItem-snoc _ a.nodes n
      (λ i m at. NodeLinks-higher a.index_offset (high_of a) _ i m (omega arith) (links i m at))
      (NodeLinks-higher a.index_offset _ _ (length a.nodes) n (omega arith) new))

-- A new node has no links but the one to a parent that is in the array.
new_proto_node-NodeLinks :
    (a : ProtoArray) (block : BlockNode) (o : Option ℕ) (j f : Epoch)
    → ((p : ℕ) → o ≡ some p → p < high_of a)
    → NodeLinks a.index_offset (suc (high_of a)) (length a.nodes) (new_proto_node block o j f)
new_proto_node-NodeLinks a block o j f before = record {
  parent_before = before;
  child_behind = Between-none _ _;
  descendant_behind = Between-none _ _;
}

with_new_node-WellLinked :
    (a : ProtoArray) (block : BlockNode) (o : Option ℕ) (j f : Epoch)
    → WellLinked a
    → dict_has block.root a.indices ≡ false
    → ((p : ℕ) → o ≡ some p → p < high_of a)
    → WellLinked (with_new_node a block o j f)
with_new_node-WellLinked a block o j f linked new before = record {
  links =
      LinksOf-snoc a (new_proto_node block o j f) linked.links
        (new_proto_node-NodeLinks a block o j f before);
  roots =
      dict_set_new block.root (high_of a) a.indices new
      ∙ ap (λ d. d ++ (block.root, high_of a) ∷ []) linked.roots
      ∙ sym (entries-snoc a.index_offset a.nodes (new_proto_node block o j f));
}

-- A comparison with a parent in the array keeps the array well linked.
pub maybe_update-WellLinked :
    (a : ProtoArray) (p c : ℕ)
    → WellLinked a
    → a.index_offset ≤ p
    → p < c
    → c < high_of a
    → (nodes : List ProtoNode) × WellLinked (with_nodes a nodes)
      × SameTree a.nodes nodes
      × ((i : ℕ) → weight_at nodes i ≡ weight_at a.nodes i)
      × ((parent : ℕ → Option ℕ)
          → parent c ≡ some p
          → Traced parent a
          → Traced parent (with_nodes a nodes))
      × (maybe_update_best_child_and_descendant a p c ≡ ok (with_nodes a nodes))
maybe_update-WellLinked a p c linked start above below =
    let (n, n', child, at, child_at, new, done) =
      maybe_update-ok a p c linked.links start above below in
    let i = p - a.index_offset in
    let tree = SameTree-set a.nodes i n n' at new.same_node new.same_parent in
    (
      set a.nodes i n',
      record {
        links =
            LinksOf-set a i n' linked.links
              (NodeLinks-Relinked a p c child n n' start (linked.links i n at) new);
        roots = linked.roots ∙ sym (tree.same_entries a.index_offset);
      },
      tree,
      weight_at-set a.nodes i n n' at new.same_weight,
      λ parent of_c trace.
          Traced-Relinked parent a p c n n' child start above at child_at of_c new trace,
      done,
    )

-- The array with a node for a new block, of weight 0, and perhaps with other best links.
pub record Added (a : ProtoArray) (block : BlockNode) (o : Option ℕ) (j f : Epoch) (a' : ProtoArray)
    : Type 0 where
  pub new_tree : SameTree (with_new_node a block o j f).nodes a'.nodes
  pub new_weights : (i : ℕ) → weight_at a'.nodes i ≡ weight_at (with_new_node a block o j f).nodes i
  pub new_offset : a'.index_offset ≡ a.index_offset
  pub new_indices : a'.indices ≡ dict_set block.root (high_of a) a.indices

-- A known block leaves the array as it is, a new one adds its node.
pub data Grown (a : ProtoArray) (block : BlockNode) : ProtoArray → Type 0 where
  known : dict_has block.root a.indices ≡ true → Grown a block a
  added :
      (a' : ProtoArray) (o : Option ℕ) (j f : Epoch)
      → Added a block o j f a'
      → dict_has block.root a.indices ≡ false
      → length a'.nodes ≡ suc (length a.nodes)
      → dict_get block.root a'.indices ≡ some (high_of a)
      → Grown a block a'

-- The parent of a new block is in the array.
parent_in_array :
    (a : ProtoArray) (parent_root : Root) {p : ℕ}
    → WellLinked a
    → parent_index_of a.indices parent_root ≡ some p
    → (a.index_offset ≤ p) × (p < high_of a)
parent_in_array a parent_root linked e =
    parent_index_of-entries parent_root a.index_offset a.nodes
      (ap (λ d. parent_index_of d parent_root) (sym linked.roots) ∙ e)

add_node-WellLinked :
    (a : ProtoArray) (block : BlockNode) (o : Option ℕ) (j f : Epoch)
    → WellLinked a
    → dict_has block.root a.indices ≡ false
    → ((p : ℕ) → o ≡ some p → (a.index_offset ≤ p) × (p < high_of a))
    → (a' : ProtoArray) × WellLinked a'
      × Grown a block a'
      × (Traceable a → Traceable a')
      × (add_node a block o j f ≡ ok a')
unfolding add_node
add_node-WellLinked a block none j f linked new within = (
  with_new_node a block none j f,
  with_new_node-WellLinked a block none j f linked new (λ p e. (within p e).1),
  added _ none j f
      (record {
        new_tree = SameTree-refl _;
        new_weights = λ i. refl;
        new_offset = refl;
        new_indices = refl;
      })
      new (length-append a.nodes (new_proto_node block none j f ∷ []) ∙ omega arith)
      (dict_get-dict_set block.root (high_of a) a.indices),
  λ (parent, trace). (
    with_parent parent (high_of a) none,
    Traced-with_new_node parent a block none j f linked.links (λ p e. (within p e).1) trace,
  ),
  refl,
)
add_node-WellLinked a block (some p) j f linked new within =
    let longer = length-append a.nodes (new_proto_node block (some p) j f ∷ []) in
    let (low, high) = within p refl in
    let (nodes, linked', tree, weights, traced, done) =
      maybe_update-WellLinked (with_new_node a block (some p) j f) p (high_of a)
        (with_new_node-WellLinked a block (some p) j f linked new (λ q e. (within q e).1)) low high
        (omega arith) in
    (
      with_nodes (with_new_node a block (some p) j f) nodes,
      linked',
      added _ (some p) j f
          (record { new_tree = tree; new_weights = weights; new_offset = refl; new_indices = refl })
          new (tree.same_length ∙ longer ∙ omega arith)
          (dict_get-dict_set block.root (high_of a) a.indices),
      λ (parent, trace). (
        with_parent parent (high_of a) (some p),
        traced (with_parent parent (high_of a) (some p))
            (with_parent_here parent (high_of a) (some p))
            (Traced-with_new_node parent a block (some p) j f linked.links (λ q e. (within q e).1)
              trace),
      ),
      done,
    )

-- On a well linked array on_block returns a well linked array; a known block leaves it as it is,
-- a new one adds one node at the next index, and best descendants stay descendants.
pub on_block-WellLinked :
    (a : ProtoArray) (block : BlockNode) (parent_root : Root) (j f : Epoch)
    → WellLinked a
    → (a' : ProtoArray) × WellLinked a'
      × Grown a block a'
      × (Traceable a → Traceable a')
      × (on_block a block parent_root j f ≡ ok a')
unfolding on_block
on_block-WellLinked a block parent_root j f linked =
    elim (Bool-cases (dict_has block.root a.indices)) [
      | inl e ↦ (a, linked, known e, λ trace. trace, rw e refl)
      | inr e ↦ rw e (
          add_node-WellLinked a block (parent_index_of a.indices parent_root) j f linked e
            (λ p o_p. parent_in_array a parent_root linked o_p))
    ]
