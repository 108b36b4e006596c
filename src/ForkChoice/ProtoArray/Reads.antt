-- ===== src/ForkChoice/ProtoArray/Reads.antt =====
-- What a list of nodes says by position, and what stays the same when one node is replaced.
use trinity_eth.Base.{
  leb, if◌then◌else◌, length, get_elem?, set, length-set, ℤ, some_injective, EachItem-set, ℕ, zero,
  suc, ◌-◌, ◌≤◌, ◌≡◌, refl, sym, ap, ◌∙◌, Option, none, some, List, [], ◌∷◌, arith, pos,
}
use trinity_eth.ForkChoice.ProtoArray.{ProtoNode, ProtoArray}
use trinity_eth.ForkChoice.ProtoArray.Links.{NodeLinks, entries, high_of, LinksOf, Relinked}

abbrev pub weight_of : Option ProtoNode → ℤ
weight_of none = pos 0
weight_of (some n) = n.weight

abbrev pub weight_at : List ProtoNode → ℕ → ℤ
weight_at nodes i = weight_of (get_elem? nodes i)

-- The position of a parent in the array.
abbrev pub position_of : ℕ → Option ℕ → Option ℕ
position_of offset none = none
position_of offset (some p) = if leb offset p then some (p - offset) else none

abbrev pub parent_of : ℕ → Option ProtoNode → Option ℕ
parent_of offset none = none
parent_of offset (some n) = position_of offset n.parent

abbrev pub parent_at : ℕ → List ProtoNode → ℕ → Option ℕ
parent_at offset nodes i = parent_of offset (get_elem? nodes i)

abbrev pub delta_of : Option ℤ → ℤ
delta_of none = pos 0
delta_of (some d) = d

abbrev pub delta_at : List ℤ → ℕ → ℤ
delta_at deltas i = delta_of (get_elem? deltas i)

-- Nodes of the same blocks with the same parents.
pub record SameTree (nodes nodes' : List ProtoNode) : Type 0 where
  pub same_length : length nodes' ≡ length nodes
  pub same_parents : (offset i : ℕ) → parent_at offset nodes' i ≡ parent_at offset nodes i
  pub same_entries : (offset : ℕ) → entries offset nodes' ≡ entries offset nodes

pub entries-set :
    (offset : ℕ) (nodes : List ProtoNode) (i : ℕ) (n n' : ProtoNode)
    → get_elem? nodes i ≡ some n
    → n'.node ≡ n.node
    → entries offset (set nodes i n') ≡ entries offset nodes
entries-set offset [] i n n' at same = refl
entries-set offset (m ∷ nodes) zero n n' at same = rw (same, some_injective at) refl
entries-set offset (m ∷ nodes) (suc i) n n' at same =
    ap (λ d. (m.node.root, offset) ∷ d) (entries-set (suc offset) nodes i n n' at same)

-- What the items of a list say stays the same where the new item says the same as the old one.
pub read-set :
    {B : Type 0} (f : Option ProtoNode → B) (nodes : List ProtoNode) (i : ℕ) (n n' : ProtoNode)
    → get_elem? nodes i ≡ some n
    → f (some n') ≡ f (some n)
    → (j : ℕ) → f (get_elem? (set nodes i n') j) ≡ f (get_elem? nodes j)
read-set f (m ∷ nodes) zero n n' at same zero = same ∙ ap f (sym at)
read-set f (m ∷ nodes) zero n n' at same (suc j) = refl
read-set f (m ∷ nodes) (suc i) n n' at same zero = refl
read-set f (m ∷ nodes) (suc i) n n' at same (suc j) = read-set f nodes i n n' at same j
read-set f [] i n n' at same j = refl

pub SameTree-set :
    (nodes : List ProtoNode) (i : ℕ) (n n' : ProtoNode)
    → get_elem? nodes i ≡ some n
    → n'.node ≡ n.node
    → n'.parent ≡ n.parent
    → SameTree nodes (set nodes i n')
SameTree-set nodes i n n' at same_node same_parent = record {
  same_length = length-set nodes i n';
  same_parents = λ offset j.
      read-set (parent_of offset) nodes i n n' at (ap (position_of offset) same_parent) j;
  same_entries = λ offset. entries-set offset nodes i n n' at same_node;
}

pub weight_at-set :
    (nodes : List ProtoNode) (i : ℕ) (n n' : ProtoNode)
    → get_elem? nodes i ≡ some n
    → n'.weight ≡ n.weight
    → (j : ℕ) → weight_at (set nodes i n') j ≡ weight_at nodes j
weight_at-set nodes i n n' at same j = read-set weight_of nodes i n n' at same j

-- An array after changes that keep the tree, the offset, the epochs and the dictionary.
abbrev pub with_nodes : ProtoArray → List ProtoNode → ProtoArray
with_nodes a nodes = record a { nodes = nodes }

pub LinksOf-set :
    (a : ProtoArray) (i : ℕ) (n' : ProtoNode)
    → LinksOf a
    → NodeLinks a.index_offset (high_of a) i n'
    → LinksOf (with_nodes a (set a.nodes i n'))
LinksOf-set a i n' links new = rw (length-set a.nodes i n') (EachItem-set _ a.nodes i n' links new)

pub NodeLinks-Relinked :
    (a : ProtoArray) (p c : ℕ) (child n n' : ProtoNode)
    → a.index_offset ≤ p
    → NodeLinks a.index_offset (high_of a) (p - a.index_offset) n
    → Relinked p (high_of a) c child n n'
    → NodeLinks a.index_offset (high_of a) (p - a.index_offset) n'
NodeLinks-Relinked a p c child n n' start old new = record {
  parent_before = λ q e. old.parent_before q (sym new.same_parent ∙ e);
  child_behind = λ i e. let (low, high) = new.child_behind i e in (omega arith, high);
  descendant_behind = λ i e. let (low, high) = new.descendant_behind i e in (omega arith, high);
}
