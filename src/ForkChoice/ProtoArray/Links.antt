-- ===== src/ForkChoice/ProtoArray/Links.antt =====
-- The links of a proto-array: what the indices in its nodes point to, and that the reads and
-- writes along them cannot fail.
use trinity_eth.Base.{
  ◌==◌, if◌then◌else◌, ge→ltb, Bool-cases, Option-cases, length, get_elem?, set, Dict,
  some_injective, EachItem, index-ok, update_at-ok, ◌>>=◌, ℕ, suc, ◌+◌, ◌-◌, ◌≤◌, ◌<◌, ◌≡◌, refl,
  sym, ◌∙◌, ◌⊎◌, inl, inr, Bool, not, Option, none, some, List, [], ◌∷◌, arith, ok,
}
use trinity_eth.ForkChoice.ProtoArray.{
  ProtoNode, ProtoArray, get_node, node_is_viable_for_head, node_leads_to_viable_head, Outcome,
  change_to_none, change_to_child, no_change, better_child, best_child_outcome, link_child,
  maybe_update_best_child_and_descendant,
}

-- An index strictly between two bounds, or none.
abbrev pub Between : ℕ → ℕ → Option ℕ → Type 0
Between low high o = (i : ℕ) → o ≡ some i → (low < i) × (i < high)

-- The parent of the node at a position is before it, its best links are behind it.
pub record NodeLinks (offset high position : ℕ) (n : ProtoNode) : Type 0 where
  pub parent_before : (p : ℕ) → n.parent ≡ some p → p < offset + position
  pub child_behind : Between (offset + position) high n.best_child
  pub descendant_behind : Between (offset + position) high n.best_descendant

-- The dictionary of the roots of the nodes, whose indices count from an offset.
abbrev pub entries : ℕ → List ProtoNode → Dict ℕ
entries offset [] = []
entries offset (n ∷ nodes) = (n.node.root, offset) ∷ entries (suc offset) nodes

abbrev pub high_of : ProtoArray → ℕ
high_of a = a.index_offset + length a.nodes

abbrev pub LinksOf : ProtoArray → Type 0
LinksOf a = EachItem (NodeLinks a.index_offset (high_of a)) a.nodes

pub record WellLinked (a : ProtoArray) : Type 0 where
  pub links : LinksOf a
  pub roots : a.indices ≡ entries a.index_offset a.nodes

-- A node that may differ in its best links only: these are in bounds, and a new best descendant is
-- the child at `c`, or comes from it.
pub record Relinked (low high c : ℕ) (child n n' : ProtoNode) : Type 0 where
  pub same_node : n'.node ≡ n.node
  pub same_parent : n'.parent ≡ n.parent
  pub same_weight : n'.weight ≡ n.weight
  pub child_behind : Between low high n'.best_child
  pub descendant_behind : Between low high n'.best_descendant
  pub origin :
      (d : ℕ)
      → n'.best_descendant ≡ some d
      → (n.best_descendant ≡ some d) ⊎ ((d ≡ c) ⊎ (child.best_descendant ≡ some d))

pub get_node-ok :
    (a : ProtoArray) (i : ℕ)
    → a.index_offset ≤ i
    → i < high_of a
    → (n : ProtoNode) × (get_node a i ≡ ok n) × (get_elem? a.nodes (i - a.index_offset) ≡ some n)
unfolding get_node ◌>>=◌
get_node-ok a i below above =
    let (n, found, at) = index-ok a.nodes (i - a.index_offset) (omega arith) in
    (
      n,
      rw
          (
            ge→ltb i a.index_offset below,
            ge→ltb (length a.nodes) (i - a.index_offset) (omega arith),
            at,
          )
          refl,
      at,
    )

node_leads_to_viable_head-ok :
    (a : ProtoArray) (n : ProtoNode) (low : ℕ)
    → a.index_offset ≤ low
    → Between low (high_of a) n.best_descendant
    → (b : Bool) × (node_leads_to_viable_head a n ≡ ok b)
unfolding node_leads_to_viable_head ◌>>=◌
node_leads_to_viable_head-ok a n low start behind = elim (Option-cases n.best_descendant) [
  | inl e ↦ (node_is_viable_for_head a n, rw e refl)
  | inr (i, e) ↦
      let (above, below) = behind i e in
      let (d, found, at) = get_node-ok a i (omega arith) below in
      (node_is_viable_for_head a d, rw (e, found) refl)
]

descendant_from :
    (a : ProtoArray) (links : LinksOf a) (i : ℕ) (n : ProtoNode)
    → get_elem? a.nodes (i - a.index_offset) ≡ some n
    → a.index_offset ≤ i
    → Between i (high_of a) n.best_descendant
descendant_from a links i n at start d e =
    let (above, below) = (links (i - a.index_offset) n at).descendant_behind d e in
    (omega arith, below)

child_from :
    (a : ProtoArray) (links : LinksOf a) (i : ℕ) (n : ProtoNode)
    → get_elem? a.nodes (i - a.index_offset) ≡ some n
    → a.index_offset ≤ i
    → Between i (high_of a) n.best_child
child_from a links i n at start d e =
    let (above, below) = (links (i - a.index_offset) n at).child_behind d e in (omega arith, below)

best_child_outcome-ok :
    (a : ProtoArray) (o : Option ℕ) (child : ProtoNode) (c : ℕ) (viable : Bool) (low : ℕ)
    → LinksOf a
    → a.index_offset ≤ low
    → Between low (high_of a) o
    → (outcome : Outcome) × (best_child_outcome a o child c viable ≡ ok outcome)
unfolding best_child_outcome ◌>>=◌
best_child_outcome-ok a none child c viable low links start behind = (_, refl)
best_child_outcome-ok a (some b) child c viable low links start behind =
    elim (Bool-cases (b == c)) [
      | inl same ↦ (if not viable then change_to_none else change_to_child, rw same refl)
      | inr other ↦
          let (above, below) = behind b refl in
          let (best, found, at) = get_node-ok a b (omega arith) below in
          let (best_viable, leads) =
            node_leads_to_viable_head-ok a best b (omega arith)
              (descendant_from a links b best at (omega arith)) in
          (better_child viable best_viable child best, rw (other, found, leads) refl)
    ]

pub Between-none : (low high : ℕ) → Between low high none
Between-none low high i e = cc

Between-some : (low high c : ℕ) → low < c → c < high → Between low high (some c)
Between-some low high c above below i e = let same = some_injective e in (omega arith, omega arith)

link_child-Relinked :
    (outcome : Outcome) (child parent : ProtoNode) (low c high : ℕ)
    → low < c
    → c < high
    → Between c high child.best_descendant
    → Between low high parent.best_child
    → Between low high parent.best_descendant
    → Relinked low high c child parent (link_child outcome child c parent)
link_child-Relinked change_to_none child parent low c high above below d old_c old_d = record {
  same_node = refl;
  same_parent = refl;
  same_weight = refl;
  child_behind = Between-none low high;
  descendant_behind = Between-none low high;
  origin = λ d e. cc;
}
link_child-Relinked change_to_child child parent low c high above below d old_c old_d = record {
  same_node = refl;
  same_parent = refl;
  same_weight = refl;
  child_behind = Between-some low high c above below;
  descendant_behind = elim (Option-cases child.best_descendant) [
    | inl e ↦ rw e (Between-some low high c above below)
    | inr (i, e) ↦ let (past, within) = d i e in rw e (Between-some low high i (omega arith) within)
  ];
  origin = λ j e. elim (Option-cases child.best_descendant) [
    | inl none_e ↦ inr (inl (sym (some_injective (rw none_e at e))))
    | inr (i, some_e) ↦ inr (inr (some_e ∙ rw some_e at e))
  ];
}
link_child-Relinked no_change child parent low c high above below d old_c old_d = record {
  same_node = refl;
  same_parent = refl;
  same_weight = refl;
  child_behind = old_c;
  descendant_behind = old_d;
  origin = λ d e. inl e;
}

-- Comparing a node with a parent before it returns, and changes no more than the parent's links.
pub maybe_update-ok :
    (a : ProtoArray) (p c : ℕ)
    → LinksOf a
    → a.index_offset ≤ p
    → p < c
    → c < high_of a
    → (n n' child : ProtoNode) × (get_elem? a.nodes (p - a.index_offset) ≡ some n)
      × (get_elem? a.nodes (c - a.index_offset) ≡ some child)
      × Relinked p (high_of a) c child n n'
      × (maybe_update_best_child_and_descendant a p c
          ≡ ok (record a { nodes = set a.nodes (p - a.index_offset) n' }))
unfolding maybe_update_best_child_and_descendant ◌>>=◌
maybe_update-ok a p c links start above below =
    let (child, child_found, child_at) = get_node-ok a c (omega arith) below in
    let (parent, parent_found, parent_at) = get_node-ok a p start (omega arith) in
    let child_d = descendant_from a links c child child_at (omega arith) in
    let parent_links = links (p - a.index_offset) parent parent_at in
    let old_c : Between p (high_of a) parent.best_child =
      child_from a links p parent parent_at start in
    let old_d = descendant_from a links p parent parent_at start in
    let (viable, leads) = node_leads_to_viable_head-ok a child c (omega arith) child_d in
    let (outcome, chosen) =
      best_child_outcome-ok a parent.best_child child c viable p links start old_c in
    (
      parent,
      link_child outcome child c parent,
      child,
      parent_at,
      child_at,
      link_child-Relinked outcome child parent p c (high_of a) above below child_d old_c old_d,
      rw
          (
            child_found,
            parent_found,
            leads,
            chosen,
            update_at-ok a.nodes (p - a.index_offset) (link_child outcome child c) parent_at,
          )
          refl,
    )
