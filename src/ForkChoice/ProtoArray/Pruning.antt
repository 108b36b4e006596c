-- ===== src/ForkChoice/ProtoArray/Pruning.antt =====
-- `on_prune`: it returns where the head is found, and what it leaves begins with the anchor.
use trinity_eth.Base.{
  ◌==◌, lt→ltb, ==→eq, ==→ne, Bool-cases, length, get_elem?, drop, same_bytes, same_bytes_refl,
  dict_get, some_injective, EachItem-drop, length-drop, ◌>>=◌, ℕ, zero, suc, ◌+◌, ◌-◌, ◌≤◌, ◌≡◌,
  refl, sym, ap, subst, ◌∙◌, inl, inr, Bool, Option, some, List, [], ◌∷◌, arith, ok, EachItem,
  EachItem-cons, none, true, false, ◌≢◌, ◌⊎◌,
}
use native.Mathlib.Nat.{add-zero}
use trinity_eth.Types.{Root, BeaconBlock}
use trinity_eth.ForkChoice.ProtoArray.{
  BlockNode, ProtoNode, ProtoArray, get_node, find_head, same_index, prune_nodes, on_prune,
}
use trinity_eth.ForkChoice.ProtoArray.Links.{NodeLinks, entries, high_of, WellLinked}
use trinity_eth.ForkChoice.ProtoArray.Heads.{in_array, get_node-eq-ok, find_head-known}
use trinity_eth.ForkChoice.ProtoArray.Traces.{Traced, TracedNode}

-- The call of the sink for the node at a position: it has the block of the node, and says whether
-- the best descendant of the node is the node at index `best`.
abbrev pub IsCallFor : List ProtoNode → ℕ → ℕ → BeaconBlock × Bool → Type 0
IsCallFor nodes best k (block, on_chain) =
    (n : ProtoNode) × (get_elem? nodes k ≡ some n)
    × (block ≡ n.node.block)
    × (((on_chain ≡ true) × (n.best_descendant ≡ some best))
        ⊎ ((on_chain ≡ false) × (n.best_descendant ≢ some best)))

same_index_sides :
    (o : Option ℕ) (best : ℕ)
    → ((same_index o best ≡ true) × (o ≡ some best))
      ⊎ ((same_index o best ≡ false) × (o ≢ some best))
same_index_sides none best = inr (refl, λ e. cc)
same_index_sides (some d) best = elim (Bool-cases (d == best)) [
  | inl same ↦ inl (same, ap some (==→eq d best same))
  | inr other ↦ inr (other, λ e. ==→ne d best other (some_injective e))
]

prune_nodes-ok :
    (count best offset : ℕ) (nodes : List ProtoNode)
    → count ≤ length nodes
    → (calls : List (BeaconBlock × Bool)) × (length calls ≡ count)
      × EachItem (IsCallFor nodes best) calls
      × (prune_nodes count best nodes (entries offset nodes)
          ≡ ok (calls, entries (offset + count) (drop count nodes)))
unfolding prune_nodes ◌>>=◌
prune_nodes-ok zero best offset nodes le = ([], refl, λ k call at. cc, rw (add-zero offset) refl)
prune_nodes-ok (suc count) best offset [] le = absurd (omega arith)
prune_nodes-ok (suc count) best offset (n ∷ nodes) le =
    let (calls, long, made, done) = prune_nodes-ok count best (suc offset) nodes (omega arith) in
    let next : suc offset + count ≡ offset + suc count = omega arith in
    let call : BeaconBlock × Bool = (n.node.block, same_index n.best_descendant best) in
    (
      call ∷ calls,
      ap suc long,
      EachItem-cons _ call calls (n, refl, refl, same_index_sides n.best_descendant best) made,
      rw (same_bytes_refl n.node.root, done)
          (ap (λ k. ok (call ∷ calls, entries k (drop count nodes))) next),
    )

-- The roots of the nodes are known.
known_root :
    (offset : ℕ) (nodes : List ProtoNode) (i : ℕ) (n : ProtoNode)
    → get_elem? nodes i ≡ some n
    → (b : ℕ) × (dict_get n.node.root (entries offset nodes) ≡ some b)
known_root offset [] i n at = cc
known_root offset (m ∷ nodes) zero n at =
    (offset, rw (some_injective at, same_bytes_refl n.node.root) refl)
known_root offset (m ∷ nodes) (suc i) n at =
    let (b, found) = known_root (suc offset) nodes i n at in
    elim (Bool-cases (same_bytes m.node.root n.node.root)) [
      | inl same ↦ (offset, rw same refl)
      | inr other ↦ (b, rw other found)
    ]

NodeLinks-drop :
    (offset count high high' i : ℕ) (n : ProtoNode)
    → high ≡ high'
    → NodeLinks offset high (count + i) n
    → NodeLinks (offset + count) high' i n
NodeLinks-drop offset count high high' i n same links = record {
  parent_before = λ p e. let before = links.parent_before p e in omega arith;
  child_behind = λ j e. let (low, below) = links.child_behind j e in (omega arith, omega arith);
  descendant_behind =
      λ j e. let (low, below) = links.descendant_behind j e in (omega arith, omega arith);
}

-- The array without its first nodes.
abbrev pub dropped : ProtoArray → ℕ → ProtoArray
dropped a count = record a {
  nodes = drop count a.nodes;
  indices = entries (a.index_offset + count) (drop count a.nodes);
  index_offset = a.index_offset + count;
}

dropped-WellLinked :
    (a : ProtoArray) (count : ℕ)
    → WellLinked a
    → count ≤ length a.nodes
    → WellLinked (dropped a count)
dropped-WellLinked a count linked le =
    let long = length-drop count a.nodes in
    record {
      links = λ i n at.
          NodeLinks-drop a.index_offset count (high_of a) _ i n (omega arith)
            (EachItem-drop _ count a.nodes linked.links i n at);
      roots = refl;
    }

Traced-dropped :
    (parent : ℕ → Option ℕ) (a : ProtoArray) (count : ℕ)
    → Traced parent a
    → Traced parent (dropped a count)
Traced-dropped parent a count traced = record {
  parent_before = traced.parent_before;
  nodes = λ i n at.
      let same : a.index_offset + (count + i) ≡ (a.index_offset + count) + i = omega arith in
      subst (λ k. TracedNode parent k n) same (EachItem-drop _ count a.nodes traced.nodes i n at);
}

-- What pruning to an anchor from which a head is found leaves.
pub record Pruned (a : ProtoArray) (anchor_root : Root) (head : BlockNode)
    (calls : List (BeaconBlock × Bool)) (a' : ProtoArray) : Type 0 where
  pub well_linked : WellLinked a'
  pub traced : (parent : ℕ → Option ℕ) → Traced parent a → Traced parent a'
  pub anchored : dict_get anchor_root a.indices ≡ some a'.index_offset
  pub later : a.index_offset ≤ a'.index_offset
  pub rest : a'.nodes ≡ drop (a'.index_offset - a.index_offset) a.nodes
  pub one_call_each : length calls ≡ a'.index_offset - a.index_offset
  pub head_index : ℕ
  pub head_known : dict_get head.root a.indices ≡ some head_index
  pub calls_made : EachItem (IsCallFor a.nodes head_index) calls

nothing_Pruned :
    (a : ProtoArray) (anchor_root : Root) (head : BlockNode) (b : ℕ)
    → WellLinked a
    → dict_get anchor_root a.indices ≡ some a.index_offset
    → dict_get head.root a.indices ≡ some b
    → Pruned a anchor_root head [] a
nothing_Pruned a anchor_root head b linked anchored head_known = record {
  well_linked = linked;
  traced = λ parent trace. trace;
  anchored = anchored;
  later = omega arith;
  rest = ap (λ k. drop k a.nodes) {x = 0} (omega arith);
  one_call_each = omega arith;
  head_index = b;
  head_known = head_known;
  calls_made = λ k call at. cc;
}

dropped-Pruned :
    (a : ProtoArray) (anchor_root : Root) (head : BlockNode) (count b : ℕ)
    (calls : List (BeaconBlock × Bool))
    → WellLinked a
    → count ≤ length a.nodes
    → dict_get anchor_root a.indices ≡ some (a.index_offset + count)
    → length calls ≡ count
    → dict_get head.root a.indices ≡ some b
    → EachItem (IsCallFor a.nodes b) calls
    → Pruned a anchor_root head calls (dropped a count)
dropped-Pruned a anchor_root head count b calls linked le anchored long head_known made = record {
  well_linked = dropped-WellLinked a count linked le;
  traced = λ parent trace. Traced-dropped parent a count trace;
  anchored = anchored;
  later = omega arith;
  rest = ap (λ k. drop k a.nodes) {x = count} (omega arith);
  one_call_each = omega arith;
  head_index = b;
  head_known = head_known;
  calls_made = made;
}

-- The root of a head that was found is known.
pub known_head :
    (a : ProtoArray) (d : ℕ) (n : ProtoNode) (head : BlockNode)
    → WellLinked a
    → get_node a d ≡ ok n
    → n.node ≡ head
    → (b : ℕ) × (dict_get head.root a.indices ≡ some b)
known_head a d n head linked found same =
    let (low, at) = get_node-eq-ok a d found in
    let (b, known) = known_root a.index_offset a.nodes (d - a.index_offset) n at in
    (
      b,
      ap (λ m. dict_get m.root a.indices) (sym same)
          ∙ ap (dict_get n.node.root) linked.roots
          ∙ known,
    )

pub on_prune-Pruned :
    (a : ProtoArray) (anchor_root : Root) (head : BlockNode)
    → WellLinked a
    → find_head a anchor_root ≡ ok head
    → (calls : List (BeaconBlock × Bool)) × (a' : ProtoArray) × Pruned a anchor_root head calls a'
      × (on_prune a anchor_root ≡ ok (calls, a'))
unfolding on_prune ◌>>=◌
on_prune-Pruned a anchor_root head linked found =
    let (i, d, n, known, n_found, is_head) = find_head-known a anchor_root found in
    let (low, high) = in_array a anchor_root linked known in
    let (b, b_known) = known_head a d n head linked n_found is_head in
    elim (Bool-cases (i == a.index_offset)) [
      | inl e ↦ (
        [],
        a,
        nothing_Pruned a anchor_root head b linked (known ∙ ap some (==→eq i a.index_offset e))
            b_known,
        rw (known, e) refl,
      )
      | inr e ↦
          let count = i - a.index_offset in
          let here : i ≡ a.index_offset + count = omega arith in
          let (calls, long, made, done) =
            prune_nodes-ok count b a.index_offset a.nodes (omega arith) in
          let later = lt→ltb a.index_offset i (omega (arith, ==→ne i a.index_offset e)) in
          let pruned = ap (prune_nodes count b a.nodes) linked.roots ∙ done in
          (
            calls,
            dropped a count,
            dropped-Pruned a anchor_root head count b calls linked (omega arith)
                (known ∙ ap some here) long b_known made,
            rw (known, e, later, found, b_known, pruned)
                (ap (λ k. ok (calls, record (dropped a count) { index_offset = k })) here),
          )
    ]
