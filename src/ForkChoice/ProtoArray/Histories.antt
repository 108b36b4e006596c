-- ===== src/ForkChoice/ProtoArray/Histories.antt =====
-- The arrays that the operations of a proto array make, and the heads that are found in them.
use trinity_eth.Base.{
  ◌==◌, unnegated, length, get_elem?, get_elem?-some, lt_of_get_elem?, ℤ, dict_get, EachItem-cons,
  >>=-eq-ok, or_raise-eq-ok, ok_injective, raise_if-eq-ok, if-eq-ok, ℕ, ◌+◌, ◌-◌, ◌≤◌, ◌<◌, ◌≡◌,
  refl, sym, ap, subst, ◌∙◌, ◌⊎◌, inl, inr, Bool, true, Option, none, some, List, [], arith, ok,
}
use trinity_eth.Types.{Epoch, Root, Eth2Config, BeaconBlock}
use trinity_eth.ForkChoice.ProtoArray.{
  BlockNode, ProtoNode, ProtoArray, new_proto_array, node_is_viable_for_head, find_head, on_block,
  apply_score_changes, on_prune,
}
use trinity_eth.ForkChoice.ProtoArray.Links.{high_of, WellLinked, Between-none}
use trinity_eth.ForkChoice.ProtoArray.Growth.{on_block-WellLinked}
use trinity_eth.ForkChoice.ProtoArray.Weights.{apply_score_changes-Scored}
use trinity_eth.ForkChoice.ProtoArray.Pruning.{on_prune-Pruned}
use trinity_eth.ForkChoice.ProtoArray.Heads.{get_node-eq-ok}
use trinity_eth.ForkChoice.ProtoArray.Traces.{Under, Traced, TracedNode, Traceable, itself, child}

-- An array that operations make from that of one block, none of which raises.
pub data Reached : ProtoArray → Type 0 where
  started :
      (justified_epoch : Epoch) (block : BlockNode) (config : Eth2Config)
      → Reached (new_proto_array justified_epoch block config)
  added :
      (a a' : ProtoArray) (block : BlockNode) (parent_root : Root) (j f : Epoch)
      → Reached a
      → on_block a block parent_root j f ≡ ok a'
      → Reached a'
  scored :
      (a a' : ProtoArray) (deltas : List ℤ) (j f : Epoch)
      → Reached a
      → apply_score_changes a deltas j f ≡ ok a'
      → Reached a'
  pruned :
      (a a' : ProtoArray) (anchor_root : Root) (calls : List (BeaconBlock × Bool))
      → Reached a
      → on_prune a anchor_root ≡ ok (calls, a')
      → Reached a'

-- What all operations keep.
record IsSound (a : ProtoArray) : Type 0 where
  pub linked : WellLinked a
  pub traceable : Traceable a

pub new_proto_array-WellLinked :
    (justified_epoch : Epoch) (block : BlockNode) (config : Eth2Config)
    → WellLinked (new_proto_array justified_epoch block config)
new_proto_array-WellLinked justified_epoch block config = record {
  links =
      EachItem-cons _ _ []
        (record {
          parent_before = λ p e. cc;
          child_behind = Between-none _ _;
          descendant_behind = Between-none _ _;
        })
        (λ i n at. cc);
  roots = refl;
}

new_proto_array-Traceable :
    (justified_epoch : Epoch) (block : BlockNode) (config : Eth2Config)
    → Traceable (new_proto_array justified_epoch block config)
new_proto_array-Traceable justified_epoch block config = (
  λ k. none,
  record {
    parent_before = λ d p e. cc;
    nodes =
        EachItem-cons _ _ [] (record { same_parent = refl; descendant = λ d e. cc }) (λ i n at. cc);
  },
)

on_block-IsSound :
    (a a' : ProtoArray) (block : BlockNode) (parent_root : Root) (j f : Epoch)
    → IsSound a
    → on_block a block parent_root j f ≡ ok a'
    → IsSound a'
on_block-IsSound a a' block parent_root j f sound e =
    let (a'', linked, grown, traced, done) =
      on_block-WellLinked a block parent_root j f sound.linked in
    subst IsSound (ok_injective (sym done ∙ e))
      (record { linked = linked; traceable = traced sound.traceable })

-- Scores are changed only where there is a delta for each node.
apply_score_changes-length :
    (a a' : ProtoArray) (deltas : List ℤ) (j f : Epoch)
    → apply_score_changes a deltas j f ≡ ok a'
    → length deltas ≡ length a.nodes
unfolding apply_score_changes
apply_score_changes-length a a' deltas j f e =
    let (u, checked, rest) = >>=-eq-ok _ _ e in
    let same = unnegated _ (raise_if-eq-ok _ _ checked) in ground arith

apply_score_changes-IsSound :
    (a a' : ProtoArray) (deltas : List ℤ) (j f : Epoch)
    → IsSound a
    → apply_score_changes a deltas j f ≡ ok a'
    → IsSound a'
apply_score_changes-IsSound a a' deltas j f sound e =
    let same = apply_score_changes-length a a' deltas j f e in
    let (a'', kept, done) = apply_score_changes-Scored a deltas j f sound.linked same in
    let (parent, trace) = sound.traceable in
    subst IsSound (ok_injective (sym done ∙ e))
      (record { linked = kept.well_linked; traceable = (parent, kept.traced parent trace) })

-- Where on_prune returns, it left the array as it was, or it found a head.
on_prune-found :
    (a a' : ProtoArray) (anchor_root : Root) (calls : List (BeaconBlock × Bool))
    → on_prune a anchor_root ≡ ok (calls, a')
    → (a ≡ a') ⊎ ((head : BlockNode) × (find_head a anchor_root ≡ ok head))
unfolding on_prune
on_prune-found a a' anchor_root calls e =
    let (i, known, rest) = >>=-eq-ok _ _ e in
    elim (if-eq-ok (i == a.index_offset) _ _ rest) [
      | inl (first, kept) ↦ inl (ap (λ r. r.1) (ok_injective kept))
      | inr (later, moved) ↦
          let (u, checked, rest') = >>=-eq-ok _ _ moved in
          let (head, found, rest'') = >>=-eq-ok _ _ rest' in inr (head, found)
    ]

on_prune-IsSound :
    (a a' : ProtoArray) (anchor_root : Root) (calls : List (BeaconBlock × Bool))
    → IsSound a
    → on_prune a anchor_root ≡ ok (calls, a')
    → IsSound a'
on_prune-IsSound a a' anchor_root calls sound e = elim (on_prune-found a a' anchor_root calls e) [
  | inl same ↦ subst IsSound same sound
  | inr (head, found) ↦
      let (calls', a'', kept, done) = on_prune-Pruned a anchor_root head sound.linked found in
      let (parent, trace) = sound.traceable in
      subst IsSound (ap (λ r. r.1) (ok_injective (sym done ∙ e)))
        (record { linked = kept.well_linked; traceable = (parent, kept.traced parent trace) })
]

Reached-IsSound : (a : ProtoArray) → Reached a → IsSound a
Reached-IsSound _ (started j block config) = record {
  linked = new_proto_array-WellLinked j block config;
  traceable = new_proto_array-Traceable j block config;
}
Reached-IsSound _ (added a a' block parent_root j f reached e) =
    on_block-IsSound a a' block parent_root j f (Reached-IsSound a reached) e
Reached-IsSound _ (scored a a' deltas j f reached e) =
    apply_score_changes-IsSound a a' deltas j f (Reached-IsSound a reached) e
Reached-IsSound _ (pruned a a' anchor_root calls reached e) =
    on_prune-IsSound a a' anchor_root calls (Reached-IsSound a reached) e

-- The node at an index of the array.
abbrev pub NodeAt : ProtoArray → ℕ → ProtoNode → Type 0
NodeAt a i n = (a.index_offset ≤ i) × (get_elem? a.nodes (i - a.index_offset) ≡ some n)

-- The parents of the nodes of the array lead from an index to index `i`.
pub data Descends (a : ProtoArray) (i : ℕ) : ℕ → Type 0 where
  there : Descends a i i
  up :
      (d p : ℕ) (n : ProtoNode) → NodeAt a d n → n.parent ≡ some p → Descends a i p → Descends a i d

Under-le :
    (parent : ℕ → Option ℕ) (i : ℕ) {d : ℕ}
    → ((d p : ℕ) → parent d ≡ some p → p < d)
    → Under parent i d
    → i ≤ d
Under-le parent i before itself = omega arith
Under-le parent i before (child d p e under) =
    let first = before d p e in let second = Under-le parent i before under in omega arith

-- Between an index of the array and a node under it all nodes are in the array.
Under-Descends :
    (parent : ℕ → Option ℕ) (a : ProtoArray) (i : ℕ) {d : ℕ}
    → Traced parent a
    → a.index_offset ≤ i
    → d < high_of a
    → Under parent i d
    → Descends a i d
Under-Descends parent a i traced low below itself = there
Under-Descends parent a i traced low below (child d p e under) =
    let before = traced.parent_before d p e in
    let after = Under-le parent i traced.parent_before under in
    let here : a.index_offset + (d - a.index_offset) ≡ d = omega arith in
    let (n, at) = get_elem?-some a.nodes (d - a.index_offset) (omega arith) in
    let node = traced.nodes (d - a.index_offset) n at in
    up d p n (omega arith, at) (node.same_parent ∙ ap parent here ∙ e)
      (Under-Descends parent a i traced low (omega arith) under)

-- What a head that was found from an anchor is.
pub record HeadOf (a : ProtoArray) (anchor_root : Root) (head : BlockNode) : Type 0 where
  pub anchor : ℕ
  pub index : ℕ
  pub found : ProtoNode
  pub is_anchor : dict_get anchor_root a.indices ≡ some anchor
  pub is_there : NodeAt a index found
  pub is_head : found.node ≡ head
  pub descends : Descends a anchor index
  pub same_justified : (found.justified_epoch ≡ a.justified_epoch) ⊎ (a.justified_epoch ≡ 0)
  pub same_finalized : (found.finalized_epoch ≡ a.finalized_epoch) ⊎ (a.finalized_epoch ≡ 0)

best-Under :
    (parent : ℕ → Option ℕ) (i : ℕ) (o : Option ℕ)
    → ((d : ℕ) → o ≡ some d → Under parent i d)
    → Under parent i (elim o [ none ↦ i | some d ↦ d ])
best-Under parent i none under = itself
best-Under parent i (some d) under = under d refl

viable_epochs :
    (a : ProtoArray) (n : ProtoNode)
    → node_is_viable_for_head a n ≡ true
    → ((n.justified_epoch ≡ a.justified_epoch) ⊎ (a.justified_epoch ≡ 0))
      × ((n.finalized_epoch ≡ a.finalized_epoch) ⊎ (a.finalized_epoch ≡ 0))
unfolding node_is_viable_for_head
viable_epochs a n h = (ground arith, ground arith)

found-HeadOf :
    (a : ProtoArray) (anchor_root : Root) (head : BlockNode)
    → IsSound a
    → find_head a anchor_root ≡ ok head
    → HeadOf a anchor_root head
unfolding find_head
found-HeadOf a anchor_root head sound e =
    let (parent, traced) = sound.traceable in
    let (i, read, e₁) = >>=-eq-ok _ _ e in
    let (anchor, anchor_found, e₂) = >>=-eq-ok _ _ e₁ in
    let (best, best_found, e₃) = >>=-eq-ok _ _ e₂ in
    let (u, checked, e₄) = >>=-eq-ok _ _ e₃ in
    let known : dict_get anchor_root a.indices ≡ some i = or_raise-eq-ok _ _ read in
    let (low, at) = get_node-eq-ok a i anchor_found in
    let (best_low, best_at) = get_node-eq-ok a _ best_found in
    let within = lt_of_get_elem? a.nodes _ best_at in
    let here : a.index_offset + (i - a.index_offset) ≡ i = omega arith in
    let node = subst (λ k. TracedNode parent k anchor) here (traced.nodes _ anchor at) in
    let (justified, finalized) = viable_epochs a best (unnegated _ (raise_if-eq-ok _ _ checked)) in
    record {
      anchor = i;
      index = elim anchor.best_descendant [ none ↦ i | some d ↦ d ];
      found = best;
      is_anchor = known;
      is_there = (best_low, best_at);
      is_head = ok_injective e₄;
      descends =
          Under-Descends parent a i traced low (omega arith)
            (best-Under parent i anchor.best_descendant node.descendant);
      same_justified = justified;
      same_finalized = finalized;
    }

-- In an array that blocks, changes of scores and pruning have made from that of one block, none
-- of which raised, a head that find_head returns is the block of a node from which the parents of
-- the array's nodes lead to the anchor, and the node's justified epoch is that of the array or
-- the array's is 0, and likewise its finalized epoch.
pub find_head-HeadOf :
    (a : ProtoArray) (anchor_root : Root) (head : BlockNode)
    → Reached a
    → find_head a anchor_root ≡ ok head
    → HeadOf a anchor_root head
find_head-HeadOf a anchor_root head reached e =
    found-HeadOf a anchor_root head (Reached-IsSound a reached) e
