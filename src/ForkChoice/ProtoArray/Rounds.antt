-- ===== src/ForkChoice/ProtoArray/Rounds.antt =====
-- The round of `apply_score_changes` for one node: it returns, it keeps the links in bounds and the
-- shape of the tree, and it moves the weights and the deltas as `Sums.IsRound` says.
use trinity_eth.ForkChoice.ProtoArray.Reads.{
  weight_at, position_of, parent_at, delta_at, SameTree, SameTree-set, weight_at-set, with_nodes,
  LinksOf-set, NodeLinks-Relinked,
}
use trinity_eth.Base.{
  eq_suc, leb, leb→le, lt→ltb, ==_refl, ne→==, Bool-cases, length, get_elem?, set, length-set,
  get_elem?-set, ◌+ℤ◌, ℤ, some_injective, index-ok, update_at-ok, ◌>>=◌, ℕ, zero, suc, ◌+◌, ◌-◌,
  ◌<◌, ◌≡◌, refl, sym, ap, ◌∙◌, ◌≢◌, inl, inr, true, Option, none, some, List, [], ◌∷◌, arith, ok,
}
use trinity_eth.ForkChoice.ProtoArray.{ProtoNode, ProtoArray, update_parent, score_step}
use trinity_eth.ForkChoice.ProtoArray.Links.{NodeLinks, LinksOf, maybe_update-ok}
use trinity_eth.ForkChoice.ProtoArray.Traces.{Traced, Traced-set, Traced-Relinked}
use trinity_eth.ForkChoice.ProtoArray.Sums.{share, IsRound, +ℤ_zero}

position_of_inside :
    (offset p : ℕ) → leb offset p ≡ true → some (p - offset) ≡ position_of offset (some p)
position_of_inside offset p e = rw e refl

-- What handing a delta on to a parent leaves.
record HandedOn (a : ProtoArray) (deltas : List ℤ) (o : Option ℕ) (delta : ℤ)
    (nodes : List ProtoNode) (deltas' : List ℤ) : Type 0 where
  pub links : LinksOf (with_nodes a nodes)
  pub tree : SameTree a.nodes nodes
  pub length_deltas : length deltas' ≡ length deltas
  pub same_weights : (j : ℕ) → weight_at nodes j ≡ weight_at a.nodes j
  pub traced : (parent : ℕ → Option ℕ) → Traced parent a → Traced parent (with_nodes a nodes)
  pub handed_on :
      (i : ℕ)
      → delta_at deltas' i ≡ delta_at deltas i +ℤ share (position_of a.index_offset o) i delta

pub SameTree-refl : (nodes : List ProtoNode) → SameTree nodes nodes
SameTree-refl nodes = record {
  same_length = refl;
  same_parents = λ offset i. refl;
  same_entries = λ offset. refl;
}

nothing-HandedOn :
    (a : ProtoArray) (deltas : List ℤ) (o : Option ℕ) (delta : ℤ)
    → LinksOf a
    → position_of a.index_offset o ≡ none
    → HandedOn a deltas o delta a.nodes deltas
nothing-HandedOn a deltas o delta links outside = record {
  links = links;
  tree = SameTree-refl a.nodes;
  length_deltas = refl;
  same_weights = λ j. refl;
  traced = λ parent trace. trace;
  handed_on = λ i. rw outside (sym (+ℤ_zero (delta_at deltas i)));
}

delta_at-set :
    (deltas : List ℤ) (q i : ℕ) (d x : ℤ)
    → get_elem? deltas q ≡ some d
    → delta_at (set deltas q (d +ℤ x)) i ≡ delta_at deltas i +ℤ share (some q) i x
delta_at-set [] q i d x at = cc
delta_at-set (y ∷ deltas) zero zero d x at = ap (λ z. z +ℤ x) (sym (some_injective at))
delta_at-set (y ∷ deltas) zero (suc i) d x at = rw (ne→== 0 (suc i) (omega arith)) (sym (+ℤ_zero _))
delta_at-set (y ∷ deltas) (suc q) zero d x at = rw (ne→== (suc q) 0 (omega arith)) (sym (+ℤ_zero y))
delta_at-set (y ∷ deltas) (suc q) (suc i) d x at = rw (eq_suc q i) (delta_at-set deltas q i d x at)

update_parent-ok :
    (a : ProtoArray) (deltas : List ℤ) (p : ℕ) (delta : ℤ) (o : Option ℕ)
    → LinksOf a
    → length deltas ≡ length a.nodes
    → p < length a.nodes
    → ((q : ℕ) → o ≡ some q → q < a.index_offset + p)
    → (m : ProtoNode) → get_elem? a.nodes p ≡ some m
    → m.parent ≡ o
    → (nodes : List ProtoNode) × (deltas' : List ℤ) × HandedOn a deltas o delta nodes deltas'
      × (update_parent a deltas p delta o ≡ ok (with_nodes a nodes, deltas'))
unfolding update_parent ◌>>=◌
update_parent-ok a deltas p delta none links same below before m m_at m_parent =
    (a.nodes, deltas, nothing-HandedOn a deltas none delta links refl, refl)
update_parent-ok a deltas p delta (some q) links same below before m m_at m_parent =
    elim (Bool-cases (leb a.index_offset q)) [
      | inr e ↦
          (a.nodes, deltas, nothing-HandedOn a deltas (some q) delta links (rw e refl), rw e refl)
      | inl e ↦
          let start = leb→le a.index_offset q e in
          let earlier = before q refl in
          let (d, found, at) = index-ok deltas (q - a.index_offset) (omega arith) in
          let (n, n', child, n_at, child_at, new, done) =
            maybe_update-ok a q (a.index_offset + p) links start earlier (omega arith) in
          (
            set a.nodes (q - a.index_offset) n',
            set deltas (q - a.index_offset) (d +ℤ delta),
            record {
              links = LinksOf-set a (q - a.index_offset) n' links (
                  NodeLinks-Relinked a q (a.index_offset + p) child n n' start
                    (links (q - a.index_offset) n n_at) new);
              tree =
                  SameTree-set a.nodes (q - a.index_offset) n n' n_at new.same_node new.same_parent;
              length_deltas = length-set deltas (q - a.index_offset) (d +ℤ delta);
              traced = λ parent trace.
                  Traced-Relinked parent a q (a.index_offset + p) n n' child start earlier n_at
                    child_at (sym (trace.nodes p m m_at).same_parent ∙ m_parent) new trace;
              same_weights = weight_at-set a.nodes (q - a.index_offset) n n' n_at new.same_weight;
              handed_on = λ i.
                  delta_at-set deltas (q - a.index_offset) i d delta at
                  ∙ ap (λ o. delta_at deltas i +ℤ share o i delta)
                      (position_of_inside a.index_offset q e);
            },
            rw (e, update_at-ok deltas (q - a.index_offset) (λ x. x +ℤ delta) at, done) refl,
          )
    ]

-- What a round leaves, beside the equation that says that it returns.
pub record RoundOf (a : ProtoArray) (deltas : List ℤ) (p : ℕ) (nodes : List ProtoNode)
    (deltas' : List ℤ) : Type 0 where
  pub links : LinksOf (with_nodes a nodes)
  pub tree : SameTree a.nodes nodes
  pub length_deltas : length deltas' ≡ length deltas
  pub traced : (parent : ℕ → Option ℕ) → Traced parent a → Traced parent (with_nodes a nodes)
  pub round :
      IsRound
        (parent_at a.index_offset a.nodes p)
        p
        (weight_at a.nodes)
        (delta_at deltas)
        (weight_at nodes)
        (delta_at deltas')

-- The weight of a node raised by its delta.
abbrev raise_weight : ProtoNode → ℤ → ProtoNode
raise_weight n delta = record n { weight = n.weight +ℤ delta }

get_elem?-set_here :
    (nodes : List ProtoNode) (p : ℕ) (n' : ProtoNode)
    → p < length nodes
    → get_elem? (set nodes p n') p ≡ some n'
get_elem?-set_here nodes p n' below =
    rw (get_elem?-set nodes p p n', ==_refl p, lt→ltb p (length nodes) below) refl

pub SameTree-trans : {xs ys zs : List ProtoNode} → SameTree xs ys → SameTree ys zs → SameTree xs zs
SameTree-trans first second = record {
  same_length = second.same_length ∙ first.same_length;
  same_parents = λ offset i. second.same_parents offset i ∙ first.same_parents offset i;
  same_entries = λ offset. second.same_entries offset ∙ first.same_entries offset;
}

NodeLinks-raise_weight :
    (offset high p : ℕ) (n : ProtoNode) (delta : ℤ)
    → NodeLinks offset high p n
    → NodeLinks offset high p (raise_weight n delta)
NodeLinks-raise_weight offset high p n delta links = record {
  parent_before = links.parent_before;
  child_behind = links.child_behind;
  descendant_behind = links.descendant_behind;
}

weight_at-set_here :
    (nodes : List ProtoNode) (p : ℕ) (n' : ProtoNode)
    → p < length nodes
    → weight_at (set nodes p n') p ≡ n'.weight
weight_at-set_here nodes p n' below =
    rw (get_elem?-set nodes p p n', ==_refl p, lt→ltb p (length nodes) below) refl

weight_at-set_elsewhere :
    (nodes : List ProtoNode) (p j : ℕ) (n' : ProtoNode)
    → j ≢ p
    → weight_at (set nodes p n') j ≡ weight_at nodes j
weight_at-set_elsewhere nodes p j n' other =
    rw (get_elem?-set nodes p j n', ne→== p j (λ e. other (sym e))) refl

module _ (a : ProtoArray) (deltas : List ℤ) (p : ℕ) (below : p < length a.nodes) where
  round_of :
      (n : ProtoNode) (delta : ℤ) {nodes : List ProtoNode} {deltas' : List ℤ}
      → get_elem? a.nodes p ≡ some n
      → get_elem? deltas p ≡ some delta
      → HandedOn
          (with_nodes a (set a.nodes p (raise_weight n delta)))
          deltas
          n.parent
          delta
          nodes
          deltas'
      → RoundOf a deltas p nodes deltas'
  round_of n delta at delta_here handed = record {
    links = handed.links;
    tree =
        SameTree-trans (SameTree-set a.nodes p n (raise_weight n delta) at refl refl) handed.tree;
    length_deltas = handed.length_deltas;
    traced = λ parent trace. handed.traced parent (
        Traced-set parent a p (raise_weight n delta) trace (record {
          same_parent = (trace.nodes p n at).same_parent;
          descendant = (trace.nodes p n at).descendant;
        }));
    round = record {
      weight_here =
          handed.same_weights p
          ∙ weight_at-set_here a.nodes p (raise_weight n delta) below
          ∙ rw (at, delta_here) refl;
      weight_elsewhere = λ j other.
          handed.same_weights j ∙ weight_at-set_elsewhere a.nodes p j (raise_weight n delta) other;
      delta = λ i. rw (at, delta_here) (handed.handed_on i);
    };
  }

pub score_step-ok :
    (a : ProtoArray) (deltas : List ℤ) (p : ℕ)
    → LinksOf a
    → length deltas ≡ length a.nodes
    → p < length a.nodes
    → (nodes : List ProtoNode) × (deltas' : List ℤ) × RoundOf a deltas p nodes deltas'
      × (score_step p (a, deltas) ≡ ok (with_nodes a nodes, deltas'))
unfolding score_step update_parent ◌>>=◌
score_step-ok a deltas p links same below =
    let (n, found, at) = index-ok a.nodes p below in
    let (delta, delta_found, delta_here) = index-ok deltas p (omega arith) in
    let raised = set a.nodes p (raise_weight n delta) in
    let kept = length-set a.nodes p (raise_weight n delta) in
    let new = NodeLinks-raise_weight _ _ p n delta (links p n at) in
    let (nodes, deltas', handed, done) =
      update_parent-ok (with_nodes a raised) deltas p delta n.parent
        (LinksOf-set a p (raise_weight n delta) links new) (same ∙ sym kept) (omega arith)
        (links p n at).parent_before (raise_weight n delta)
        (get_elem?-set_here a.nodes p (raise_weight n delta) below) refl in
    (
      nodes,
      deltas',
      round_of a deltas p below n delta at delta_here handed,
      rw (at, delta_here, update_at-ok a.nodes p (λ m. raise_weight m delta) at, done) refl,
    )
