-- ===== src/ForkChoice/ProtoArray/Weights.antt =====
-- `apply_score_changes` as a whole: it returns on a well linked array, and it keeps each weight the
-- sum of what the node has of its own and of the weights of its children.
use trinity_eth.Base.{
  ◌==◌, ==_refl, length, get_elem?, ◌+ℤ◌, ℤ, ◌>>=◌, ℕ, zero, suc, ◌+◌, ◌<◌, ◌≡◌, refl, sym, ap,
  subst, ◌∙◌, false, not, ◌&&◌, Option, none, some, List, [], ◌∷◌, arith, ok,
}
use trinity_eth.Types.{Epoch}
use trinity_eth.ForkChoice.ProtoArray.{ProtoNode, ProtoArray, score_loop, apply_score_changes}
use trinity_eth.ForkChoice.ProtoArray.Links.{entries, LinksOf, WellLinked}
use trinity_eth.ForkChoice.ProtoArray.Traces.{Traced}
use trinity_eth.ForkChoice.ProtoArray.Sums.{
  sum_from-congruent, IsRound, share, child_sum, Progress, start-Progress, round-Progress,
  end-Progress,
}
use trinity_eth.ForkChoice.ProtoArray.Rounds.{score_step-ok, SameTree-refl, SameTree-trans}
use trinity_eth.ForkChoice.ProtoArray.Reads.{
  parent_of, weight_at, parent_at, delta_at, position_of, SameTree, with_nodes,
}

-- The weights of the children of the node at a position.
abbrev pub children_weight : ProtoArray → ℕ → ℤ
children_weight a i =
    child_sum (parent_at a.index_offset a.nodes) (weight_at a.nodes) i 0 (length a.nodes)

-- The weight of a node is what it has of its own and the weights of its children.
abbrev pub IsSumAt : ProtoArray → (ℕ → ℤ) → ℕ → Type 0
IsSumAt a own i = weight_at a.nodes i ≡ own i +ℤ children_weight a i

position_of_before :
    (offset p : ℕ) (o : Option ℕ) {q : ℕ}
    → ((x : ℕ) → o ≡ some x → x < offset + p)
    → position_of offset o ≡ some q
    → q < p
position_of_before offset p none before e = cc
position_of_before offset p (some x) before e = let earlier = before x refl in ground arith

pub parent_of_before :
    (offset p : ℕ) (o : Option ProtoNode) {q : ℕ}
    → ((n : ProtoNode) → o ≡ some n → (x : ℕ) → n.parent ≡ some x → x < offset + p)
    → parent_of offset o ≡ some q
    → q < p
parent_of_before offset p none before e = cc
parent_of_before offset p (some n) before e = position_of_before offset p n.parent (before n refl) e

module _ (start : ProtoArray) (deltas : List ℤ) where
  abbrev ProgressOf : ℕ → ℕ → List ProtoNode → List ℤ → Type 0
  ProgressOf k n nodes deltas' =
      Progress (parent_at start.index_offset start.nodes) (weight_at start.nodes) (delta_at deltas)
        k n (weight_at nodes) (delta_at deltas')

  -- What the rounds for the `n` positions from `k` on leave.
  record AfterRounds (k n : ℕ) (nodes : List ProtoNode) (deltas' : List ℤ) : Type 0 where
    pub links : LinksOf (with_nodes start nodes)
    pub tree : SameTree start.nodes nodes
    pub length_deltas : length deltas' ≡ length start.nodes
    pub traced :
        (parent : ℕ → Option ℕ) → Traced parent start → Traced parent (with_nodes start nodes)
    pub progress : ProgressOf k n nodes deltas'

  parent_before :
      (nodes : List ProtoNode) (p : ℕ)
      → LinksOf (with_nodes start nodes)
      → (q : ℕ) → parent_at start.index_offset nodes p ≡ some q
      → q < p
  parent_before nodes p links q e =
      parent_of_before start.index_offset p (get_elem? nodes p)
        (λ n at. (links p n at).parent_before) e

  score_loop-ok :
      (k n : ℕ) (nodes : List ProtoNode) (deltas' : List ℤ)
      → k + n ≡ length start.nodes
      → AfterRounds k n nodes deltas'
      → (nodes' : List ProtoNode) × (deltas'' : List ℤ) × AfterRounds 0
          (length start.nodes)
          nodes'
          deltas''
        × (score_loop k (with_nodes start nodes, deltas') ≡ ok (with_nodes start nodes', deltas''))
  unfolding score_loop ◌>>=◌
  score_loop-ok zero n nodes deltas' total after =
      (nodes, deltas', subst (λ m. AfterRounds 0 m nodes deltas') (omega arith) after, refl)
  score_loop-ok (suc p) n nodes deltas' total after =
      let same = after.tree.same_length in
      let (nodes', deltas'', round, done) =
        score_step-ok (with_nodes start nodes) deltas' p after.links
          (after.length_deltas ∙ sym same) (omega arith) in
      let (last, last_deltas, ended, rest) =
        score_loop-ok p (suc n) nodes' deltas'' (omega arith) (record {
          links = round.links;
          tree = SameTree-trans after.tree round.tree;
          length_deltas = round.length_deltas ∙ after.length_deltas;
          traced = λ parent trace. round.traced parent (after.traced parent trace);
          progress =
              round-Progress p n
                (λ q e.
                  parent_before nodes p after.links q
                    (after.tree.same_parents start.index_offset p ∙ e))
                after.progress
                (subst
                  (λ o.
                    IsRound o p (weight_at nodes) (delta_at deltas') (weight_at nodes')
                      (delta_at deltas''))
                  (after.tree.same_parents start.index_offset p) round.round);
        }) in
      (last, last_deltas, ended, rw (done, rest) refl)

length-entries :
    (offset : ℕ) (nodes : List ProtoNode) → length (entries offset nodes) ≡ length nodes
length-entries offset [] = refl
length-entries offset (n ∷ nodes) = ap suc (length-entries (suc offset) nodes)

child_sum-SameTree :
    (offset : ℕ) {nodes nodes' : List ProtoNode}
    → SameTree nodes nodes'
    → (w : ℕ → ℤ) (i : ℕ)
    → child_sum (parent_at offset nodes) w i 0 (length nodes)
      ≡ child_sum (parent_at offset nodes') w i 0 (length nodes')
child_sum-SameTree offset {nodes} {nodes'} tree w i = rw (tree.same_length) (
    sum_from-congruent 0 (length nodes) _ _
      (λ j low high. ap (λ o. share o i (w j)) (sym (tree.same_parents offset j))))

-- What `apply_score_changes` leaves.
pub record Scored (a : ProtoArray) (deltas : List ℤ) (j f : Epoch) (a' : ProtoArray) : Type 0 where
  pub well_linked : WellLinked a'
  pub tree : SameTree a.nodes a'.nodes
  pub traced : (parent : ℕ → Option ℕ) → Traced parent a → Traced parent a'
  pub same_offset : a'.index_offset ≡ a.index_offset
  pub same_indices : a'.indices ≡ a.indices
  pub epochs : (a'.justified_epoch ≡ j) × (a'.finalized_epoch ≡ f)
  pub sums :
      (own : ℕ → ℤ) (i : ℕ)
      → i < length a.nodes
      → IsSumAt a own i
      → IsSumAt a' (λ k. own k +ℤ delta_at deltas k) i

pub length-indices : (a : ProtoArray) → WellLinked a → length a.indices ≡ length a.nodes
length-indices a linked = ap length linked.roots ∙ length-entries a.index_offset a.nodes

same_lengths :
    (a : ProtoArray) (deltas : List ℤ)
    → WellLinked a
    → length deltas ≡ length a.nodes
    → not (length deltas == length a.nodes && length a.nodes == length a.indices) ≡ false
same_lengths a deltas linked same =
    rw (same, length-indices a linked, ==_refl (length a.nodes)) refl

-- On a well linked array, and with a delta for each node, apply_score_changes returns; it keeps
-- the tree, the dictionary and the offset, sets the epochs and keeps the array well linked, and
-- each weight that was the sum of what the node has of its own and of the weights of its children
-- is so again, with the delta added to what the node has of its own.
pub apply_score_changes-Scored :
    (a : ProtoArray) (deltas : List ℤ) (j f : Epoch)
    → WellLinked a
    → length deltas ≡ length a.nodes
    → (a' : ProtoArray) × Scored a deltas j f a' × (apply_score_changes a deltas j f ≡ ok a')
unfolding apply_score_changes ◌>>=◌
apply_score_changes-Scored a deltas j f linked same =
    let start : ProtoArray = record a { justified_epoch = j; finalized_epoch = f } in
    let (nodes, deltas', ended, done) =
      score_loop-ok start deltas (length a.nodes) 0 a.nodes deltas (omega arith) (record {
        links = linked.links;
        tree = SameTree-refl a.nodes;
        length_deltas = same;
        traced = λ parent trace. trace;
        progress = start-Progress (length a.nodes);
      }) in
    (
      with_nodes start nodes,
      record {
        well_linked = record {
          links = ended.links;
          roots = linked.roots ∙ sym (ended.tree.same_entries a.index_offset);
        };
        tree = ended.tree;
        traced = λ parent trace.
            ended.traced parent
              (record { parent_before = trace.parent_before; nodes = trace.nodes });
        same_offset = refl;
        same_indices = refl;
        epochs = (refl, refl);
        sums = λ own i below sum.
            end-Progress own (length a.nodes) ended.progress i below sum
            ∙ ap (λ x. (own i +ℤ delta_at deltas i) +ℤ x)
                (child_sum-SameTree a.index_offset ended.tree (weight_at nodes) i);
      },
      rw (same_lengths a deltas linked same, done) refl,
    )
