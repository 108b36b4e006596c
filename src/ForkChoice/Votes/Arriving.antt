-- ===== src/ForkChoice/Votes/Arriving.antt =====
-- `process_block`: the weights stay the sums of the votes when a block arrives.
use trinity_eth.Base.{
  is_some, dict_get-dict_set_other, ltb, ◌==◌, ltb→lt, ltb→ge, Bool-cases, Option-cases, length,
  get_elem?, length-append, same_bytes, same_bytes→eq, ◌+ℤ◌, int_laws, ℤ, dict_get, dict_has,
  EachItem, ◌>>=◌, ℕ, zero, suc, ◌+◌, ◌≤◌, ◌<◌, ◌≡◌, refl, sym, ap, ◌∙◌, inl, inr, true, false,
  Option, none, some, List, [], ◌∷◌, ◌++◌, arith, ok, pos,
}
use mathlib.Core.Path.{ap₂}
use trinity_eth.Types.{Root, Gwei, Epoch, zero_hash32}
use trinity_eth.ForkChoice.ProtoArray.{BlockNode, ProtoNode, ProtoArray, new_proto_node}
use trinity_eth.ForkChoice.ProtoArray.Links.{WellLinked, high_of}
use trinity_eth.ForkChoice.ProtoArray.Sums.{
  share, share_elsewhere, sum_from, sum_from-congruent, +ℤ_zero,
}
use trinity_eth.ForkChoice.ProtoArray.Reads.{weight_at, parent_at, position_of}
use trinity_eth.ForkChoice.ProtoArray.Weights.{length-indices, parent_of_before, children_weight}
use trinity_eth.ForkChoice.ProtoArray.Growth.{Added, Grown, known, added, on_block-WellLinked}
use trinity_eth.ForkChoice.Votes.{VoteTracker, ProtoArrayForkChoice, process_block}
use trinity_eth.ForkChoice.Votes.Deltas.{listed_balance, place, vote_sum}
use trinity_eth.ForkChoice.Votes.Counted.{InArray-WellLinked, Counted, own_votes}

weight_at-snoc :
    (nodes : List ProtoNode) (n : ProtoNode) (i : ℕ)
    → n.weight ≡ pos 0
    → weight_at (nodes ++ n ∷ []) i ≡ weight_at nodes i
weight_at-snoc [] n zero none_yet = none_yet
weight_at-snoc [] n (suc i) none_yet = refl
weight_at-snoc (m ∷ nodes) n zero none_yet = refl
weight_at-snoc (m ∷ nodes) n (suc i) none_yet = weight_at-snoc nodes n i none_yet

parent_at-snoc :
    (offset : ℕ) (nodes : List ProtoNode) (n : ProtoNode) (i : ℕ)
    → i < length nodes
    → parent_at offset (nodes ++ n ∷ []) i ≡ parent_at offset nodes i
parent_at-snoc offset [] n i below = absurd (omega arith)
parent_at-snoc offset (m ∷ nodes) n zero below = refl
parent_at-snoc offset (m ∷ nodes) n (suc i) below = parent_at-snoc offset nodes n i (omega arith)

weight_at_beyond : (nodes : List ProtoNode) (i : ℕ) → length nodes ≤ i → weight_at nodes i ≡ pos 0
weight_at_beyond [] i beyond = refl
weight_at_beyond (n ∷ nodes) zero beyond = absurd (omega arith)
weight_at_beyond (n ∷ nodes) (suc i) beyond = weight_at_beyond nodes i (omega arith)

share_nothing : (o : Option ℕ) (i : ℕ) → share o i (pos 0) ≡ pos 0
share_nothing none i = refl
share_nothing (some q) i = elim (Bool-cases (q == i)) [ inl e ↦ rw e refl | inr e ↦ rw e refl ]

zero_+ℤ : (a : ℤ) → pos 0 +ℤ a ≡ a
zero_+ℤ a = omega int_laws

sum_from-suc : (k n : ℕ) (f : ℕ → ℤ) → f (k + n) ≡ pos 0 → sum_from k (suc n) f ≡ sum_from k n f
sum_from-suc k zero f last =
    ap (λ z. z +ℤ pos 0) (ap f {y = k + 0} (omega arith) ∙ last) ∙ +ℤ_zero (pos 0)
sum_from-suc k (suc n) f last =
    ap (λ z. f k +ℤ z) (sum_from-suc (suc k) n f (ap f {y = k + suc n} (omega arith) ∙ last))

sum_from-nothing :
    (k n : ℕ) (f : ℕ → ℤ) → ((j : ℕ) → k ≤ j → j < k + n → f j ≡ pos 0) → sum_from k n f ≡ pos 0
sum_from-nothing k zero f none_there = refl
sum_from-nothing k (suc n) f none_there =
    ap₂ ◌+ℤ◌ (none_there k (omega arith) (omega arith))
      (sum_from-nothing (suc k) n f (λ j low high. none_there j (omega arith) (omega arith)))
    ∙ +ℤ_zero (pos 0)

module _ (a : ProtoArray) (block : BlockNode) (o : Option ℕ) (j f : Epoch) (a' : ProtoArray)
    (addition : Added a block o j f a') where
  new_weight_at : (i : ℕ) → weight_at a'.nodes i ≡ weight_at a.nodes i
  new_weight_at i =
      addition.new_weights i ∙ weight_at-snoc a.nodes (new_proto_node block o j f) i refl

  new_parent_at :
      (i : ℕ)
      → i < length a.nodes
      → parent_at a'.index_offset a'.nodes i ≡ parent_at a.index_offset a.nodes i
  new_parent_at i below =
      ap (λ k. parent_at k a'.nodes i) addition.new_offset
      ∙ addition.new_tree.same_parents a.index_offset i
      ∙ parent_at-snoc a.index_offset a.nodes (new_proto_node block o j f) i below

  new_length : length a'.nodes ≡ suc (length a.nodes)
  new_length =
      let longer = length-append a.nodes (new_proto_node block o j f ∷ []) in
      addition.new_tree.same_length ∙ longer ∙ omega arith

  -- The new node, of weight 0, adds nothing to its parent.
  new_children_weight : (i : ℕ) → children_weight a' i ≡ children_weight a i
  new_children_weight i =
      ap
        (λ n.
          sum_from 0 n (λ k. share (parent_at a'.index_offset a'.nodes k) i (weight_at a'.nodes k)))
        new_length
      ∙ sum_from-suc 0 (length a.nodes) _ (
          ap (share (parent_at a'.index_offset a'.nodes (0 + length a.nodes)) i) (
            new_weight_at (0 + length a.nodes)
            ∙ weight_at_beyond a.nodes (0 + length a.nodes) (omega arith))
          ∙ share_nothing _ i)
      ∙ sum_from-congruent 0 (length a.nodes) _ _
          (λ k low high. ap₂ (λ p w. share p i w) (new_parent_at k (omega arith)) (new_weight_at k))

  other_place :
      (root : Root)
      → same_bytes block.root root ≡ false
      → place a'.indices a'.index_offset root ≡ place a.indices a.index_offset root
  other_place root differ =
      ap₂ (λ d k. place d k root) addition.new_indices addition.new_offset
      ∙ ap (position_of a.index_offset)
          (dict_get-dict_set_other root block.root (high_of a) a.indices differ)

  old_place :
      (root : Root) (i : ℕ)
      → dict_has block.root a.indices ≡ false
      → place a.indices a.index_offset root ≡ some i
      → place a'.indices a'.index_offset root ≡ some i
  old_place root i new e = elim (Bool-cases (same_bytes block.root root)) [
    | inr other ↦ other_place root other ∙ e
    | inl same ↦ elim (Option-cases (dict_get root a.indices)) [
      | inl absent ↦
          let clash : none ≡ some i = ap (position_of a.index_offset) (sym absent) ∙ e in cc
      | inr (q, there) ↦
          let clash : false ≡ true =
            sym new ∙ ap (λ r. dict_has r a.indices) (same_bytes→eq _ _ same) ∙ ap is_some there in
          cc
    ]
  ]

  -- No vote is counted for the new block yet.
  same_votes :
      (balances : List Gwei) (k i : ℕ) (votes : List VoteTracker)
      → EachItem (λ n v. same_bytes block.root v.current_root ≡ false) votes
      → vote_sum a'.indices a'.index_offset balances k votes i
        ≡ vote_sum a.indices a.index_offset balances k votes i
  same_votes balances k i [] others = refl
  same_votes balances k i (v ∷ votes) others =
      ap₂ ◌+ℤ◌
        (ap (λ p. share p i (pos (listed_balance balances k)))
          (other_place v.current_root (others 0 v refl)))
        (same_votes balances (k + 1) i votes (λ n. others (suc n)))

place_within :
    (offset count : ℕ) (o : Option ℕ) {i : ℕ}
    → ((q : ℕ) → o ≡ some q → (offset ≤ q) × (q < offset + count))
    → position_of offset o ≡ some i
    → i < count
place_within offset count none within e = cc
place_within offset count (some q) within e = let (low, high) = within q refl in ground arith

module _ (a : ProtoArray) (linked : WellLinked a) where
  no_votes_beyond :
      (balances : List Gwei) (k : ℕ) (votes : List VoteTracker)
      → vote_sum a.indices a.index_offset balances k votes (length a.nodes) ≡ pos 0
  no_votes_beyond balances k [] = refl
  no_votes_beyond balances k (v ∷ votes) =
      ap₂ ◌+ℤ◌
        (share_elsewhere (place a.indices a.index_offset v.current_root) (length a.nodes)
          (pos (listed_balance balances k))
          (λ e.
            let below =
              place_within a.index_offset (length a.indices) _
                (InArray-WellLinked a linked v.current_root) e in
            let long = length-indices a linked in omega arith))
        (no_votes_beyond balances (k + 1) votes)
      ∙ +ℤ_zero (pos 0)

  no_children_beyond : children_weight a (length a.nodes) ≡ pos 0
  no_children_beyond = sum_from-nothing 0 (length a.nodes) _ (λ k low high.
      share_elsewhere _ (length a.nodes) _ (λ e.
        let below =
          parent_of_before a.index_offset k (get_elem? a.nodes k)
            (λ n at. (linked.links k n at).parent_before) e in
        omega arith))

-- The weights stay sums when the array grows by a block that no vote is counted for.
Grown-Counted :
    (f : ProtoArrayForkChoice) (block : BlockNode) (a' : ProtoArray)
    → WellLinked a'
    → Grown f.proto_array block a'
    → EachItem (λ n v. same_bytes block.root v.current_root ≡ false) f.votes
    → Counted f
    → Counted (record f { proto_array = a' })
Grown-Counted f block a' linked (known there) others counted = counted
Grown-Counted f block a' linked (added b o j e addition new longer there) others counted = record {
  well_linked = linked;
  sums = λ i (below, other).
      let a = f.proto_array in
      let votes = same_votes a block o j e a' addition f.balances 0 i f.votes others in
      let children = new_children_weight a block o j e a' addition i in
      new_weight_at a block o j e a' addition i ∙ elim (Bool-cases (ltb i (length a.nodes))) [
        | inl inside ↦
            counted.sums i (
              ltb→lt i (length a.nodes) inside,
              λ h. other (old_place a block o j e a' addition zero_hash32 i new h),
            )
            ∙ ap₂ ◌+ℤ◌ (sym votes) (sym children)
        | inr outside ↦
            let past = ltb→ge i (length a.nodes) outside in
            let last : i ≡ length a.nodes = omega arith in
            weight_at_beyond a.nodes i past
            ∙ sym (+ℤ_zero (pos 0))
            ∙ ap₂ ◌+ℤ◌
                (sym (
                  votes
                  ∙ ap (own_votes f) last
                  ∙ no_votes_beyond a counted.well_linked f.balances 0 f.votes))
                (sym (
                  children
                  ∙ ap (children_weight a) last
                  ∙ no_children_beyond a counted.well_linked))
      ];
}

-- Where each weight, but that of a block which stands for the default root, is the sum of the
-- balances whose votes are counted for the block and of the weights of its children, and no vote
-- is counted for the root of the block that arrives, process_block returns, keeps the weights
-- such sums, and leaves the votes and the balances as they were.
pub process_block-Counted :
    (f : ProtoArrayForkChoice) (block : BlockNode) (parent_root : Root) (j e : Epoch)
    → Counted f
    → EachItem (λ n v. same_bytes block.root v.current_root ≡ false) f.votes
    → (f' : ProtoArrayForkChoice) × (process_block f block parent_root j e ≡ ok f')
      × Counted f'
      × (f'.votes ≡ f.votes)
      × (f'.balances ≡ f.balances)
unfolding process_block ◌>>=◌
process_block-Counted f block parent_root j e counted others =
    let (a', linked, grown, traced, done) =
      on_block-WellLinked f.proto_array block parent_root j e counted.well_linked in
    (
      record f { proto_array = a' },
      rw done refl,
      Grown-Counted f block a' linked grown others counted,
      refl,
      refl,
    )
