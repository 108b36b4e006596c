-- ===== src/ForkChoice/ProtoArray/Chains.antt =====
-- `canonical_chain`: it returns where the head is found.
use trinity_eth.Base.{
  leb, leb→le, leb→gt, Bool-cases, gt→leb, length, get_elem?, same_bytes, same_bytes→eq, dict_get,
  some_injective, ◌>>=◌, ℕ, zero, suc, ◌+◌, ◌-◌, ◌≤◌, ◌<◌, ◌≡◌, refl, inl, inr, false, Option, none,
  some, List, [], ◌∷◌, arith, ok,
}
use trinity_eth.Types.{Root}
use trinity_eth.ForkChoice.ProtoArray.{
  BlockNode, ProtoNode, ProtoArray, get_node, find_head, chain_loop, canonical_chain,
}
use trinity_eth.ForkChoice.ProtoArray.Links.{high_of, WellLinked, get_node-ok}
use trinity_eth.ForkChoice.ProtoArray.Heads.{in_array, find_head-known}
use trinity_eth.ForkChoice.ProtoArray.Pruning.{known_head}

-- Blocks that follow the parents of nodes from an index on, up to the anchor or to the last node
-- whose parent is not in the array.
pub data Chain (a : ProtoArray) (anchor_root : Root) : Option ℕ → List BlockNode → Type 0 where
  no_parent : Chain a anchor_root none []
  outside : (i : ℕ) → i < a.index_offset → Chain a anchor_root (some i) []
  at_anchor :
      (i : ℕ) (n : ProtoNode)
      → get_node a i ≡ ok n
      → n.node.root ≡ anchor_root
      → Chain a anchor_root (some i) (n.node ∷ [])
  onward :
      (i : ℕ) (n : ProtoNode) (blocks : List BlockNode)
      → get_node a i ≡ ok n
      → same_bytes n.node.root anchor_root ≡ false
      → Chain a anchor_root n.parent blocks
      → Chain a anchor_root (some i) (n.node ∷ blocks)

parent_within :
    (a : ProtoArray) (i rounds : ℕ) (n : ProtoNode)
    → WellLinked a
    → a.index_offset ≤ i
    → i < high_of a
    → i < a.index_offset + suc rounds
    → get_elem? a.nodes (i - a.index_offset) ≡ some n
    → (p : ℕ) → n.parent ≡ some p
    → (p < high_of a) × (p < a.index_offset + rounds)
parent_within a i rounds n linked low high room at p e =
    let before = (linked.links (i - a.index_offset) n at).parent_before p e in
    (omega arith, omega arith)

chain_loop-Chain :
    (a : ProtoArray) (anchor_root : Root) (rounds : ℕ) (o : Option ℕ)
    → WellLinked a
    → ((i : ℕ) → o ≡ some i → (i < high_of a) × (i < a.index_offset + rounds))
    → (blocks : List BlockNode) × (length blocks ≤ rounds)
      × Chain a anchor_root o blocks
      × (chain_loop (suc rounds) a anchor_root o ≡ ok blocks)
unfolding chain_loop ◌>>=◌
chain_loop-Chain a anchor_root rounds none linked within = ([], omega arith, no_parent, refl)
chain_loop-Chain a anchor_root zero (some i) linked within =
    let (high, room) = within i refl in
    ([], omega arith, outside i (omega arith), rw (gt→leb a.index_offset i (omega arith)) refl)
chain_loop-Chain a anchor_root (suc rounds) (some i) linked within =
    let (high, room) = within i refl in
    elim (Bool-cases (leb a.index_offset i)) [
      | inr e ↦ ([], omega arith, outside i (leb→gt _ _ e), rw e refl)
      | inl e ↦
          let (n, found, at) = get_node-ok a i (leb→le _ _ e) high in
          elim (Bool-cases (same_bytes n.node.root anchor_root)) [
            | inl same ↦ (
              n.node ∷ [],
              omega arith,
              at_anchor i n found (same_bytes→eq _ _ same),
              rw (e, found, same) refl,
            )
            | inr other ↦
                let (blocks, few, chain, done) =
                  chain_loop-Chain a anchor_root rounds n.parent linked
                    (parent_within a i rounds n linked (leb→le _ _ e) high room at) in
                (
                  n.node ∷ blocks,
                  omega arith,
                  onward i n blocks found other chain,
                  rw (e, found, other, done) refl,
                )
          ]
    ]

-- On a well linked array in which the head is found from an anchor, canonical_chain returns at
-- most as many blocks as there are nodes, which follow the parents from the index of the head's
-- root up to the anchor or to the last node whose parent is not in the array.
pub canonical_chain-Chain :
    (a : ProtoArray) (anchor_root : Root) (head : BlockNode)
    → WellLinked a
    → find_head a anchor_root ≡ ok head
    → (i : ℕ) × (blocks : List BlockNode) × (dict_get head.root a.indices ≡ some i)
      × (length blocks ≤ length a.nodes)
      × Chain a anchor_root (some i) blocks
      × (canonical_chain a anchor_root ≡ ok blocks)
unfolding canonical_chain ◌>>=◌
canonical_chain-Chain a anchor_root head linked found =
    let (anchor, d, n, known, n_found, is_head) = find_head-known a anchor_root found in
    let (i, i_known) = known_head a d n head linked n_found is_head in
    let (low, high) = in_array a head.root linked i_known in
    let (blocks, few, chain, done) =
      chain_loop-Chain a anchor_root (length a.nodes) (some i) linked
        (λ k e. let same = some_injective e in (omega arith, omega arith)) in
    (i, blocks, i_known, few, chain, rw (found, i_known) done)
