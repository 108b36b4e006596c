-- ===== src/Utils/Merkle/Proofs.antt =====
-- A proof that is read off a Merkle tree verifies against the tree's root.
use trinity_eth.Base.{
  ℕ, zero, suc, ◌*◌, ◌/◌, ◌^◌, ◌<◌, ◌≡◌, refl, sym, ap, subst, ◌∙◌, ◌==◌, gt→leb, true,
  if◌then◌else◌, some, List, [], ◌∷◌, map, length, get_elem?, get_elem?-some, ne→==, get_elem?-map,
  get_elem?_unique, lt_of_get_elem?, all_but_last, reversed, same_bytes_refl, index-some, ok, ◌>>=◌,
  >>=-eq-ok, ok_injective, or_raise-eq-ok, arith,
}
use trinity_eth.Types.{Bytes, Hash32}
use trinity_eth.Utils.Merkle.{
  MerkleTree, MerkleProof, get_root, get_branch_indices, sibling, read_proof, get_merkle_proof,
  hash_layer, hash_layers, branch_step, proof_root, verify_merkle_proof,
  calc_merkle_tree_from_leaves, calc_merkle_tree,
}
use trinity_eth.Utils.Merkle.Layers.{
  reversed-reversed, length-reversed, all_but_last-siblings, exact_log2_lem, top, reversed-first,
  length-hash_layers, length-hash_layer, branch_step-above,
}

module _ (sha256 : Bytes → Hash32) where
  -- The proof that is read from a leaf upwards, with its length and the root it leads to.
  record ReadsTo (d : ℕ) (layer : List Hash32) (i : ℕ) (leaf : Hash32) : Type 0 where
    proof : MerkleProof
    read :
        read_proof (hash_layers sha256 (suc d) layer) (map sibling (get_branch_indices i d))
        ≡ ok proof
    size : length proof ≡ d
    leads :
        get_elem? (top sha256 d layer) 0
        ≡ some (proof_root sha256 proof (get_branch_indices i d) leaf)

  read_proof-ReadsTo :
      (d : ℕ) (layer : List Hash32) (i : ℕ) (leaf : Hash32)
      → length layer ≡ 2 ^ d
      → get_elem? layer i ≡ some leaf
      → ReadsTo d layer i leaf
  unfolding read_proof ◌>>=◌
  read_proof-ReadsTo zero layer i leaf h found =
      let inside = lt_of_get_elem? layer i found in
      let first : i ≡ 0 = omega arith in
      record {
        proof = [];
        read = refl;
        size = refl;
        leads = subst (λ k. get_elem? layer k ≡ some leaf) first found;
      }
  read_proof-ReadsTo (suc d) layer i leaf h found =
      let inside = lt_of_get_elem? layer i found in
      let even : length layer ≡ 2 * 2 ^ d = omega arith in
      let beside : sibling i < length layer = ground arith in
      let (node, at) = get_elem?-some layer (sibling i) beside in
      let above = branch_step-above sha256 i layer found at in
      let rest =
        read_proof-ReadsTo d (hash_layer sha256 layer) (i / 2) (branch_step sha256 i leaf node)
          (length-hash_layer sha256 (2 ^ d) layer even) above in
      record {
        proof = node ∷ rest.proof;
        read = rw at (rw rest.read refl);
        size = ap suc rest.size;
        leads = rest.leads;
      }

  -- What is known of a tree that is built from leaves: its layers, and how many leaves there are.
  tree_layers :
      (leaves : List Hash32) {tree : MerkleTree}
      → calc_merkle_tree_from_leaves sha256 leaves ≡ ok tree
      → (d : ℕ) × (length leaves ≡ 2 ^ d) × (tree ≡ reversed (hash_layers sha256 (suc d) leaves))
  unfolding calc_merkle_tree_from_leaves
  tree_layers leaves e =
      let (_, _, e1) = >>=-eq-ok _ _ e in
      let (d, log, e2) = >>=-eq-ok _ _ e1 in
      let (_, _, e3) = >>=-eq-ok _ _ e2 in
      let (_, _, e4) = >>=-eq-ok _ _ e3 in
      (
        d,
        exact_log2_lem (length leaves) (length leaves) (or_raise-eq-ok _ _ log),
        sym (ok_injective e4),
      )

  -- The tree of one layer has the empty proof, as the general case would read it.
  skip_root :
      (d : ℕ) (leaves : List Hash32) (i : ℕ) {proof : MerkleProof}
      → read_proof (hash_layers sha256 (suc d) leaves) (map sibling (get_branch_indices i d))
        ≡ ok proof
      → (if suc d == 1
          then ok []
          else read_proof
              (hash_layers sha256 (suc d) leaves)
              (all_but_last (map sibling (get_branch_indices i (suc d)))))
        ≡ ok proof
  unfolding read_proof
  skip_root zero leaves i read = read
  skip_root (suc d) leaves i {proof} read = rw (ne→== (suc (suc d)) 1 (omega arith)) (
      subst (λ indices. read_proof (hash_layers sha256 (suc (suc d)) leaves) indices ≡ ok proof)
        (sym (all_but_last-siblings i (suc d))) read)

  -- Reading a proof off a tree is reading it off the layers, from the leaves on.
  proof_read :
      (d : ℕ) (leaves : List Hash32) (i : ℕ) {proof : MerkleProof}
      → i < length leaves
      → read_proof (hash_layers sha256 (suc d) leaves) (map sibling (get_branch_indices i d))
        ≡ ok proof
      → get_merkle_proof (reversed (hash_layers sha256 (suc d) leaves)) i ≡ ok proof
  unfolding get_merkle_proof ◌>>=◌
  proof_read d leaves i inside read =
      let layers = hash_layers sha256 (suc d) leaves in
      let size : length (reversed layers) ≡ suc d =
        length-reversed layers ∙ length-hash_layers sha256 (suc d) leaves in
      rw (reversed-reversed layers, gt→leb (length leaves) i inside, size)
        (skip_root d leaves i read)

  verified :
      (d i : ℕ) (item : Bytes) (root : Hash32) (proof : MerkleProof)
      → length proof ≡ d
      → proof_root sha256 proof (get_branch_indices i d) (sha256 item) ≡ root
      → verify_merkle_proof sha256 root item i proof ≡ true
  unfolding verify_merkle_proof
  verified d i item root proof size same = rw size (rw same (same_bytes_refl root))

  -- For a tree that is built from items and an index that holds one of them, the proof is read off
  -- without an error, and it verifies for the item against the tree's root.
  pub get_merkle_proof-verify_merkle_proof :
      (items : List Bytes) (tree : MerkleTree) (root : Hash32) (i : ℕ) (item : Bytes)
      → calc_merkle_tree sha256 items ≡ ok tree
      → get_root tree ≡ ok root
      → get_elem? items i ≡ some item
      → (proof : MerkleProof) × (get_merkle_proof tree i ≡ ok proof)
        × (verify_merkle_proof sha256 root item i proof ≡ true)
  unfolding calc_merkle_tree
  get_merkle_proof-verify_merkle_proof items tree root i item built rooted found =
      let leaves = map sha256 items in
      let (d, size, layered) = tree_layers leaves built in
      let leaf = get_elem?-map sha256 items i found in
      let r = read_proof-ReadsTo d leaves i (sha256 item) size leaf in
      let (layer, first, second) = >>=-eq-ok _ _ rooted in
      let top_layer : get_elem? tree 0 ≡ some (top sha256 d leaves) =
        rw layered (reversed-first sha256 d leaves) in
      let same_layer = get_elem?_unique tree 0 top_layer (index-some tree 0 first) in
      let at_root : get_elem? (top sha256 d leaves) 0 ≡ some root =
        rw same_layer (index-some layer 0 second) in
      (
        r.proof,
        rw layered (proof_read d leaves i (lt_of_get_elem? leaves i leaf) r.read),
        verified d i item root r.proof r.size
            (get_elem?_unique (top sha256 d leaves) 0 r.leads at_root),
      )
