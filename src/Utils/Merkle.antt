-- ===== src/Utils/Merkle.antt =====
-- eth2/_utils/merkle/common.py, normal.py and sparse.py. A tree is the list of its layers, from
-- the root to the leaves. `sha256` stands for `hash_eth2`.
pub mod Proofs
pub mod Layers
use trinity_eth.Base.{
  ℕ, zero, suc, ◌+◌, ◌-◌, ◌/◌, ◌%◌, ◌^◌, leb, ◌==◌, Bool, not, if◌then◌else◌, Option, none, some,
  List, [], ◌∷◌, ◌++◌, map, length, same_bytes, range, all_but_last, reversed, Result, ok, ◌>>=◌,
  ◌>>◌, raise_if, or_raise, index, fold_list, validation_error, value_error, exception,
}
use trinity_eth.Types.{Bytes, Hash32}

abbrev pub MerkleTree : Type 0
MerkleTree = List (List Hash32)

abbrev pub MerkleProof : Type 0
MerkleProof = List Hash32

abbrev pub get_root : MerkleTree → Result Hash32
get_root tree = index tree 0 >>= λ layer. index layer 0

-- `take(depth, iterate(lambda index: index // 2, node_index))`
abbrev pub get_branch_indices : ℕ → ℕ → List ℕ
get_branch_indices node_index zero = []
get_branch_indices node_index (suc depth) = node_index ∷ get_branch_indices (node_index / 2) depth

-- `i ^ 1`
abbrev pub sibling : ℕ → ℕ
sibling i = if i % 2 == 0 then i + 1 else i - 1

-- `for layer, proof_index in zip(layers, proof_indices): yield layer[proof_index]`
unfoldable pub read_proof : List (List Hash32) → List ℕ → Result MerkleProof
read_proof [] indices = ok []
read_proof (layer ∷ layers) [] = ok []
read_proof (layer ∷ layers) (i ∷ indices) = do
  node ← index layer i
  rest ← read_proof layers indices
  ok (node ∷ rest)

-- The last layer, `tree[-1]`, is the first of the reversed tree.
unfoldable pub get_merkle_proof : MerkleTree → ℕ → Result MerkleProof
unfolding read_proof
get_merkle_proof tree item_index = do
  leaves ← index (reversed tree) 0
  raise_if (leb (length leaves) item_index) validation_error
  if length tree == 1
      then ok []
      else read_proof (reversed tree)
          (all_but_last (map sibling (get_branch_indices item_index (length tree))))

-- The binary logarithm of a power of two; `fuel` is at least the logarithm.
abbrev pub exact_log2 : ℕ → ℕ → Option ℕ
exact_log2 zero n = if n == 1 then some 0 else none
exact_log2 (suc fuel) n =
    let half = exact_log2 fuel (n / 2) in
    if n == 1
    then some 0
    else if n == 0
    then none
    else if n % 2 == 0
    then elim half [ none ↦ none | some k ↦ some (suc k) ]
    else none

module _ (sha256 : Bytes → Hash32) where
  abbrev pub calc_parent_hash : Hash32 → Hash32 → Hash32
  calc_parent_hash left_node right_node = sha256 (left_node ++ right_node)

  -- `partition(2, layer)` drops a last item that has no partner.
  abbrev pub hash_layer : List Hash32 → List Hash32
  hash_layer [] = []
  hash_layer (left ∷ []) = []
  hash_layer (left ∷ right ∷ layer) = calc_parent_hash left right ∷ hash_layer layer

  -- `take(n, iterate(_hash_layer, layer))`
  abbrev pub hash_layers : ℕ → List Hash32 → List (List Hash32)
  hash_layers zero layer = []
  hash_layers (suc n) layer = layer ∷ hash_layers n (hash_layer layer)

  -- One round of the loop of `verify_merkle_branch`.
  abbrev pub branch_step : ℕ → Hash32 → Hash32 → Hash32
  branch_step i value node =
      if i % 2 == 0 then calc_parent_hash value node else calc_parent_hash node value

  abbrev pub branch_value : MerkleProof → ℕ → Hash32 → ℕ → Result Hash32
  branch_value proof i value round =
      index proof round >>= λ node. ok (branch_step (i / 2 ^ round) value node)

  unfoldable pub verify_merkle_branch : Hash32 → MerkleProof → ℕ → ℕ → Hash32 → Result Bool
  verify_merkle_branch leaf proof depth i root = do
    value ← fold_list (range 0 depth) (branch_value proof i) leaf
    ok (same_bytes value root)

  -- `reduce` over the proof's nodes, each with the order for its branch index.
  abbrev pub proof_root : MerkleProof → List ℕ → Hash32 → Hash32
  proof_root [] indices value = value
  proof_root (node ∷ proof) [] value = value
  proof_root (node ∷ proof) (i ∷ indices) value =
      proof_root proof indices (branch_step i value node)

  -- normal.py
  unfoldable pub verify_merkle_proof : Hash32 → Bytes → ℕ → MerkleProof → Bool
  verify_merkle_proof root item item_index proof =
      same_bytes (proof_root proof (get_branch_indices item_index (length proof)) (sha256 item))
        root

  unfoldable pub calc_merkle_tree_from_leaves : List Hash32 → Result MerkleTree
  calc_merkle_tree_from_leaves leaves = do
    raise_if (length leaves == 0) value_error
    log2 ← or_raise (exact_log2 (length leaves) (length leaves)) value_error
    let tree = reversed (hash_layers (suc log2) leaves)
    top ← index tree 0
    raise_if (not (length top == 1)) exception
    ok tree

  unfoldable pub calc_merkle_tree : List Bytes → Result MerkleTree
  calc_merkle_tree items = calc_merkle_tree_from_leaves (map sha256 items)

  unfoldable pub get_merkle_root : List Hash32 → Result Hash32
  get_merkle_root leaves = calc_merkle_tree_from_leaves leaves >>= get_root

  unfoldable pub get_merkle_root_from_items : List Bytes → Result Hash32
  get_merkle_root_from_items items = calc_merkle_tree items >>= get_root
