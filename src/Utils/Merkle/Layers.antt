-- ===== src/Utils/Merkle/Layers.antt =====
-- The layers of a Merkle tree: their lengths, the nodes of each, and their order.
use trinity_eth.Base.{
  ℕ, zero, suc, ◌+◌, ◌*◌, ◌/◌, ◌%◌, ◌^◌, ◌≡◌, refl, ap, ◌∙◌, ◌==◌, if◌then◌else◌, some, none, List,
  [], ◌∷◌, ◌++◌, map, length, get_elem?, all_but_last, reversed, reverse_onto, arith, Option-cases,
  ◌-◌, Bool-cases, inl, inr,
}
use trinity_eth.Types.{Bytes, Hash32}
use trinity_eth.Utils.Merkle.{
  hash_layer, hash_layers, calc_parent_hash, branch_step, sibling, get_branch_indices, exact_log2,
}

append_nil {ℓ} : {A : Type ℓ} (xs : List A) → xs ++ [] ≡ xs
append_nil [] = refl
append_nil (x ∷ xs) = ap (λ ys. x ∷ ys) (append_nil xs)

reverse_onto_twice {ℓ} :
    {A : Type ℓ} (xs acc zs : List A)
    → reverse_onto (reverse_onto xs acc) zs ≡ reverse_onto acc (xs ++ zs)
reverse_onto_twice [] acc zs = refl
reverse_onto_twice (x ∷ xs) acc zs = reverse_onto_twice xs (x ∷ acc) zs

pub reversed-reversed {ℓ} : {A : Type ℓ} (xs : List A) → reversed (reversed xs) ≡ xs
reversed-reversed xs = reverse_onto_twice xs [] [] ∙ append_nil xs

length-reverse_onto {ℓ} :
    {A : Type ℓ} (xs acc : List A) → length (reverse_onto xs acc) ≡ length xs + length acc
length-reverse_onto [] acc = omega arith
length-reverse_onto (x ∷ xs) acc = omega (arith, length-reverse_onto xs (x ∷ acc))

pub length-reversed {ℓ} : {A : Type ℓ} (xs : List A) → length (reversed xs) ≡ length xs
length-reversed xs = omega (arith, length-reverse_onto xs [])

-- The indices that lead to the root's children are those that lead to the root, but the last.
pub all_but_last-siblings :
    (i d : ℕ)
    → all_but_last (map sibling (get_branch_indices i (suc d)))
      ≡ map sibling (get_branch_indices i d)
all_but_last-siblings i zero = refl
all_but_last-siblings i (suc d) =
    ap (λ indices. sibling i ∷ indices) (all_but_last-siblings (i / 2) d)

doubled :
    (n k d : ℕ)
    → n / 2 ≡ 2 ^ k
    → (if n == 0 then none else if n % 2 == 0 then some (suc k) else none) ≡ some d
    → n ≡ 2 ^ d
doubled n k zero half e = ground arith
doubled n k (suc d) half e = ground arith

-- The logarithm is exact.
pub exact_log2_lem : (fuel n : ℕ) {d : ℕ} → exact_log2 fuel n ≡ some d → n ≡ 2 ^ d
exact_log2_lem zero n {d} e = ground arith
exact_log2_lem (suc fuel) n {d} e = elim (Bool-cases (n == 1)) [
  | inl one ↦ ground arith
  | inr more ↦ elim (Option-cases (exact_log2 fuel (n / 2))) [
    | inl absent ↦ ground arith
    | inr (k, found) ↦
        let half = exact_log2_lem fuel (n / 2) found in
        let rest = rw (more, found) at e in doubled n k d half rest
  ]
]

module _ (sha256 : Bytes → Hash32) where
  -- The layer that is `d` layers above.
  abbrev pub top : ℕ → List Hash32 → List Hash32
  top zero layer = layer
  top (suc d) layer = top d (hash_layer sha256 layer)

  top-first :
      (d : ℕ) (layer : List Hash32) (acc : List (List Hash32))
      → get_elem? (reverse_onto (hash_layers sha256 (suc d) layer) acc) 0 ≡ some (top d layer)
  top-first zero layer acc = refl
  top-first (suc d) layer acc = top-first d (hash_layer sha256 layer) (layer ∷ acc)

  pub reversed-first :
      (d : ℕ) (layer : List Hash32)
      → get_elem? (reversed (hash_layers sha256 (suc d) layer)) 0 ≡ some (top d layer)
  reversed-first d layer = top-first d layer []

  pub length-hash_layers : (n : ℕ) (layer : List Hash32) → length (hash_layers sha256 n layer) ≡ n
  length-hash_layers zero layer = refl
  length-hash_layers (suc n) layer = ap suc (length-hash_layers n (hash_layer sha256 layer))

  pub length-hash_layer :
      (k : ℕ) (layer : List Hash32) → length layer ≡ 2 * k → length (hash_layer sha256 layer) ≡ k
  length-hash_layer zero [] h = refl
  length-hash_layer (suc k) [] h = omega arith
  length-hash_layer k (x ∷ []) h = omega arith
  length-hash_layer zero (x ∷ y ∷ layer) h = omega arith
  length-hash_layer (suc k) (x ∷ y ∷ layer) h = ap suc (length-hash_layer k layer (omega arith))

  pub parent_at :
      (k p : ℕ) (layer : List Hash32) {a b : Hash32}
      → p ≡ k + k
      → get_elem? layer p ≡ some a
      → get_elem? layer (suc p) ≡ some b
      → get_elem? (hash_layer sha256 layer) k ≡ some (calc_parent_hash sha256 a b)
  parent_at k p [] h ea eb = cc
  parent_at k zero (x ∷ []) h ea eb = cc
  parent_at k (suc p) (x ∷ []) h ea eb = cc
  parent_at zero zero (x ∷ y ∷ layer) h ea eb = cc
  parent_at (suc k) zero (x ∷ y ∷ layer) h ea eb = absurd (omega arith)
  parent_at zero (suc p) (x ∷ y ∷ layer) h ea eb = absurd (omega arith)
  parent_at (suc k) (suc zero) (x ∷ y ∷ layer) h ea eb = absurd (omega arith)
  parent_at (suc k) (suc (suc p)) (x ∷ y ∷ layer) h ea eb = parent_at k p layer (omega arith) ea eb

  -- The node above the `i`th holds the hash of the `i`th and its sibling, in their order.
  pub branch_step-above :
      (i : ℕ) (layer : List Hash32) {a b : Hash32}
      → get_elem? layer i ≡ some a
      → get_elem? layer (sibling i) ≡ some b
      → get_elem? (hash_layer sha256 layer) (i / 2) ≡ some (branch_step sha256 i a b)
  branch_step-above i layer ea eb = elim (Bool-cases (i % 2 == 0)) [
    | inl even ↦
        let next : i + 1 ≡ suc i = omega arith in
        rw even (parent_at (i / 2) i layer (ground arith) ea (rw (← next) (rw even at eb)))
    | inr odd ↦
        let next : i ≡ suc (i - 1) = ground arith in
        rw odd (parent_at (i / 2) (i - 1) layer (ground arith) (rw odd at eb) (rw (← next) ea))
  ]
