-- ===== src/Attestations/Ascending.antt =====
-- The indices of an indexed attestation that is accepted.
use trinity_eth.Base.{
  unnegated, ℕ, ◌≤◌, ◌<◌, ◌≡◌, refl, sym, subst, leb, ◌==◌, false, Bool-cases, inl, inr, List, [],
  ◌∷◌, length, contains, distinct, sort, insert_sorted, same_bytes→eq, ok, raise_if-eq-ok,
  >>=-eq-ok, arith,
}
use trinity_eth.Types.{IndexedAttestation, BeaconState}
use trinity_eth.Extern.{Extern}
use trinity_eth.Attestations.{validate_indexed_attestation}

-- Every number of the list is above `k`.
abbrev pub AllAbove : ℕ → List ℕ → Type 0
AllAbove k [] = Unit
AllAbove k (x ∷ xs) = (k < x) × AllAbove k xs

-- Each number is below all those after it.
abbrev pub Ascending : List ℕ → Type 0
Ascending [] = Unit
Ascending (x ∷ xs) = AllAbove x xs × Ascending xs

AllAbove-le : (a b : ℕ) (xs : List ℕ) → a ≤ b → AllAbove b xs → AllAbove a xs
AllAbove-le a b [] h all = tt
AllAbove-le a b (x ∷ xs) h (first, all) = (omega arith, AllAbove-le a b xs h all)

AllAbove-insert_sorted :
    (k a : ℕ) (xs : List ℕ) → k < a → AllAbove k xs → AllAbove k (insert_sorted a xs)
AllAbove-insert_sorted k a [] h all = (h, tt)
AllAbove-insert_sorted k a (x ∷ xs) h (first, all) = elim (Bool-cases (leb a x)) [
  | inl before ↦ rw before (h, (first, all))
  | inr after ↦ rw after (first, AllAbove-insert_sorted k a xs h all)
]

Ascending-insert_sorted :
    (a : ℕ) (xs : List ℕ) → contains a xs ≡ false → Ascending xs → Ascending (insert_sorted a xs)
Ascending-insert_sorted a [] new all = (tt, tt)
Ascending-insert_sorted a (x ∷ xs) new (first, all) = elim (Bool-cases (leb a x)) [
  | inl before ↦
      let below : a < x = ground arith in
      rw before ((below, AllAbove-le a x xs (omega arith) first), (first, all))
  | inr after ↦
      let above : x < a = ground arith in
      let rest : contains a xs ≡ false = ground arith in
      rw after (AllAbove-insert_sorted x a xs above first, Ascending-insert_sorted a xs rest all)
]

contains-insert_sorted :
    (b a : ℕ) (xs : List ℕ)
    → (b == a) ≡ false
    → contains b xs ≡ false
    → contains b (insert_sorted a xs) ≡ false
contains-insert_sorted b a [] h k = ground arith
contains-insert_sorted b a (x ∷ xs) h k = elim (Bool-cases (leb a x)) [
  | inl before ↦ rw before (ground arith)
  | inr after ↦ rw after (ground (arith, contains-insert_sorted b a xs h (ground arith)))
]

contains-sort : (b : ℕ) (xs : List ℕ) → contains b xs ≡ false → contains b (sort xs) ≡ false
contains-sort b [] h = refl
contains-sort b (x ∷ xs) h =
    contains-insert_sorted b x (sort xs) (ground arith) (contains-sort b xs (ground arith))

contains-distinct : (b : ℕ) (xs : List ℕ) → contains b xs ≡ false → contains b (distinct xs) ≡ false
contains-distinct b [] h = refl
contains-distinct b (x ∷ xs) h = elim (Bool-cases (contains x xs)) [
  | inl again ↦ rw again (contains-distinct b xs (ground arith))
  | inr new ↦ rw new (ground (arith, contains-distinct b xs (ground arith)))
]

sort-Ascending : (xs : List ℕ) → Ascending (sort (distinct xs))
sort-Ascending [] = tt
sort-Ascending (x ∷ xs) = elim (Bool-cases (contains x xs)) [
  | inl again ↦ rw again (sort-Ascending xs)
  | inr new ↦ rw new (
      Ascending-insert_sorted x (sort (distinct xs))
        (contains-sort x (distinct xs) (contains-distinct x xs new)) (sort-Ascending xs))
]

-- An indexed attestation that is accepted names at least one validator, and its indices strictly
-- ascend, so that nobody is counted twice.
pub validate_indexed_attestation-Ascending :
    (ext : Extern) (s : BeaconState) (indexed : IndexedAttestation) (slots_per_epoch : ℕ)
    → validate_indexed_attestation ext s indexed slots_per_epoch ≡ ok tt
    → (0 < length indexed.attesting_indices) × Ascending indexed.attesting_indices
unfolding validate_indexed_attestation
validate_indexed_attestation-Ascending ext s indexed slots_per_epoch e0 =
    let (_, c1, e1) = >>=-eq-ok _ _ e0 in
    let (_, c2, _) = >>=-eq-ok _ _ e1 in
    let some_index = raise_if-eq-ok _ _ c1 in
    let ordered = raise_if-eq-ok _ _ c2 in
    let indices = indexed.attesting_indices in
    let same = same_bytes→eq indices (sort (distinct indices)) (unnegated _ ordered) in
    (ground (arith, some_index), subst Ascending (sym same) (sort-Ascending indices))
