-- ===== src/Committee/Shuffle.antt =====
-- The swap-or-not shuffle is a permutation: each round undoes itself.
use trinity_eth.Base.{
  ℕ, ◌<◌, max, leb→gt, ◌==◌, ◌≡◌, ◌≢◌, refl, sym, ◌∙◌, subst, ap, Bool-cases, inl, inr,
  if◌then◌else◌, List, [], ◌∷◌, range, ok, ◌>>=◌, >>=-eq-ok, ok_injective, raise_if-eq-ok,
  fold_list, arith,
}
use native.Mathlib.Nat.{mod-lt, mod-eq_of_lt, mod-eq-sub-mod}
use trinity_eth.Types.{Hash32}
use trinity_eth.Extern.{Extern}
use trinity_eth.Committee.{flip_of, round_pivot, round_bit, shuffle_round, compute_shuffled_index}

-- For a pivot and an index below the count, the mirror image of the index about the pivot is below
-- the count, and its own mirror image is the index.
pub flip_of-flip_of :
    (n pivot i : ℕ)
    → pivot < n
    → i < n
    → (flip_of n pivot i < n) × (flip_of n pivot (flip_of n pivot i) ≡ i)
flip_of-flip_of n pivot i hp hi = grind (arith, mod-eq_of_lt, mod-eq-sub-mod)

module _ (ext : Extern) (n : ℕ) (seed : Hash32) where
  pub round_pivot-lt : (r : ℕ) {p : ℕ} → 0 < n → round_pivot ext n seed r ≡ ok p → p < n
  unfolding round_pivot
  round_pivot-lt r positive e =
      let (bytes, _, last) = >>=-eq-ok _ _ e in
      subst (λ p. p < n) (ok_injective last) (mod-lt _ positive)

  -- What a round does once its pivot and its bit are known.
  pub shuffle_round_lem :
      (r i pivot bit : ℕ)
      → round_pivot ext n seed r ≡ ok pivot
      → round_bit ext seed r (max i (flip_of n pivot i)) ≡ ok bit
      → shuffle_round ext n seed i r ≡ ok (if bit == 0 then i else flip_of n pivot i)
  unfolding shuffle_round ◌>>=◌
  shuffle_round_lem r i pivot bit ep eb = rw ep (rw eb refl)

  -- A round that leads from `i` to `j` stays below the count, and leads from `j` back to `i`.
  pub shuffle_round_undo :
      (r i j : ℕ)
      → i < n
      → shuffle_round ext n seed i r ≡ ok j
      → (j < n) × (shuffle_round ext n seed j r ≡ ok i)
  unfolding shuffle_round
  shuffle_round_undo r i j hi e =
      let (pivot, ep, rest) = >>=-eq-ok _ _ e in
      let (bit, eb, last) = >>=-eq-ok _ _ rest in
      let hp = round_pivot-lt r (omega arith) ep in
      let (below, back) = flip_of-flip_of n pivot i hp hi in
      go pivot bit ep eb below back (ok_injective last)
    where
      go :
          (pivot bit : ℕ)
          → round_pivot ext n seed r ≡ ok pivot
          → round_bit ext seed r (max i (flip_of n pivot i)) ≡ ok bit
          → flip_of n pivot i < n
          → flip_of n pivot (flip_of n pivot i) ≡ i
          → (if bit == 0 then i else flip_of n pivot i) ≡ j
          → (j < n) × (shuffle_round ext n seed j r ≡ ok i)
      go pivot bit ep eb below back last =
          let flip = flip_of n pivot i in
          let same : max flip (flip_of n pivot flip) ≡ max i flip = omega arith in
          let eb' : round_bit ext seed r (max flip (flip_of n pivot flip)) ≡ ok bit = rw same eb in
          subst (λ k. (k < n) × (shuffle_round ext n seed k r ≡ ok i)) last
            (elim (Bool-cases (bit == 0)) [
              | inl kept ↦ rw kept (hi, rw kept at (shuffle_round_lem r i pivot bit ep eb))
              | inr swapped ↦
                  rw swapped (
                    below,
                    (rw swapped at (shuffle_round_lem r flip pivot bit ep eb')) ∙ ap ok back,
                  )
            ])

  rounds_injective :
      (rounds : List ℕ) (i j k : ℕ)
      → i < n
      → j < n
      → fold_list rounds (shuffle_round ext n seed) i ≡ ok k
      → fold_list rounds (shuffle_round ext n seed) j ≡ ok k
      → i ≡ j
  unfolding fold_list
  rounds_injective [] i j k hi hj ei ej = ok_injective (ei ∙ sym ej)
  rounds_injective (r ∷ rounds) i j k hi hj ei ej =
      let (i', ri, si) = >>=-eq-ok _ _ ei in
      let (j', rj, sj) = >>=-eq-ok _ _ ej in
      let (hi', back_i) = shuffle_round_undo r i i' hi ri in
      let (hj', back_j) = shuffle_round_undo r j j' hj rj in
      let same = rounds_injective rounds i' j' k hi' hj' si sj in
      ok_injective (sym back_i ∙ ap (λ m. shuffle_round ext n seed m r) same ∙ back_j)

  rounds-lt :
      (rounds : List ℕ) (i : ℕ) {k : ℕ}
      → i < n
      → fold_list rounds (shuffle_round ext n seed) i ≡ ok k
      → k < n
  unfolding fold_list
  rounds-lt [] i hi e = subst (λ m. m < n) (ok_injective e) hi
  rounds-lt (r ∷ rounds) i hi e =
      let (i', ri, si) = >>=-eq-ok _ _ e in
      rounds-lt rounds i' (shuffle_round_undo r i i' hi ri).0 si

module _ (ext : Extern) (n : ℕ) (seed : Hash32) (rounds i : ℕ) {k : ℕ} where
  -- Where the shuffle of an index returns, the index and the result are below the count.
  pub compute_shuffled_index-lt :
      compute_shuffled_index ext i n seed rounds ≡ ok k → (i < n) × (k < n)
  unfolding compute_shuffled_index
  compute_shuffled_index-lt e =
      let (_, c1, e1) = >>=-eq-ok _ _ e in
      let (_, c2, e2) = >>=-eq-ok _ _ e1 in
      let hi = leb→gt _ _ (raise_if-eq-ok _ _ c1) in
      (hi, rounds-lt ext n seed (range 0 rounds) i hi e2)

  -- Two indices that differ, and whose shuffles return, are shuffled to places that differ.
  pub compute_shuffled_index_injective :
      (j m : ℕ)
      → compute_shuffled_index ext i n seed rounds ≡ ok k
      → compute_shuffled_index ext j n seed rounds ≡ ok m
      → i ≢ j
      → k ≢ m
  unfolding compute_shuffled_index
  compute_shuffled_index_injective j m ei ej differ same =
      let (_, ci, ei1) = >>=-eq-ok _ _ ei in
      let (_, _, ei2) = >>=-eq-ok _ _ ei1 in
      let (_, cj, ej1) = >>=-eq-ok _ _ ej in
      let (_, _, ej2) = >>=-eq-ok _ _ ej1 in
      differ (
        rounds_injective ext n seed (range 0 rounds) i j k (leb→gt _ _ (raise_if-eq-ok _ _ ci))
          (leb→gt _ _ (raise_if-eq-ok _ _ cj)) ei2 (ej2 ∙ ap ok (sym same)))
