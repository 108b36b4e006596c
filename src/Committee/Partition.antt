-- ===== src/Committee/Partition.antt =====
-- The committees of an epoch divide the active validators among them.
use trinity_eth.Base.{
  div_mono, ℕ, zero, suc, ◌+◌, ◌-◌, ◌*◌, ◌/◌, ◌≤◌, ◌<◌, ◌≡◌, ap, ◌∙◌, subst, List, length, range,
  range_split, concat, ok, >>=-eq-ok, ok_injective, for_each, for_each-append, arith,
}
use native.Mathlib.Nat.{mul-le-mul_left, mul-div_cancel, zero-div}
use trinity_eth.Types.{Hash32, ValidatorIndex}
use trinity_eth.Extern.{Extern}
use trinity_eth.Committee.{compute_committee, committee_members}

module _ (ext : Extern) (indices : List ValidatorIndex) (seed : Hash32) (rounds : ℕ) where
  -- The first position of committee `i` of `count`.
  abbrev start_of : ℕ → ℕ → ℕ
  start_of count i = length indices * i / count

  start_of_mono : (count i j : ℕ) → 0 < count → i ≤ j → start_of count i ≤ start_of count j
  start_of_mono count i j positive h = div_mono count positive (mul-le-mul_left _ h)

  -- The committees from `i` on, for `k` of them, are the members from the start of the first to
  -- the start of the next one after them.
  committees_concat :
      (count i k j : ℕ) {committees : List (List ValidatorIndex)}
      → 0 < count
      → i + k ≡ j
      → for_each (range i k) (λ c. compute_committee ext indices seed c count rounds)
        ≡ ok committees
      → committee_members ext indices seed rounds
          (range (start_of count i) (start_of count j - start_of count i))
        ≡ ok (concat committees)
  unfolding for_each compute_committee committee_members
  committees_concat count i zero j positive last e =
      let same : start_of count j ≡ start_of count i = ap (start_of count) (omega arith) in
      let none_left : start_of count j - start_of count i ≡ 0 = omega arith in
      rw none_left (ap (λ c. ok (concat c)) (ok_injective e))
  committees_concat count i (suc k) j positive last e =
      let (c, ec, rest) = >>=-eq-ok _ _ e in
      let (cs, ecs, done) = >>=-eq-ok _ _ rest in
      let next : suc i ≡ i + 1 = omega arith in
      let ih = committees_concat count (suc i) k j positive (omega arith) ecs in
      let ih' =
        subst
          (λ m.
            committee_members ext indices seed rounds
              (range (start_of count m) (start_of count j - start_of count m))
            ≡ ok (concat cs))
          next ih in
      let low = start_of_mono count i (i + 1) positive (omega arith) in
      let high = start_of_mono count (i + 1) j positive (omega arith) in
      rw (← range_split _ (start_of count (i + 1)) _ low high) (
        for_each-append _ _ _ c (concat cs) ec ih'
        ∙ ap (λ all. ok (concat all)) (ok_injective done))

-- The committees of an epoch, where a positive number of them is computed, are one after the other
-- the given indices in shuffled order.
pub compute_committee_partition :
    (ext : Extern) (indices : List ValidatorIndex) (seed : Hash32) (rounds count : ℕ)
    (committees : List (List ValidatorIndex))
    → 0 < count
    → for_each (range 0 count) (λ c. compute_committee ext indices seed c count rounds)
      ≡ ok committees
    → committee_members ext indices seed rounds (range 0 (length indices)) ≡ ok (concat committees)
compute_committee_partition ext indices seed rounds count committees positive e =
    let whole =
      committees_concat ext indices seed rounds count 0 count count positive (omega arith) e in
    let none_yet : length indices * 0 ≡ 0 = omega arith in
    let first : length indices * 0 / count ≡ 0 = rw none_yet (zero-div count) in
    let last : length indices * count / count ≡ length indices = mul-div_cancel _ positive in
    let size : length indices - 0 ≡ length indices = omega arith in rw (last, first, size) at whole
