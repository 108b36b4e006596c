-- ===== src/Committee/Total.antt =====
-- The shuffle raises nothing, and reaches every index: with the source's bounds on the rounds and
-- on the count, and digests of 32 bytes.
use trinity_eth.Base.{
  ℕ, zero, suc, ◌+◌, ◌≤◌, ◌<◌, ◌/◌, ◌%◌, max, ◌≡◌, refl, ap, ◌∙◌, List, [], ◌∷◌, ◌++◌, range,
  length, get_elem?-some, gt→leb, ge→ltb, ok, index, or_raise, index_error, ◌>>=◌, fold_list, arith,
}
use trinity_eth.Types.{Hash32, max_index_count}
use trinity_eth.Extern.{Extern, HashesTo32}
use trinity_eth.Utils.Bytes.{little_endian, to_bytes_lem}
use trinity_eth.Committee.{flip_of, round_pivot, round_bit, shuffle_round, compute_shuffled_index}
use trinity_eth.Committee.Shuffle.{
  flip_of-flip_of, round_pivot-lt, shuffle_round_lem, shuffle_round_undo,
}

pub index-ok {ℓ} :
    {A : Type ℓ} (xs : List A) (i : ℕ) → i < length xs → (a : A) × (index xs i ≡ ok a)
index-ok xs i h = let (a, e) = get_elem?-some xs i h in (a, ap (λ o. or_raise o index_error) e)

-- Every index of a list, each below `k`.
abbrev AllBelow : ℕ → List ℕ → Type 0
AllBelow k [] = Unit
AllBelow k (x ∷ xs) = (x < k) × AllBelow k xs

AllBelow-range : (k start n : ℕ) → start + n ≤ k → AllBelow k (range start n)
AllBelow-range k start zero h = tt
AllBelow-range k start (suc n) h = (omega arith, AllBelow-range k (suc start) n (omega arith))

module _ (ext : Extern) (hashes : HashesTo32 ext) (n : ℕ) (seed : Hash32) where
  round_pivot-ok : (r : ℕ) → r < 256 → (p : ℕ) × (round_pivot ext n seed r ≡ ok p)
  unfolding round_pivot ◌>>=◌
  round_pivot-ok r h = rw (to_bytes_lem r 1 (omega arith)) (_, refl)

  round_bit-ok :
      (r position : ℕ)
      → r < 256
      → position < max_index_count
      → (b : ℕ) × (round_bit ext seed r position ≡ ok b)
  unfolding round_bit ◌>>=◌
  round_bit-ok r position hr hp =
      let digest = ext.sha256 (seed ++ little_endian r 1 ++ little_endian (position / 256) 4) in
      let in_digest : position % 256 / 8 < length digest = rw (hashes _) (omega arith) in
      let (byte, e) = index-ok digest (position % 256 / 8) in_digest in
      rw (to_bytes_lem r 1 (omega arith))
        (rw (to_bytes_lem (position / 256) 4 (omega arith)) (rw e (_, refl)))

  shuffle_round-ok :
      (r i : ℕ)
      → r < 256
      → n ≤ max_index_count
      → i < n
      → (j : ℕ) × (shuffle_round ext n seed i r ≡ ok j)
  shuffle_round-ok r i hr hn hi =
      let (pivot, ep) = round_pivot-ok r hr in
      let hp = round_pivot-lt ext n seed r (omega arith) ep in
      let (below, _) = flip_of-flip_of n pivot i hp hi in
      let (bit, eb) = round_bit-ok r (max i (flip_of n pivot i)) hr (omega arith) in
      (_, shuffle_round_lem ext n seed r i pivot bit ep eb)

  rounds-ok :
      (rounds : List ℕ) (i : ℕ)
      → AllBelow 256 rounds
      → n ≤ max_index_count
      → i < n
      → (j : ℕ) × (fold_list rounds (shuffle_round ext n seed) i ≡ ok j)
  unfolding fold_list ◌>>=◌
  rounds-ok [] i hr hn hi = (i, refl)
  rounds-ok (r ∷ rounds) i (hr, hrs) hn hi =
      let (j, e) = shuffle_round-ok r i hr hn hi in
      let (k, e') = rounds-ok rounds j hrs hn (shuffle_round_undo ext n seed r i j hi e).0 in
      (k, rw e e')

  rounds_onto :
      (rounds : List ℕ) (k : ℕ)
      → AllBelow 256 rounds
      → n ≤ max_index_count
      → k < n
      → (i : ℕ) × (i < n) × (fold_list rounds (shuffle_round ext n seed) i ≡ ok k)
  unfolding fold_list ◌>>=◌
  rounds_onto [] k hr hn hk = (k, hk, refl)
  rounds_onto (r ∷ rounds) k (hr, hrs) hn hk =
      let (j, hj, e) = rounds_onto rounds k hrs hn hk in
      let (i, e') = shuffle_round-ok r j hr hn hj in
      let (hi, back) = shuffle_round_undo ext n seed r j i hj e' in (i, hi, rw back e)

module _ (ext : Extern) (n : ℕ) (seed : Hash32) (rounds i : ℕ) (hashes : HashesTo32 ext)
    (few : rounds ≤ 256) (small : n ≤ max_index_count) (inside : i < n) where
  unguarded :
      compute_shuffled_index ext i n seed rounds
      ≡ fold_list (range 0 rounds) (shuffle_round ext n seed) i
  unfolding compute_shuffled_index ◌>>=◌
  unguarded = rw (gt→leb n i inside) (rw (ge→ltb max_index_count n small) refl)

  -- With at most 256 rounds, at most 2^40 indices and 32-byte digests, the shuffle of an index
  -- below the count raises nothing.
  pub compute_shuffled_index-ok : (k : ℕ) × (compute_shuffled_index ext i n seed rounds ≡ ok k)
  compute_shuffled_index-ok = rw unguarded (
      rounds-ok ext hashes n seed (range 0 rounds) i (AllBelow-range 256 0 rounds (omega arith))
        small inside)

-- With at most 256 rounds, at most 2^40 indices and 32-byte digests, every index below the count is
-- the shuffled image of an index below it.
pub compute_shuffled_index_onto :
    (ext : Extern) (n : ℕ) (seed : Hash32) (rounds k : ℕ)
    → HashesTo32 ext
    → rounds ≤ 256
    → n ≤ max_index_count
    → k < n
    → (i : ℕ) × (i < n) × (compute_shuffled_index ext i n seed rounds ≡ ok k)
compute_shuffled_index_onto ext n seed rounds k hashes few small inside =
    let bounds = AllBelow-range 256 0 rounds (omega arith) in
    let (i, hi, e) = rounds_onto ext hashes n seed (range 0 rounds) k bounds small inside in
    (i, hi, unguarded ext n seed rounds i hashes few small hi ∙ e)
