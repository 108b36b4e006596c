-- ===== src/Tests/CommitteeRuns.antt =====
-- The shuffle, the committees and the proposer of a small set of validators.
use trinity_eth.Base.{
  ℕ, zero, suc, ◌<◌, ◌%◌, ◌≡◌, ◌≢◌, refl, sum, Result, ok, get_ok, List, [], ◌∷◌, range, concat,
  for_each, get_elem?, index-some, replicate, some, contains, true, arith,
}
use native.Mathlib.Nat.{mod-lt}
use trinity_eth.Types.{ValidatorIndex}
use trinity_eth.Committee.{
  compute_shuffled_index, compute_committee, committee_members, compute_proposer_index,
}
use trinity_eth.Committee.Shuffle.{compute_shuffled_index_injective}
use trinity_eth.Committee.Total.{compute_shuffled_index-ok, compute_shuffled_index_onto}
use trinity_eth.Committee.Partition.{compute_committee_partition}
use trinity_eth.Committee.Proposer.{
  CanPropose, compute_proposer_index_known, compute_proposer_index_ends,
}
use trinity_eth.Tests.Running.{run}
use trinity_eth.Tests.Fixtures.{ext, ext-HashesTo32, root_of, state}

abbrev shuffled : ℕ → Result ℕ
shuffled i = compute_shuffled_index ext i 7 (root_of 3) 5

abbrev place : ℕ → ℕ
place i = get_ok 0 (shuffled i)

shuffled_2 : shuffled 2 ≡ ok (place 2)
unfolding run
shuffled_2 = refl

shuffled_3 : shuffled 3 ≡ ok (place 3)
unfolding run
shuffled_3 = refl

compute_shuffled_index_injective_example : place 2 ≢ place 3
compute_shuffled_index_injective_example =
    compute_shuffled_index_injective ext 7 (root_of 3) 5 2 3 (place 3) shuffled_2 shuffled_3
      (omega arith)

compute_shuffled_index-ok_example : (k : ℕ) × (shuffled 2 ≡ ok k)
compute_shuffled_index-ok_example =
    compute_shuffled_index-ok ext 7 (root_of 3) 5 2 ext-HashesTo32 (omega arith) (omega arith)
      (omega arith)

compute_shuffled_index_onto_example : (i : ℕ) × (i < 7) × (shuffled i ≡ ok 4)
compute_shuffled_index_onto_example =
    compute_shuffled_index_onto ext 7 (root_of 3) 5 4 ext-HashesTo32 (omega arith) (omega arith)
      (omega arith)

abbrev members : List ValidatorIndex
members = 10 ∷ 11 ∷ 12 ∷ 13 ∷ 14 ∷ 15 ∷ 16 ∷ []

abbrev committees : List (List ValidatorIndex)
committees = get_ok [] (for_each (range 0 3) (λ c. compute_committee ext members (root_of 3) c 3 5))

committees_lem :
    for_each (range 0 3) (λ c. compute_committee ext members (root_of 3) c 3 5) ≡ ok committees
unfolding run
committees_lem = refl

compute_committee_partition_example :
    committee_members ext members (root_of 3) 5 (range 0 7) ≡ ok (concat committees)
compute_committee_partition_example =
    compute_committee_partition ext members (root_of 3) 5 3 committees (omega arith) committees_lem

abbrev candidates : List ValidatorIndex
candidates = 0 ∷ 1 ∷ 2 ∷ []

abbrev proposer : ValidatorIndex
proposer = get_ok 7 (compute_proposer_index ext state.validators candidates (root_of 3) 32 5)

proposer_lem : compute_proposer_index ext state.validators candidates (root_of 3) 32 5 ≡ ok proposer
unfolding run
proposer_lem = refl

compute_proposer_index_known_example : contains proposer candidates ≡ true
compute_proposer_index_known_example =
    compute_proposer_index_known ext state.validators candidates (root_of 3) 32 5 proposer
      proposer_lem

get_elem?-replicate : (n x i : ℕ) {y : ℕ} → get_elem? (replicate n x) i ≡ some y → x ≡ y
get_elem?-replicate zero x i e = cc
get_elem?-replicate (suc n) x zero e = cc
get_elem?-replicate (suc n) x (suc i) e = get_elem?-replicate n x i e

candidates-lt : (i v : ℕ) → get_elem? candidates i ≡ some v → v < 3
candidates-lt zero v e = ground arith
candidates-lt (suc zero) v e = ground arith
candidates-lt (suc (suc zero)) v e = ground arith
candidates-lt (suc (suc (suc i))) v e = cc

small-CanPropose : CanPropose ext state.validators candidates 5
small-CanPropose = record {
  digests = ext-HashesTo32;
  bytes = λ message i e.
      let same =
        get_elem?-replicate 32 (sum message % 256) i (index-some (ext.sha256 message) i e) in
      let bounded : sum message % 256 < 256 = mod-lt (sum message) (omega arith) in omega arith;
  few_rounds = omega arith;
  few_candidates = omega arith;
  known = candidates-lt;
}

compute_proposer_index_ends_example :
    (w : ValidatorIndex) × (compute_proposer_index ext state.validators candidates (root_of 3) 32 5
      ≡ ok w)
compute_proposer_index_ends_example =
    compute_proposer_index_ends ext state.validators candidates (root_of 3) 32 5 small-CanPropose 1
      1 _ (omega arith) refl refl (omega arith)
