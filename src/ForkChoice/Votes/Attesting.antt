-- ===== src/ForkChoice/Votes/Attesting.antt =====
-- `process_attestation`: which vote changes, and that the votes counted so far stay counted.
use trinity_eth.Base.{
  ltb, leb, ◌==◌, if◌then◌else◌, leb→le, leb→gt, lt→ltb, ==→eq, Bool-cases, length, replicate,
  length-append, length-replicate, get_elem?-set, ◌+ℤ◌, ℤ, Dict, ℕ, zero, suc, ◌+◌, ◌-◌, ◌<◌, ◌≡◌,
  refl, sym, ap, ◌∙◌, ◌≢◌, inl, inr, some, List, [], ◌∷◌, ◌++◌, arith, pos,
}
use mathlib.Core.Path.{ap₂}
use trinity_eth.Types.{Root, Gwei, Epoch, ValidatorIndex, zero_hash32}
use trinity_eth.ForkChoice.ProtoArray.Sums.{share, share_elsewhere, +ℤ_zero}
use trinity_eth.ForkChoice.ProtoArray.Weights.{children_weight}
use trinity_eth.ForkChoice.Votes.Counted.{Counted}
use trinity_eth.ForkChoice.Votes.{
  VoteTracker, no_vote, ProtoArrayForkChoice, extend_votes, vote_at, newer_vote,
  process_attestation,
}
use trinity_eth.ForkChoice.Votes.Deltas.{listed_balance, place, vote_sum}

-- The roots that the votes are counted for.
abbrev pub counted_root : List VoteTracker → ValidatorIndex → Root
counted_root votes k = (vote_at votes k).current_root

module _ (indices : Dict ℕ) (offset i : ℕ) (other : place indices offset zero_hash32 ≢ some i) where
  nothing_given :
      (root : Root) (b : Gwei) (z : ℤ)
      → root ≡ zero_hash32
      → z ≡ pos 0
      → share (place indices offset root) i (pos b) +ℤ z ≡ pos 0
  nothing_given root b z zero_root zero_rest =
      rw (zero_root, zero_rest)
        (+ℤ_zero _ ∙ share_elsewhere (place indices offset zero_hash32) i (pos b) other)

  vote_sum-same_roots :
      (balances : List Gwei) (k : ℕ) (votes votes' : List VoteTracker)
      → ((n : ℕ) → counted_root votes' n ≡ counted_root votes n)
      → vote_sum indices offset balances k votes' i ≡ vote_sum indices offset balances k votes i
  vote_sum-same_roots balances k [] [] same = refl
  vote_sum-same_roots balances k [] (v ∷ votes') same =
      nothing_given v.current_root _ _ (same 0)
        (vote_sum-same_roots balances (k + 1) [] votes' (λ n. same (suc n)))
  vote_sum-same_roots balances k (v ∷ votes) [] same = sym (
      nothing_given v.current_root _ _ (sym (same 0))
        (sym (vote_sum-same_roots balances (k + 1) votes [] (λ n. same (suc n)))))
  vote_sum-same_roots balances k (v ∷ votes) (v' ∷ votes') same =
      ap₂ ◌+ℤ◌
        (ap (λ r. share (place indices offset r) i (pos (listed_balance balances k))) (same 0))
        (vote_sum-same_roots balances (k + 1) votes votes' (λ n. same (suc n)))

-- The vote of a validator after an attestation: its own may be newer, another's is as before.
abbrev pub voted : List VoteTracker → ValidatorIndex → Root → Epoch → ValidatorIndex → VoteTracker
voted votes validator_index block_root target_epoch k =
    if validator_index == k
    then newer_vote (vote_at votes validator_index) block_root target_epoch
    else vote_at votes k

pub vote_at-replicate : (n k : ℕ) → vote_at (replicate n no_vote) k ≡ no_vote
vote_at-replicate zero k = refl
vote_at-replicate (suc n) zero = refl
vote_at-replicate (suc n) (suc k) = vote_at-replicate n k

pub vote_at-append :
    (votes : List VoteTracker) (n k : ℕ)
    → vote_at (votes ++ replicate n no_vote) k ≡ vote_at votes k
vote_at-append [] n k = vote_at-replicate n k
vote_at-append (v ∷ votes) n zero = refl
vote_at-append (v ∷ votes) n (suc k) = vote_at-append votes n k

pub vote_at-extend_votes :
    (votes : List VoteTracker) (v k : ValidatorIndex)
    → vote_at (extend_votes votes v) k ≡ vote_at votes k
vote_at-extend_votes votes v k = elim (Bool-cases (leb (length votes) v)) [
  | inl e ↦ rw e (vote_at-append votes (v - length votes + 1) k)
  | inr e ↦ rw e refl
]

pub length-extend_votes :
    (votes : List VoteTracker) (v : ValidatorIndex) → v < length (extend_votes votes v)
length-extend_votes votes v = elim (Bool-cases (leb (length votes) v)) [
  | inl e ↦
      let past = leb→le _ _ e in
      let long = length-replicate (v - length votes + 1) no_vote in
      rw e (omega (arith, length-append votes (replicate (v - length votes + 1) no_vote)))
  | inr e ↦ rw e (leb→gt _ _ e)
]

pub vote_at-process_attestation :
    (f : ProtoArrayForkChoice) (v : ValidatorIndex) (block_root : Root) (target_epoch : Epoch)
    (k : ValidatorIndex)
    → vote_at (process_attestation f v block_root target_epoch).votes k
      ≡ voted f.votes v block_root target_epoch k
unfolding process_attestation
vote_at-process_attestation f v block_root target_epoch k =
    let votes = extend_votes f.votes v in
    let vote = newer_vote (vote_at votes v) block_root target_epoch in
    let there = lt→ltb v (length votes) (length-extend_votes f.votes v) in
    elim (Bool-cases (v == k)) [
      | inl e ↦
          rw (get_elem?-set votes v k vote, e, there)
            (ap (λ x. newer_vote x block_root target_epoch) (vote_at-extend_votes f.votes v v))
      | inr e ↦ rw (get_elem?-set votes v k vote, e) (vote_at-extend_votes f.votes v k)
    ]

pub newer_vote_counted :
    (vote : VoteTracker) (block_root : Root) (target_epoch : Epoch)
    → (newer_vote vote block_root target_epoch).current_root ≡ vote.current_root
newer_vote_counted vote block_root target_epoch =
    elim (Bool-cases (ltb vote.next_epoch target_epoch)) [ inl e ↦ rw e refl | inr e ↦ rw e refl ]

pub counted_root-process_attestation :
    (f : ProtoArrayForkChoice) (v : ValidatorIndex) (block_root : Root) (target_epoch : Epoch)
    (k : ValidatorIndex)
    → counted_root (process_attestation f v block_root target_epoch).votes k
      ≡ counted_root f.votes k
counted_root-process_attestation f v block_root target_epoch k =
    ap (λ x. x.current_root) (vote_at-process_attestation f v block_root target_epoch k)
    ∙ elim (Bool-cases (v == k)) [
      | inl e ↦ rw e (
          newer_vote_counted (vote_at f.votes v) block_root target_epoch
          ∙ ap (counted_root f.votes) (==→eq v k e))
      | inr e ↦ rw e refl
    ]

pub process_attestation-Counted :
    (f : ProtoArrayForkChoice) (v : ValidatorIndex) (block_root : Root) (target_epoch : Epoch)
    → Counted f
    → Counted (process_attestation f v block_root target_epoch)
unfolding process_attestation
process_attestation-Counted f v block_root target_epoch counted = record {
  well_linked = counted.well_linked;
  sums = λ i (below, other).
      counted.sums i (below, other)
      ∙ ap (λ z. z +ℤ children_weight f.proto_array i)
          (sym (
            vote_sum-same_roots _ _ i other f.balances 0 f.votes _
              (counted_root-process_attestation f v block_root target_epoch)));
}
