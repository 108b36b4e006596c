-- ===== src/Committee/Proposer.antt =====
-- The proposer's `while True` loop: whom it returns, and when it ends.
use trinity_eth.Base.{
  ℕ, zero, suc, ◌+◌, ◌≤◌, ◌<◌, ◌/◌, ◌%◌, le→leb, ne→==, ◌≡◌, refl, ap, subst, ◌≢◌, lt_of_get_elem?,
  Bool, true, if-eq-ok, Bool-cases, inl, inr, List, ◌++◌, length, get_elem?, contains,
  contains-get_elem?, ok, index, index-some, ◌>>=◌, >>=-eq-ok, ok_injective, arith, some,
}
use native.Mathlib.Nat.{mul-le-mul, mod-eq_of_lt}
use trinity_eth.Types.{Hash32, Gwei, ValidatorIndex, Validator, max_index_count}
use trinity_eth.Extern.{Extern, HashesTo32}
use trinity_eth.Utils.Bytes.{little_endian, to_bytes_lem}
use trinity_eth.Committee.{
  compute_shuffled_index, proposer_candidate, proposer_loop, compute_proposer_index,
}
use trinity_eth.Committee.Shuffle.{compute_shuffled_index-lt}
use trinity_eth.Committee.Total.{index-ok, compute_shuffled_index-ok, compute_shuffled_index_onto}

module _ (ext : Extern) (validators : List Validator) (indices : List ValidatorIndex)
    (seed : Hash32) (max_balance : Gwei) (rounds : ℕ) where
  candidate_known :
      (i : ℕ) {candidate : ValidatorIndex × Bool}
      → proposer_candidate ext validators indices seed max_balance rounds i ≡ ok candidate
      → contains candidate.0 indices ≡ true
  unfolding proposer_candidate
  candidate_known i e0 =
      let (shuffled, _, e1) = >>=-eq-ok _ _ e0 in
      let (member, found, e2) = >>=-eq-ok _ _ e1 in
      let (_, _, e3) = >>=-eq-ok _ _ e2 in
      let (_, _, e4) = >>=-eq-ok _ _ e3 in
      let (_, _, e5) = >>=-eq-ok _ _ e4 in
      let known = contains-get_elem? indices shuffled member (index-some indices shuffled found) in
      subst (λ v. contains v indices ≡ true) (ap (λ r. r.0) (ok_injective e5)) known

  loop_known :
      (fuel i : ℕ) {v : ValidatorIndex}
      → proposer_loop ext fuel validators indices seed max_balance rounds i ≡ ok v
      → contains v indices ≡ true
  unfolding proposer_loop
  loop_known zero i e = cc
  loop_known (suc fuel) i e =
      let (candidate, found, rest) = >>=-eq-ok _ _ e in
      elim (if-eq-ok candidate.1 (ok candidate.0) _ rest) [
        | inl (_, chosen) ↦
            subst (λ v. contains v indices ≡ true) (ok_injective chosen) (candidate_known i found)
        | inr (_, later) ↦ loop_known fuel (i + 1) later
      ]

  -- Whoever is returned as the proposer is one of the candidates.
  pub compute_proposer_index_known :
      (v : ValidatorIndex)
      → compute_proposer_index ext validators indices seed max_balance rounds ≡ ok v
      → contains v indices ≡ true
  unfolding compute_proposer_index
  compute_proposer_index_known v e =
      let (_, _, e1) = >>=-eq-ok _ _ e in loop_known ext.proposer_rounds 0 e1

-- What the search for a proposer relies on: at most 256 shuffle rounds, at most 2^40 candidates,
-- all of them validators, and digests of 32 bytes, each below 256.
pub record CanPropose (ext : Extern) (validators : List Validator) (indices : List ValidatorIndex)
    (rounds : ℕ) : Type 0 where
  pub digests : HashesTo32 ext
  pub bytes :
      (message : List ℕ) (i : ℕ) {byte : ℕ} → index (ext.sha256 message) i ≡ ok byte → byte ≤ 255
  pub few_rounds : rounds ≤ 256
  pub few_candidates : length indices ≤ max_index_count
  pub known : (i v : ℕ) → get_elem? indices i ≡ some v → v < length validators

module _ (ext : Extern) (validators : List Validator) (indices : List ValidatorIndex)
    (seed : Hash32) (max_balance : Gwei) (rounds : ℕ)
    (h : CanPropose ext validators indices rounds) where
  -- A round whose shuffled index is `shuffled` takes the validator there if it has the balance.
  candidate_taken :
      (i shuffled member : ℕ) (v : Validator)
      → i < length indices
      → compute_shuffled_index ext i (length indices) seed rounds ≡ ok shuffled
      → index indices shuffled ≡ ok member
      → index validators member ≡ ok v
      → (taken : Bool) × (proposer_candidate ext validators indices seed max_balance rounds i
          ≡ ok (member, taken))
        × (max_balance ≤ v.effective_balance → taken ≡ true)
  unfolding proposer_candidate ◌>>=◌
  candidate_taken i shuffled member v hi es em ev =
      let wrapped : i % length indices ≡ i = mod-eq_of_lt hi in
      let small = h.few_candidates in
      let digest = ext.sha256 (seed ++ little_endian (i / 32) 8) in
      let in_digest : i % 32 < length digest = rw (h.digests _) (omega arith) in
      let (byte, eb) = index-ok digest (i % 32) in_digest in
      let bounded = h.bytes _ _ eb in
      rw wrapped (
        rw es (
          rw em (
            rw (to_bytes_lem (i / 32) 8 (omega arith))
              (rw eb (rw ev (_, refl, λ rich. le→leb _ _ (mul-le-mul rich bounded)))))))

  candidate_total :
      (i : ℕ)
      → i < length indices
      → (c : ValidatorIndex × Bool) × (proposer_candidate ext validators indices seed max_balance
            rounds i
          ≡ ok c)
  candidate_total i hi =
      let (shuffled, es) =
        compute_shuffled_index-ok ext (length indices) seed rounds i h.digests h.few_rounds
          h.few_candidates hi in
      let (_, below) = compute_shuffled_index-lt ext (length indices) seed rounds i es in
      let (member, em) = index-ok indices shuffled below in
      let (v, ev) =
        index-ok validators member (h.known shuffled member (index-some indices _ em)) in
      let (taken, e, _) = candidate_taken i shuffled member v hi es em ev in ((member, taken), e)

  loop_ends :
      (fuel i j : ℕ) (member : ValidatorIndex)
      → i ≤ j
      → j < i + fuel
      → j < length indices
      → proposer_candidate ext validators indices seed max_balance rounds j ≡ ok (member, true)
      → (w : ValidatorIndex) × (proposer_loop ext fuel validators indices seed max_balance rounds i
          ≡ ok w)
  unfolding proposer_loop ◌>>=◌
  loop_ends zero i j member low high inside e = absurd (omega arith)
  loop_ends (suc fuel) i j member low high inside e =
      let (c, ec) = candidate_total i (omega arith) in
      elim (Bool-cases c.1) [
        | inl taken ↦ rw ec (rw taken (c.0, refl))
        | inr passed ↦
            let later : i ≢ j = λ same. cc (
              passed,
              ap (λ k. proposer_candidate ext validators indices seed max_balance rounds k) same,
              ec,
              e,
            ) in
            let (w, ew) = loop_ends fuel (i + 1) j member (omega arith) (omega arith) inside e in
            rw ec (rw passed (w, ew))
      ]

  -- Within the bounds of `CanPropose`, where the rounds that are given are no fewer than the
  -- candidates, and one of these has the full effective balance, the search returns a proposer.
  pub compute_proposer_index_ends :
      (k member : ℕ) (v : Validator)
      → length indices ≤ ext.proposer_rounds
      → index indices k ≡ ok member
      → index validators member ≡ ok v
      → max_balance ≤ v.effective_balance
      → (w : ValidatorIndex) × (compute_proposer_index ext validators indices seed max_balance
            rounds
          ≡ ok w)
  unfolding compute_proposer_index ◌>>=◌
  compute_proposer_index_ends k member v enough em ev rich =
      let inside = lt_of_get_elem? indices k (index-some indices k em) in
      let (j, hj, es) =
        compute_shuffled_index_onto ext (length indices) seed rounds k h.digests h.few_rounds
          h.few_candidates inside in
      let (taken, ec, accept) = candidate_taken j k member v hj es em ev in
      let chosen : proposer_candidate ext validators indices seed max_balance rounds j
          ≡ ok (member, true) =
        rw (accept rich) at ec in
      let (w, ew) =
        loop_ends ext.proposer_rounds 0 j member (omega arith) (omega arith) hj chosen in
      rw (ne→== (length indices) 0 (omega arith)) (w, ew)
