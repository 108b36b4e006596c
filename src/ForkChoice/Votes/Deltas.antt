-- ===== src/ForkChoice/Votes/Deltas.antt =====
-- `_compute_deltas`: the deltas move each balance from the vote it was counted for to the latest
-- vote. The default root is set apart: the code skips the votes that name nothing but it.
use trinity_eth.ForkChoice.Votes.Changes.{
  changed_at, changed_at-share, changed_at_back, delta_at-changed_at, +ℤ_swap, zero_+ℤ,
  delta_at-replicate, neither, idle_roots, settle, move_twice,
}
use trinity_eth.Base.{
  zero, suc, ◌==◌, ==→eq, Bool-cases, le→leb, length, set, replicate, length-set, length-replicate,
  same_bytes, same_bytes→eq, ◌+ℤ◌, ◌-ℤ◌, ℤ, Dict, dict_get, index-ok, update_at-ok, ◌>>=◌, ℕ, ◌+◌,
  ◌-◌, ◌≤◌, ◌<◌, ◌≡◌, refl, sym, ap, ◌∙◌, ◌≢◌, inl, inr, true, false, not, ◌||◌, Option, none, some,
  List, [], ◌∷◌, map, arith, ok, pos,
}
use mathlib.Core.Path.{ap₂}
use trinity_eth.Types.{ValidatorIndex, Root, Gwei, zero_hash32}
use trinity_eth.ForkChoice.ProtoArray.Sums.{share_elsewhere, share}
use trinity_eth.ForkChoice.ProtoArray.Reads.{delta_at, position_of}
use trinity_eth.ForkChoice.Votes.{
  VoteTracker, balance_at, add_at, is_idle, vote_delta, delta_loop, compute_deltas,
}

-- The indices of a dictionary lie in an array of some length.
abbrev pub InArray : Dict ℕ → ℕ → ℕ → Type 0
InArray indices offset count =
    (root : Root) (i : ℕ) → dict_get root indices ≡ some i → (offset ≤ i) × (i < offset + count)

-- The balance of a validator in a list of balances, and 0 beyond its end.
abbrev pub listed_balance : List Gwei → ValidatorIndex → Gwei
listed_balance [] k = 0
listed_balance (b ∷ balances) zero = b
listed_balance (b ∷ balances) (suc k) = listed_balance balances k

balance_at-listed_balance :
    (balances : List Gwei) (k : ValidatorIndex) → balance_at balances k ≡ listed_balance balances k
balance_at-listed_balance [] k = refl
balance_at-listed_balance (b ∷ balances) zero = refl
balance_at-listed_balance (b ∷ balances) (suc k) = balance_at-listed_balance balances k

module _ (indices : Dict ℕ) (offset : ℕ) where
  -- The position in the array of the node with a root.
  abbrev pub place : Root → Option ℕ
  place root = position_of offset (dict_get root indices)

  -- What the votes from the validator `k` on give to the node at a position, by the roots that they
  -- are counted for.
  abbrev pub vote_sum : List Gwei → ℕ → List VoteTracker → ℕ → ℤ
  vote_sum balances k [] i = pos 0
  vote_sum balances k (vote ∷ votes) i =
      share (place vote.current_root) i (pos (listed_balance balances k))
      +ℤ vote_sum balances (k + 1) votes i

  -- A change at the position of a root that is known, or at none, returns.
  add_at-ok :
      (o : Option ℕ) (change : ℤ → ℤ) (deltas : List ℤ)
      → ((q : ℕ) → o ≡ some q → (offset ≤ q) × (q < offset + length deltas))
      → (deltas' : List ℤ) × (add_at o offset change deltas ≡ ok deltas')
        × (length deltas' ≡ length deltas)
        × ((i : ℕ)
            → delta_at deltas' i ≡ changed_at (position_of offset o) i change (delta_at deltas i))
  unfolding add_at
  add_at-ok none change deltas inside = (deltas, refl, refl, λ i. refl)
  add_at-ok (some q) change deltas inside =
      let (low, high) = inside q refl in
      let low' = le→leb offset q low in
      let (d, found, at) = index-ok deltas (q - offset) (omega arith) in
      (
        set deltas (q - offset) (change d),
        rw low' (update_at-ok deltas (q - offset) change at),
        length-set deltas (q - offset) (change d),
        λ i. rw low' (delta_at-changed_at deltas (q - offset) i change d at),
      )

  -- What a round for one vote leaves.
  record Moved (old_balance new_balance : Gwei) (vote : VoteTracker) (deltas : List ℤ)
      (deltas' : List ℤ) (vote' : VoteTracker) : Type 0 where
    pub length_deltas : length deltas' ≡ length deltas
    pub vote_settled : vote' ≡ settle vote
    pub balance :
        (i : ℕ)
        → place zero_hash32 ≢ some i
        → delta_at deltas' i +ℤ share (place vote.current_root) i (pos old_balance)
          ≡ delta_at deltas i +ℤ share (place vote.next_root) i (pos new_balance)

  idle-Moved :
      (old_balance new_balance : Gwei) (vote : VoteTracker) (deltas : List ℤ)
      → is_idle vote ≡ true
      → Moved old_balance new_balance vote deltas deltas vote
  idle-Moved old_balance new_balance vote deltas idle =
      let (current, next) = idle_roots vote idle in
      record {
        length_deltas = refl;
        vote_settled = ap (λ r. record vote { current_root = r }) (current ∙ sym next);
        balance = λ i other.
            rw (current, next)
              (ap (λ x. delta_at deltas i +ℤ x)
                (share_elsewhere (place zero_hash32) i (pos old_balance) other
                  ∙ sym (share_elsewhere (place zero_hash32) i (pos new_balance) other)));
      }

  settled-Moved :
      (old_balance new_balance : Gwei) (vote : VoteTracker) (deltas : List ℤ)
      → (not (same_bytes vote.current_root vote.next_root) || not (old_balance == new_balance))
        ≡ false
      → Moved old_balance new_balance vote deltas deltas vote
  settled-Moved old_balance new_balance vote deltas settled =
      let (root, balance) = neither (same_bytes vote.current_root vote.next_root) _ settled in
      let same_root = same_bytes→eq vote.current_root vote.next_root root in
      let same_balance = ==→eq old_balance new_balance balance in
      record {
        length_deltas = refl;
        vote_settled = ap (λ r. record vote { current_root = r }) same_root;
        balance = λ i other. rw (same_root, same_balance) refl;
      }

  vote_delta-ok :
      (old_balance new_balance : Gwei) (vote : VoteTracker) (deltas : List ℤ)
      → InArray indices offset (length deltas)
      → (deltas' : List ℤ) × (vote' : VoteTracker) × Moved old_balance new_balance vote deltas
          deltas' vote'
        × (vote_delta indices offset old_balance new_balance vote deltas ≡ ok (deltas', vote'))
  unfolding vote_delta ◌>>=◌
  vote_delta-ok old_balance new_balance vote deltas inside = elim (Bool-cases (is_idle vote)) [
    | inl idle ↦ (deltas, vote, idle-Moved old_balance new_balance vote deltas idle, rw idle refl)
    | inr active ↦
        elim (Bool-cases
          (not (same_bytes vote.current_root vote.next_root) || not (old_balance == new_balance))) [
            | inr same ↦ (
              deltas,
              vote,
              settled-Moved old_balance new_balance vote deltas same,
              rw (active, same) refl,
            )
            | inl differs ↦
                let (taken, first, length_taken, taken_at) =
                  add_at-ok (dict_get vote.current_root indices) (λ d. d -ℤ pos old_balance) deltas
                    (inside vote.current_root) in
                let (given, second, length_given, given_at) =
                  add_at-ok (dict_get vote.next_root indices) (λ d. d +ℤ pos new_balance) taken
                    (λ q e. rw length_taken (inside vote.next_root q e)) in
                (
                  given,
                  record vote { current_root = vote.next_root },
                  record {
                    length_deltas = length_given ∙ length_taken;
                    vote_settled = refl;
                    balance = λ i other.
                        ap (λ d. d +ℤ share (place vote.current_root) i (pos old_balance))
                          (given_at i
                            ∙ changed_at-share (place vote.next_root) i (pos new_balance)
                                (delta_at taken i))
                        ∙ +ℤ_swap (delta_at taken i) _ _
                        ∙ ap (λ d. d +ℤ share (place vote.next_root) i (pos new_balance))
                            (ap (λ d. d +ℤ share (place vote.current_root) i (pos old_balance))
                                (taken_at i)
                              ∙ changed_at_back (place vote.current_root) i (pos old_balance)
                                  (delta_at deltas i));
                  },
                  rw (active, differs, first, second) refl,
                )
          ]
  ]

  -- Every vote is counted for the root that it names, with nothing else changed.
  abbrev pub settled : List VoteTracker → List VoteTracker
  settled votes = map settle votes

  -- What the rounds for the votes from the validator `k` on leave.
  record AllMoved (old_balances new_balances : List Gwei) (k : ℕ) (votes : List VoteTracker)
      (deltas : List ℤ) (deltas' : List ℤ) (votes' : List VoteTracker) : Type 0 where
    pub length_deltas : length deltas' ≡ length deltas
    pub votes_settled : votes' ≡ settled votes
    pub balance :
        (i : ℕ)
        → place zero_hash32 ≢ some i
        → delta_at deltas' i +ℤ vote_sum old_balances k votes i
          ≡ delta_at deltas i +ℤ vote_sum new_balances k votes' i

  delta_loop-ok :
      (old_balances new_balances : List Gwei) (k : ℕ) (votes : List VoteTracker) (deltas : List ℤ)
      → InArray indices offset (length deltas)
      → (deltas' : List ℤ) × (votes' : List VoteTracker) × AllMoved old_balances new_balances k
          votes deltas deltas' votes'
        × (delta_loop indices offset old_balances new_balances k votes deltas
            ≡ ok (deltas', votes'))
  unfolding delta_loop ◌>>=◌
  delta_loop-ok old_balances new_balances k [] deltas inside = (
    deltas,
    [],
    record { length_deltas = refl; votes_settled = refl; balance = λ i other. refl },
    refl,
  )
  delta_loop-ok old_balances new_balances k (vote ∷ votes) deltas inside =
      let (moved, vote', here, first) =
        vote_delta-ok (listed_balance old_balances k) (listed_balance new_balances k) vote deltas
          inside in
      let (deltas', votes', after, rest) =
        delta_loop-ok old_balances new_balances (k + 1) votes moved
          (λ root q e. rw here.length_deltas (inside root q e)) in
      (
        deltas',
        vote' ∷ votes',
        record {
          length_deltas = after.length_deltas ∙ here.length_deltas;
          votes_settled = ap₂ ◌∷◌ here.vote_settled after.votes_settled;
          balance = λ i other.
              move_twice (delta_at deltas' i) (delta_at moved i) (delta_at deltas i) _ _ _ _
                (after.balance i other)
                (here.balance i other
                  ∙ ap
                      (λ v.
                        delta_at deltas i
                        +ℤ share (place v) i (pos (listed_balance new_balances k)))
                      (ap (λ v. v.current_root) (sym here.vote_settled)));
        },
        rw
            (
              balance_at-listed_balance old_balances k,
              balance_at-listed_balance new_balances k,
              first,
              rest,
            )
            refl,
      )

  -- Where the indices of the dictionary lie in the array, compute_deltas returns a delta for each
  -- entry, counts every vote for the root that it names last, and at each position but that of
  -- the default root its delta is what the votes then give with the new balances beyond what they
  -- gave with the old ones.
  pub compute_deltas-AllMoved :
      (votes : List VoteTracker) (old_balances new_balances : List Gwei)
      → InArray indices offset (length indices)
      → (deltas : List ℤ) × (compute_deltas indices offset votes old_balances new_balances
          ≡ ok (deltas, settled votes))
        × (length deltas ≡ length indices)
        × ((i : ℕ)
            → place zero_hash32 ≢ some i
            → delta_at deltas i +ℤ vote_sum old_balances 0 votes i
              ≡ vote_sum new_balances 0 (settled votes) i)
  unfolding compute_deltas
  compute_deltas-AllMoved votes old_balances new_balances inside =
      let blank = replicate (length indices) (pos 0) in
      let long = length-replicate (length indices) (pos 0) in
      let (deltas, votes', moved, done) =
        delta_loop-ok old_balances new_balances 0 votes blank
          (λ root i e. rw long (inside root i e)) in
      (
        deltas,
        done ∙ ap (λ v. ok (deltas, v)) moved.votes_settled,
        moved.length_deltas ∙ long,
        λ i other.
            moved.balance i other
            ∙ ap₂ ◌+ℤ◌ (delta_at-replicate (length indices) i)
                (ap (λ v. vote_sum new_balances 0 v i) moved.votes_settled)
            ∙ zero_+ℤ (vote_sum new_balances 0 (settled votes) i),
      )
