-- ===== src/ForkChoice/Votes/Latest.antt =====
-- A run of `process_attestation`: the next vote of a validator is its latest message.
use trinity_eth.Base.{
  EachItem-cons, ltb, ◌==◌, ltb→lt, ltb→ge, ==→eq, ==→ne, Bool-cases, get_elem?, EachItem, ℕ, suc,
  ◌≤◌, ◌<◌, ◌≡◌, refl, sym, subst, ◌∙◌, ◌⊎◌, inl, inr, some, List, [], ◌∷◌, arith,
}
use trinity_eth.Types.{Root, Epoch, ValidatorIndex}
use trinity_eth.ForkChoice.Votes.{VoteTracker, ProtoArrayForkChoice, vote_at, process_attestation}
use trinity_eth.ForkChoice.Votes.Counted.{Counted}
use trinity_eth.ForkChoice.Votes.Attesting.{
  voted, vote_at-process_attestation, process_attestation-Counted,
}

pub record Message : Type 0 where
  pub validator : ValidatorIndex
  pub root : Root
  pub epoch : Epoch

-- The calls for a list of messages, in order.
unfoldable pub process_all : ProtoArrayForkChoice → List Message → ProtoArrayForkChoice
process_all f [] = f
process_all f (m ∷ messages) =
    process_all (process_attestation f m.validator m.root m.epoch) messages

-- The message at a position is the vote, and the first one of its epoch: the validator's earlier
-- messages and its old vote are older.
pub record IsFirstNewest (messages : List Message) (v : ValidatorIndex) (old new : VoteTracker)
    (i : ℕ) (m : Message) : Type 0 where
  pub there : get_elem? messages i ≡ some m
  pub from_validator : m.validator ≡ v
  pub root : new.next_root ≡ m.root
  pub epoch : new.next_epoch ≡ m.epoch
  pub newer : old.next_epoch < m.epoch
  pub first : EachItem (λ k m'. k < i → m'.validator ≡ v → m'.epoch < m.epoch) messages

-- The vote of a validator after some messages: none of its messages is newer, and it is the old
-- vote or the first message of the newest epoch.
pub record IsLatest (messages : List Message) (v : ValidatorIndex) (old new : VoteTracker)
    : Type 0 where
  pub newest : EachItem (λ i m. m.validator ≡ v → m.epoch ≤ new.next_epoch) messages
  pub not_older : old.next_epoch ≤ new.next_epoch
  pub source :
      ((new.next_root ≡ old.next_root) × (new.next_epoch ≡ old.next_epoch))
      ⊎ ((i : ℕ) × (m : Message) × IsFirstNewest messages v old new i m)

-- The vote after one message.
data Step (m : Message) (v : ValidatorIndex) (old mid : VoteTracker) : Type 0 where
  replaced :
      m.validator ≡ v
      → old.next_epoch < m.epoch
      → mid.next_root ≡ m.root
      → mid.next_epoch ≡ m.epoch
      → Step m v old mid
  kept : mid ≡ old → (m.validator ≡ v → m.epoch ≤ old.next_epoch) → Step m v old mid

voted-Step :
    (votes : List VoteTracker) (m : Message) (v : ValidatorIndex)
    → Step m v (vote_at votes v) (voted votes m.validator m.root m.epoch v)
voted-Step votes m v = elim (Bool-cases (m.validator == v)) [
  | inr e ↦ rw e (kept refl (λ same. absurd (==→ne m.validator v e same)))
  | inl e ↦ elim (Bool-cases (ltb (vote_at votes v).next_epoch m.epoch)) [
    | inl newer ↦ rw (e, ==→eq m.validator v e, newer) (replaced refl (ltb→lt _ _ newer) refl refl)
    | inr older ↦ rw (e, ==→eq m.validator v e, older) (kept refl (λ same. ltb→ge _ _ older))
  ]
]

-- A first newest message stays so after an older one in front.
IsFirstNewest-cons :
    (m : Message) (messages : List Message) (v : ValidatorIndex) (old mid new : VoteTracker) {i : ℕ}
    {m' : Message}
    → old.next_epoch ≤ mid.next_epoch
    → (m.validator ≡ v → m.epoch ≤ mid.next_epoch)
    → IsFirstNewest messages v mid new i m'
    → IsFirstNewest (m ∷ messages) v old new (suc i) m'
IsFirstNewest-cons m messages v old mid new {i} {m'} not_older front w = record {
  there = w.there;
  from_validator = w.from_validator;
  root = w.root;
  epoch = w.epoch;
  newer = let newer = w.newer in omega arith;
  first =
      EachItem-cons _ m messages
        (λ earlier own. let newer = w.newer in let older = front own in omega arith)
        (λ k m'' at earlier own. w.first k m'' at (omega arith) own);
}

IsLatest-cons :
    (m : Message) (messages : List Message) (v : ValidatorIndex) (old mid new : VoteTracker)
    → Step m v old mid
    → IsLatest messages v mid new
    → IsLatest (m ∷ messages) v old new
IsLatest-cons m messages v old mid new (replaced own newer root epoch) latest =
    let later = latest.not_older in
    record {
      newest = EachItem-cons _ m messages (λ own'. omega arith) latest.newest;
      not_older = omega arith;
      source = elim latest.source [
        | inl (same_root, same_epoch) ↦ inr (
          0,
          m,
          record {
            there = refl;
            from_validator = own;
            root = same_root ∙ root;
            epoch = same_epoch ∙ epoch;
            newer = newer;
            first = λ k m' at earlier own'. absurd (omega arith);
          },
        )
        | inr (i, m', w) ↦ inr (
          suc i,
          m',
          IsFirstNewest-cons m messages v old mid new (omega arith) (λ own'. omega arith) w,
        )
      ];
    }
IsLatest-cons m messages v old mid new (kept same older) latest =
    let latest' = subst (λ x. IsLatest messages v x new) same latest in
    let later = latest'.not_older in
    record {
      newest =
          EachItem-cons _ m messages (λ own. let front = older own in omega arith) latest'.newest;
      not_older = later;
      source = elim latest'.source [
        | inl unchanged ↦ inl unchanged
        | inr (i, m', w) ↦
            inr (suc i, m', IsFirstNewest-cons m messages v old old new (omega arith) older w)
      ];
    }

-- After any run of process_attestation no message of a validator is of a later epoch than its
-- vote, and its vote is the one that it had, or the first of its messages of the newest epoch,
-- which is later than that of the vote that it had.
pub process_all-IsLatest :
    (f : ProtoArrayForkChoice) (messages : List Message) (v : ValidatorIndex)
    → IsLatest messages v (vote_at f.votes v) (vote_at (process_all f messages).votes v)
unfolding process_all
process_all-IsLatest f [] v = record {
  newest = λ i m at. cc;
  not_older = omega arith;
  source = inl (refl, refl);
}
process_all-IsLatest f (m ∷ messages) v =
    IsLatest-cons m messages v (vote_at f.votes v) _ _
      (subst (λ x. Step m v (vote_at f.votes v) x)
        (sym (vote_at-process_attestation f m.validator m.root m.epoch v)) (voted-Step f.votes m v))
      (process_all-IsLatest (process_attestation f m.validator m.root m.epoch) messages v)

pub process_all-Counted :
    (f : ProtoArrayForkChoice) (messages : List Message)
    → Counted f
    → Counted (process_all f messages)
unfolding process_all
process_all-Counted f [] counted = counted
process_all-Counted f (m ∷ messages) counted =
    process_all-Counted (process_attestation f m.validator m.root m.epoch) messages
      (process_attestation-Counted f m.validator m.root m.epoch counted)
