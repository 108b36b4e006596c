-- ===== src/ValidatorClient/Signatory/Once.antt =====
-- No duty is signed twice: a validator signs one attestation and one block for a slot at most.
use trinity_eth.Base.{
  is_some, dict_get-dict_set, dict_has-dict_set, Bool-cases, is_some, dict_has, dict_get-dict_set,
  dict_has-dict_set, EachItem, EachItem-cons, ◌≡◌, refl, sym, ap, ◌∙◌, inl, inr, true, false, List,
  [], ◌∷◌, Result, ok, raise,
}
use trinity_eth.Types.{BlsSignature}
use trinity_eth.Extern.{Extern}
use trinity_eth.ValidatorClient.Duties.{Duty}
use trinity_eth.ValidatorClient.Signatory.{
  Publication, ResolvedDuty, SignatoryState, no_signatures, Signer, key_for, is_slashable,
  record_signature_for, sign, broadcast, sign_and_broadcast_operation_if_valid, signatory,
}

-- Duties of one kind for one validator at one slot.
pub record SameSubject (d e : Duty) : Type 0 where
  pub same_type : d.duty_type ≡ e.duty_type
  pub same_key : d.validator_public_key ≡ e.validator_public_key
  pub same_slot : d.tick_for_execution.slot ≡ e.tick_for_execution.slot

-- No two publications are for the same subject.
abbrev pub NoTwice : List Publication → Type 0
NoTwice [] = Unit {0}
NoTwice (p ∷ published) =
    EachItem (λ i q. ¬ SameSubject p.duty q.duty) published × NoTwice published

module _ (ext : Extern) (signer : Signer) where
  SameSubject-key_for : (d e : Duty) → SameSubject d e → key_for ext signer d ≡ key_for ext signer e
  SameSubject-key_for d e same = rw (same.same_type, same.same_key, same.same_slot) refl

  -- Every publication is in the database, and none is made twice.
  record Recorded (s : SignatoryState) : Type 0 where
    pub known : EachItem (λ i p. dict_has (key_for ext signer p.duty) s.db ≡ true) s.published
    pub once : NoTwice s.published

  -- A record for a new key, and then a publication or none.
  broadcast-Recorded :
      (s : SignatoryState) (r : ResolvedDuty) (signed : Result BlsSignature)
      → is_slashable ext signer s.db r.duty ≡ false
      → Recorded s
      → let s' : SignatoryState = record s { db = record_signature_for ext signer s.db r } in
        Recorded (broadcast ext signer s' r signed).0
  broadcast-Recorded s r (ok signature) new recorded = record {
    known =
        EachItem-cons _ _ s.published
          (ap is_some (dict_get-dict_set (key_for ext signer r.duty) _ s.db))
          (λ i p at.
            dict_has-dict_set (key_for ext signer p.duty) _ _ s.db (recorded.known i p at));
    once = (
      λ i p at same.
          let clash : true ≡ false =
            sym (recorded.known i p at)
            ∙ ap (λ k. dict_has k s.db) (sym (SameSubject-key_for r.duty p.duty same))
            ∙ new in
          cc,
      recorded.once,
    );
  }
  broadcast-Recorded s r (raise e) new recorded = record {
    known =
        λ i p at. dict_has-dict_set (key_for ext signer p.duty) _ _ s.db (recorded.known i p at);
    once = recorded.once;
  }

  sign_and_broadcast-Recorded :
      (s : SignatoryState) (r : ResolvedDuty)
      → Recorded s
      → Recorded (sign_and_broadcast_operation_if_valid ext signer s r).0
  unfolding sign_and_broadcast_operation_if_valid
  sign_and_broadcast-Recorded s r recorded =
      elim (Bool-cases (is_slashable ext signer s.db r.duty)) [
        | inl known ↦ rw known recorded
        | inr new ↦ rw new (broadcast-Recorded s r (sign ext signer r) new recorded)
      ]

  signatory-Recorded :
      (s : SignatoryState) (resolved : List ResolvedDuty)
      → Recorded s
      → Recorded (signatory ext signer s resolved).0
  unfolding signatory
  signatory-Recorded s [] recorded = recorded
  signatory-Recorded s (r ∷ resolved) recorded =
      signatory-Recorded (sign_and_broadcast_operation_if_valid ext signer s r).0 resolved
        (sign_and_broadcast-Recorded s r recorded)

  -- Whatever duties the signatory receives after it starts, no two of its publications are of one
  -- kind, for one validator and at one slot.
  pub signatory-NoTwice :
      (resolved : List ResolvedDuty)
      → NoTwice (signatory ext signer no_signatures resolved).0.published
  signatory-NoTwice resolved =
      (signatory-Recorded no_signatures resolved (record { known = λ i p at. cc; once = tt })).once
