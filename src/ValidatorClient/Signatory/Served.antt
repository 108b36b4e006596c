-- ===== src/ValidatorClient/Signatory/Served.antt =====
-- A duty whose key can sign is signed, by its call or by an earlier one.
use trinity_eth.Base.{
  is_some, dict_get-dict_set, dict_get-dict_set_other, dict_has-dict_set, Bool-cases, length,
  get_elem?, length-append, same_bytes, same_bytes→eq, is_some, dict_has, dict_get-dict_set,
  dict_get-dict_set_other, dict_has-dict_set, EachItem, EachItem-cons, ℕ, suc, ◌^◌, ◌<◌, ◌≡◌, refl,
  sym, ap, ◌∙◌, inl, inr, true, some, List, [], ◌∷◌, ◌++◌, arith, Result, ok, raise,
}
use mathlib.Core.Path.{ap₂}
use trinity_eth.Types.{Bytes, Slot, BlsSignature}
use trinity_eth.Extern.{Extern}
use trinity_eth.ValidatorClient.Duties.{Duty, DutyType, attestation_type, block_proposal_type}
use trinity_eth.ValidatorClient.Signatory.{
  Publication, ResolvedDuty, SignatoryState, no_signatures, Signer, key_for, is_slashable,
  operation_tag, record_signature_for, sign, broadcast, sign_and_broadcast_operation_if_valid,
  signatory,
}
use trinity_eth.ValidatorClient.Signatory.Once.{SameSubject}
use trinity_eth.ValidatorClient.Signatory.Authorized.{CanSign, sign-ok}

-- Slots of 64 bits have different encodings.
abbrev pub EncodesSlots : Signer → Type 0
EncodesSlots signer =
    (a b : Slot) → a < 2 ^ 64 → b < 2 ^ 64 → signer.encode_uint64 a ≡ signer.encode_uint64 b → a ≡ b

-- A public key has 48 bytes, and a slot fits in 64 bits.
abbrev pub IsValidDuty : Duty → Type 0
IsValidDuty d = (length d.validator_public_key ≡ 48) × (d.tick_for_execution.slot < 2 ^ 64)

append_injective :
    {A : Type 0} (xs xs' ys ys' : List A)
    → length xs ≡ length xs'
    → xs ++ ys ≡ xs' ++ ys'
    → (xs ≡ xs') × (ys ≡ ys')
append_injective [] [] ys ys' long e = (refl, e)
append_injective [] (x ∷ xs') ys ys' long e = absurd (omega arith)
append_injective (x ∷ xs) [] ys ys' long e = absurd (omega arith)
append_injective (x ∷ xs) (x' ∷ xs') ys ys' long e =
    let tails : xs ++ ys ≡ xs' ++ ys' = cc in
    let heads : x ≡ x' = cc in
    let (first, second) = append_injective xs xs' ys ys' (omega arith) tails in
    (ap₂ ◌∷◌ heads first, second)

operation_tag_injective :
    (ext : Extern) (signer : Signer) (t u : DutyType)
    → operation_tag ext signer t ≡ operation_tag ext signer u
    → t ≡ u
operation_tag_injective ext signer attestation_type attestation_type e = refl
operation_tag_injective ext signer attestation_type block_proposal_type e = cc
operation_tag_injective ext signer block_proposal_type attestation_type e = cc
operation_tag_injective ext signer block_proposal_type block_proposal_type e = refl

length-operation_tag :
    (ext : Extern) (signer : Signer) (t : DutyType) → length (operation_tag ext signer t) ≡ 1
length-operation_tag ext signer attestation_type = refl
length-operation_tag ext signer block_proposal_type = refl

module _ (ext : Extern) (signer : Signer) (encodes : EncodesSlots signer) where
  key_for_injective :
      (d e : Duty)
      → IsValidDuty d
      → IsValidDuty e
      → key_for ext signer d ≡ key_for ext signer e
      → SameSubject d e
  key_for_injective d e (long_d, slot_d) (long_e, slot_e) same =
      let tag_d = operation_tag ext signer d.duty_type in
      let tag_e = operation_tag ext signer e.duty_type in
      let tags_long =
        length-operation_tag ext signer d.duty_type
        ∙ sym (length-operation_tag ext signer e.duty_type) in
      let starts_d = length-append tag_d d.validator_public_key in
      let starts_e = length-append tag_e e.validator_public_key in
      let (starts, slots) =
        append_injective (tag_d ++ d.validator_public_key) (tag_e ++ e.validator_public_key) _ _
          (omega arith) same in
      let (tags, keys) =
        append_injective tag_d tag_e d.validator_public_key e.validator_public_key tags_long
          starts in
      record {
        same_type = operation_tag_injective ext signer d.duty_type e.duty_type tags;
        same_key = keys;
        same_slot = encodes _ _ slot_d slot_e slots;
      }

  -- What stands in the database was published.
  abbrev Published : SignatoryState → Duty → Type 0
  Published s d =
      (i : ℕ) × (p : Publication) × (get_elem? s.published i ≡ some p) × SameSubject d p.duty

  CanSign-SameSubject : (d e : Duty) → SameSubject d e → CanSign ext signer d → CanSign ext signer e
  CanSign-SameSubject d e same (private_key, held, positive, below) =
      (private_key, rw (sym same.same_key) held, positive, below)

  -- What stands in the database under the key of a duty that can be signed was published.
  abbrev Backed : SignatoryState → Type 0
  Backed s =
      (d : Duty)
      → IsValidDuty d
      → CanSign ext signer d
      → dict_has (key_for ext signer d) s.db ≡ true
      → Published s d

  broadcast-keeps :
      (s : SignatoryState) (r : ResolvedDuty) (signed : Result BlsSignature) (d : Duty)
      → Published s d
      → Published (broadcast ext signer s r signed).0 d
  broadcast-keeps s r (ok signature) d (i, p, at, same) = (suc i, p, at, same)
  broadcast-keeps s r (raise e) d published = published

  broadcast-Published :
      (s : SignatoryState) (r : ResolvedDuty) (d : Duty)
      → SameSubject d r.duty
      → CanSign ext signer d
      → Published (broadcast ext signer s r (sign ext signer r)).0 d
  broadcast-Published s r d same can =
      let (signature, signed) = sign-ok ext signer r (CanSign-SameSubject d r.duty same can) in
      rw signed (0, _, refl, same)

  broadcast-db :
      (s : SignatoryState) (r : ResolvedDuty) (signed : Result BlsSignature)
      → (broadcast ext signer s r signed).0.db ≡ s.db
  broadcast-db s r (ok signature) = refl
  broadcast-db s r (raise e) = refl

  sign_and_broadcast-Backed :
      (s : SignatoryState) (r : ResolvedDuty)
      → IsValidDuty r.duty
      → Backed s
      → Backed (sign_and_broadcast_operation_if_valid ext signer s r).0
  unfolding sign_and_broadcast_operation_if_valid
  sign_and_broadcast-Backed s r valid backed =
      let s' : SignatoryState = record s { db = record_signature_for ext signer s.db r } in
      elim (Bool-cases (is_slashable ext signer s.db r.duty)) [
        | inl known ↦ rw known backed
        | inr new ↦ rw new (λ d d_valid can there.
            elim (Bool-cases (same_bytes (key_for ext signer r.duty) (key_for ext signer d))) [
              | inl same ↦
                  broadcast-Published s' r d
                    (key_for_injective d r.duty d_valid valid (sym (same_bytes→eq _ _ same))) can
              | inr other ↦
                  let old : dict_has (key_for ext signer d) s.db ≡ true =
                    ap is_some (
                      sym (
                        dict_get-dict_set_other (key_for ext signer d) (key_for ext signer r.duty) _
                          s.db other))
                    ∙ ap (dict_has (key_for ext signer d))
                        (sym (broadcast-db s' r (sign ext signer r)))
                    ∙ there in
                  broadcast-keeps s' r (sign ext signer r) d (backed d d_valid can old)
            ])
      ]

  signatory-Backed :
      (s : SignatoryState) (resolved : List ResolvedDuty)
      → EachItem (λ i r. IsValidDuty r.duty) resolved
      → Backed s
      → Backed (signatory ext signer s resolved).0
  unfolding signatory
  signatory-Backed s [] valid backed = backed
  signatory-Backed s (r ∷ resolved) valid backed =
      signatory-Backed (sign_and_broadcast_operation_if_valid ext signer s r).0 resolved
        (λ i. valid (suc i)) (sign_and_broadcast-Backed s r (valid 0 r refl) backed)

  -- A key that is in the database stays there, and that of a duty is there afterwards.
  sign_and_broadcast-keeps :
      (s : SignatoryState) (r : ResolvedDuty) (key : Bytes)
      → dict_has key s.db ≡ true
      → dict_has key (sign_and_broadcast_operation_if_valid ext signer s r).0.db ≡ true
  unfolding sign_and_broadcast_operation_if_valid
  sign_and_broadcast-keeps s r key there = elim (Bool-cases (is_slashable ext signer s.db r.duty)) [
    | inl known ↦ rw known there
    | inr new ↦ rw new (
        ap (dict_has key) (broadcast-db _ r (sign ext signer r))
        ∙ dict_has-dict_set key (key_for ext signer r.duty) _ s.db there)
  ]

  sign_and_broadcast-knows :
      (s : SignatoryState) (r : ResolvedDuty)
      → dict_has
          (key_for ext signer r.duty)
          (sign_and_broadcast_operation_if_valid ext signer s r).0.db
        ≡ true
  unfolding sign_and_broadcast_operation_if_valid
  sign_and_broadcast-knows s r = elim (Bool-cases (is_slashable ext signer s.db r.duty)) [
    | inl known ↦ rw known known
    | inr new ↦ rw new (
        ap (dict_has (key_for ext signer r.duty)) (broadcast-db _ r (sign ext signer r))
        ∙ ap is_some (dict_get-dict_set (key_for ext signer r.duty) _ s.db))
  ]

  signatory-keeps :
      (s : SignatoryState) (resolved : List ResolvedDuty) (key : Bytes)
      → dict_has key s.db ≡ true
      → dict_has key (signatory ext signer s resolved).0.db ≡ true
  unfolding signatory
  signatory-keeps s [] key there = there
  signatory-keeps s (r ∷ resolved) key there =
      signatory-keeps (sign_and_broadcast_operation_if_valid ext signer s r).0 resolved key
        (sign_and_broadcast-keeps s r key there)

  signatory-knows :
      (s : SignatoryState) (resolved : List ResolvedDuty)
      → EachItem
          (λ i r.
            dict_has (key_for ext signer r.duty) (signatory ext signer s resolved).0.db ≡ true)
          resolved
  unfolding signatory
  signatory-knows s [] = λ i r at. cc
  signatory-knows s (r ∷ resolved) =
      let s' = (sign_and_broadcast_operation_if_valid ext signer s r).0 in
      EachItem-cons _ r resolved
        (signatory-keeps s' resolved (key_for ext signer r.duty) (sign_and_broadcast-knows s r))
        (signatory-knows s' resolved)

  -- Where slots of 64 bits have different encodings, and all duties that the signatory receives
  -- after it starts have public keys of 48 bytes and slots of 64 bits, for each of them whose
  -- validator has a private key in the key store, from 1 to below the order of the curve, there
  -- is a publication of its kind, for its validator and at its slot.
  pub signatory-Published :
      (resolved : List ResolvedDuty) (i : ℕ) (r : ResolvedDuty)
      → EachItem (λ j other. IsValidDuty other.duty) resolved
      → get_elem? resolved i ≡ some r
      → CanSign ext signer r.duty
      → Published (signatory ext signer no_signatures resolved).0 r.duty
  signatory-Published resolved i r valid at can =
      signatory-Backed no_signatures resolved valid (λ d d_valid d_can there. cc) r.duty
        (valid i r at) can (signatory-knows no_signatures resolved i r at)
