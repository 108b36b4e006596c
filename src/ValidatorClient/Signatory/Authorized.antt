-- ===== src/ValidatorClient/Signatory/Authorized.antt =====
-- When a duty can be signed: its validator has a valid private key in the key store.
use trinity_eth.Base.{
  leb, Bool-cases, replicate, dict_get, EachItem, EachItem-cons, ◌>>=◌, >>=-eq-ok, or_raise-eq-ok,
  raise_if-eq-ok, Result, ℕ, ◌≤◌, ◌<◌, ◌≡◌, refl, inl, inr, false, some, List, [], ◌∷◌, arith, ok,
  raise,
}
use trinity_eth.Types.{BlsSignature}
use trinity_eth.Extern.{Extern}
use trinity_eth.Helpers.{compute_domain, compute_signing_root}
use trinity_eth.ValidatorClient.Duties.{Duty}
use trinity_eth.ValidatorClient.Signatory.{
  ResolvedDuty, SignatoryState, no_signatures, Signer, is_slashable, operation_root,
  testing_validators_root, record_signature_for, sign, broadcast,
  sign_and_broadcast_operation_if_valid, signatory,
}

module _ (ext : Extern) (signer : Signer) where
  -- The key store has a private key of the validator, and the key is valid.
  abbrev pub CanSign : Duty → Type 0
  CanSign d =
      (private_key : ℕ) × (dict_get d.validator_public_key signer.key_store.key_pairs
        ≡ some private_key)
      × (1 ≤ private_key)
      × (private_key < signer.backend.curve_order)

  pub sign-ok :
      (r : ResolvedDuty) → CanSign r.duty → (x : BlsSignature) × (sign ext signer r ≡ ok x)
  unfolding sign ◌>>=◌
  sign-ok r (private_key, held, positive, below) =
      let small : leb private_key 0 ≡ false = ground arith in
      let large : leb signer.backend.curve_order private_key ≡ false = ground arith in
      let domain =
        compute_domain ext r.duty.signature_domain (replicate 4 0) testing_validators_root in
      let message =
        compute_signing_root ext (operation_root ext signer r.duty.duty_type r.operation) domain in
      (signer.backend.sign_root private_key message, rw (held, small, large) refl)

  sign-CanSign :
      (r : ResolvedDuty) (signature : BlsSignature)
      → sign ext signer r ≡ ok signature
      → CanSign r.duty
  unfolding sign
  sign-CanSign r signature e =
      let (private_key, held, rest) = >>=-eq-ok _ _ e in
      let (u, checked, signed) = >>=-eq-ok _ _ rest in
      let valid = raise_if-eq-ok _ _ checked in
      (private_key, or_raise-eq-ok _ _ held, ground arith, ground arith)

  -- Every publication is for a duty that can be signed.
  abbrev Authorized : SignatoryState → Type 0
  Authorized s = EachItem (λ i p. CanSign p.duty) s.published

  broadcast-Authorized :
      (s : SignatoryState) (r : ResolvedDuty) (signed : Result BlsSignature)
      → sign ext signer r ≡ signed
      → Authorized s
      → Authorized (broadcast ext signer s r signed).0
  broadcast-Authorized s r (ok signature) e authorized =
      EachItem-cons _ _ s.published (sign-CanSign r signature e) authorized
  broadcast-Authorized s r (raise error) e authorized = authorized

  sign_and_broadcast-Authorized :
      (s : SignatoryState) (r : ResolvedDuty)
      → Authorized s
      → Authorized (sign_and_broadcast_operation_if_valid ext signer s r).0
  unfolding sign_and_broadcast_operation_if_valid
  sign_and_broadcast-Authorized s r authorized =
      elim (Bool-cases (is_slashable ext signer s.db r.duty)) [
        | inl known ↦ rw known authorized
        | inr new ↦ rw new (
            broadcast-Authorized (record s { db = record_signature_for ext signer s.db r }) r _ refl
              authorized)
      ]

  signatory-Authorized :
      (s : SignatoryState) (resolved : List ResolvedDuty)
      → Authorized s
      → Authorized (signatory ext signer s resolved).0
  unfolding signatory
  signatory-Authorized s [] authorized = authorized
  signatory-Authorized s (r ∷ resolved) authorized =
      signatory-Authorized (sign_and_broadcast_operation_if_valid ext signer s r).0 resolved
        (sign_and_broadcast-Authorized s r authorized)

  -- Whatever duties the signatory receives after it starts, each of its publications is for a
  -- validator with a private key in the key store, from 1 to below the order of the curve.
  pub signatory-CanSign :
      (resolved : List ResolvedDuty)
      → EachItem (λ i p. CanSign p.duty) (signatory ext signer no_signatures resolved).0.published
  signatory-CanSign resolved = signatory-Authorized no_signatures resolved (λ i p at. cc)
