-- ===== src/Tests/ClientRuns.antt =====
-- The validator client's store of duties and its signatory on a few duties.
use trinity_eth.Base.{
  EachItem-cons, EachItem, length, get_elem?, replicate, length-replicate, EachItem, EachItem-cons,
  ℕ, ◌^◌, ◌<◌, ◌≡◌, refl, true, some, List, [], ◌∷◌, arith, ok, raise, key_error,
}
use trinity_eth.Tests.Running.{run}
use trinity_eth.Types.{Slot, Attestation}
use trinity_eth.ValidatorClient.Duties.{Tick, Duty, attestation_duty, block_proposal_duty}
use trinity_eth.ValidatorClient.DutyStore.{add_duties}
use trinity_eth.ValidatorClient.DutyStore.Single.{IsKeptStore, add_duties-IsKeptStore}
use trinity_eth.ValidatorClient.Signatory.{
  ResolvedDuty, Publication, Signer, no_signatures, signatory, sign,
  sign_and_broadcast_operation_if_valid,
}
use trinity_eth.ValidatorClient.Signatory.Once.{NoTwice, SameSubject, signatory-NoTwice}
use trinity_eth.ValidatorClient.Signatory.Authorized.{CanSign, signatory-CanSign}
use trinity_eth.ValidatorClient.Signatory.Served.{EncodesSlots, IsValidDuty, signatory-Published}
use trinity_eth.Tests.Fixtures.{ext, checkpoint_of, root_of}

abbrev signer : Signer
signer = record {
  encode_uint64 = λ n. n ∷ [];
  attestation_root = λ a. root_of a.attested.slot;
  key_store = record { key_pairs = (replicate 48 1, 7) ∷ (replicate 48 2, 8) ∷ [] };
  backend = record { curve_order = 100; sign_root = λ k root. replicate 96 k };
}

signer-EncodesSlots : EncodesSlots signer
signer-EncodesSlots a b a_small b_small e = cc

abbrev tick_at : Slot → ℕ → Tick
tick_at slot count = record { slot = slot; epoch = 0; count = count }

abbrev attest_at : ℕ → Slot → Duty
attest_at k slot = attestation_duty (replicate 48 k) (tick_at slot 1) (tick_at 0 0) 2

abbrev attestation_at : Slot → Attestation
attestation_at slot = record {
  aggregation_bits = true ∷ [];
  attested = record {
    slot = slot;
    index = 2;
    beacon_block_root = root_of 1;
    source = checkpoint_of 0;
    target = checkpoint_of 0;
  };
  signature = [];
}

-- Two validators at one slot, and the first one again.
abbrev first_request : ResolvedDuty
first_request = record { duty = attest_at 1 5; operation = attestation_at 5 }

abbrev second_request : ResolvedDuty
second_request = record { duty = attest_at 2 5; operation = attestation_at 5 }

abbrev third_request : ResolvedDuty
third_request = record { duty = attest_at 1 5; operation = attestation_at 6 }

-- A validator whose key is not held.
abbrev fourth_request : ResolvedDuty
fourth_request = record { duty = attest_at 3 5; operation = attestation_at 5 }

abbrev requests : List ResolvedDuty
requests = first_request ∷ second_request ∷ third_request ∷ fourth_request ∷ []

requests_lem : length (signatory ext signer no_signatures requests).0.published ≡ 2
unfolding signatory sign_and_broadcast_operation_if_valid sign run
requests_lem = refl

-- The record of the last duty stays, although its call raises.
outcomes_lem :
    (signatory ext signer no_signatures requests).1 ≡ ok tt ∷ ok tt ∷ ok tt ∷ raise key_error ∷ []
unfolding signatory sign_and_broadcast_operation_if_valid sign run
outcomes_lem = refl

records_lem : length (signatory ext signer no_signatures requests).0.db ≡ 3
unfolding signatory sign_and_broadcast_operation_if_valid sign run
records_lem = refl

no_requests-IsValidDuty : EachItem {A = ResolvedDuty} (λ i r. IsValidDuty r.duty) []
no_requests-IsValidDuty i r at = cc

attest_at-IsValidDuty : (k : ℕ) (slot : Slot) → slot < 2 ^ 64 → IsValidDuty (attest_at k slot)
attest_at-IsValidDuty k slot small = (length-replicate 48 k, small)

requests-IsValidDuty : EachItem (λ i r. IsValidDuty r.duty) requests
requests-IsValidDuty =
    EachItem-cons _ first_request (second_request ∷ third_request ∷ fourth_request ∷ [])
      (attest_at-IsValidDuty 1 5 (omega arith))
      (EachItem-cons _ second_request (third_request ∷ fourth_request ∷ [])
        (attest_at-IsValidDuty 2 5 (omega arith))
        (EachItem-cons _ third_request (fourth_request ∷ [])
          (attest_at-IsValidDuty 1 5 (omega arith))
          (EachItem-cons _ fourth_request [] (attest_at-IsValidDuty 3 5 (omega arith))
            no_requests-IsValidDuty)))

signatory-NoTwice_example : NoTwice (signatory ext signer no_signatures requests).0.published
signatory-NoTwice_example = signatory-NoTwice ext signer requests

signatory-Published_example :
    (j : ℕ) × (p : Publication) × (get_elem?
        (signatory ext signer no_signatures requests).0.published
        j
      ≡ some p)
    × SameSubject third_request.duty p.duty
signatory-Published_example =
    signatory-Published ext signer signer-EncodesSlots requests 2 third_request requests-IsValidDuty
      refl (7, refl, omega arith, omega arith)

signatory-CanSign_example :
    EachItem
      (λ i p. CanSign ext signer p.duty)
      (signatory ext signer no_signatures requests).0.published
signatory-CanSign_example = signatory-CanSign ext signer requests

abbrev duties : List Duty
duties =
    attest_at 1 5
    ∷ attest_at 2 5
    ∷ attest_at 1 5
    ∷ block_proposal_duty (replicate 48 1) (tick_at 5 0) (tick_at 0 0)
    ∷ []

nothing_kept : IsKeptStore []
nothing_kept target ds e = cc

add_duties-IsKeptStore_example : IsKeptStore (add_duties [] duties)
add_duties-IsKeptStore_example = add_duties-IsKeptStore [] duties nothing_kept
