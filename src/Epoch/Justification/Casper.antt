-- ===== src/Epoch/Justification/Casper.antt =====
-- Casper's rules: what justification and finalization may change, and in which order.
use trinity_eth.Base.{
  not, ℕ, ◌+◌, ◌≤◌, ◌≡◌, refl, sym, subst, leb, ◌==◌, ◌⊎◌, inl, inr, Bool, true, false,
  if◌then◌else◌, List, [], ◌∷◌, ◌&&◌, ok, Ensures, Ensures-ok, Ensures-bind, Ensures-if, arith,
  leb→le, ok_injective, >>=-eq-ok, ◌*◌,
}
use trinity_eth.Types.{
  Epoch, Checkpoint, Gwei, PendingAttestation, BeaconState, Eth2Config, current_epoch,
  previous_epoch, genesis_epoch,
}
use trinity_eth.Extern.{Extern}
use trinity_eth.EpochHelpers.{
  get_matching_target_attestations, get_attesting_balance, get_total_active_balance,
}
use trinity_eth.Epoch.Justification.{
  determine_updated_justification_data, determine_updated_justifications,
  determine_new_finalized_epoch, checkpoint_at, determine_new_finalized_checkpoint,
  is_epoch_justifiable, is_threshold_met_against_active_set,
  determine_new_justified_epoch_and_bitfield, determine_new_justified_checkpoint_and_bitfield,
  process_justification_and_finalization,
}

-- The epoch `e` is finalized by a rule of Casper at the end of epoch `current`: it was justified
-- one or two epochs ago as the current checkpoint, or two or three as the previous one, and every
-- epoch from it on is justified.
abbrev pub FinalizedBy : Bool → Bool → Bool → Bool → Epoch → Epoch → Epoch → Epoch → Type 0
FinalizedBy b0 b1 b2 b3 previous_justified current_justified current e =
    ((e ≡ previous_justified)
      × ((b1 && b2) ≡ true)
      × ((previous_justified + 2 ≡ current) ⊎ ((previous_justified + 3 ≡ current) × (b3 ≡ true))))
    ⊎ ((e ≡ current_justified)
        × ((b0 && b1) ≡ true)
        × ((current_justified + 1 ≡ current) ⊎ ((current_justified + 2 ≡ current) × (b2 ≡ true))))

-- With four justification bits the finalized epoch is kept, or is one that a finalization rule of
-- Casper admits.
pub determine_new_finalized_epoch-FinalizedBy :
    (last p c current : Epoch) (b0 b1 b2 b3 : Bool)
    → (determine_new_finalized_epoch last p c current (b0 ∷ b1 ∷ b2 ∷ b3 ∷ []) ≡ last)
      ⊎ FinalizedBy b0 b1 b2 b3 p c current
          (determine_new_finalized_epoch last p c current (b0 ∷ b1 ∷ b2 ∷ b3 ∷ []))
unfolding determine_new_finalized_epoch
determine_new_finalized_epoch-FinalizedBy last p c current b0 b1 b2 b3 = ground arith

determine_new_finalized_epoch_bounds :
    (last p c current : Epoch) (bits : List Bool)
    → last ≤ p
    → p ≤ c
    → (last ≤ determine_new_finalized_epoch last p c current bits)
      × (determine_new_finalized_epoch last p c current bits ≤ c)
unfolding determine_new_finalized_epoch
determine_new_finalized_epoch_bounds last p c current bits h k = ground arith

updated_data_epoch :
    (old : Epoch) (bits : List Bool) (justifiable : Bool) (candidate : Epoch) (offset : ℕ)
    → Ensures
        (λ r. r.0 ≡ (if justifiable then candidate else old))
        (determine_updated_justification_data old bits justifiable candidate offset)
updated_data_epoch old bits true candidate offset = Ensures-bind _ _ λ bits' _. Ensures-ok _ refl
updated_data_epoch old bits false candidate offset = Ensures-ok _ refl

updated_epoch :
    (p : Bool) (previous : Epoch) (c : Bool) (current old : Epoch) (bits : List Bool)
    → Ensures
        (λ r. r.0 ≡ (if c then current else if p then previous else old))
        (determine_updated_justifications p previous c current old bits)
unfolding determine_updated_justifications
updated_epoch p previous c current old bits = Ensures-bind _ _ λ r e.
    let first = (updated_data_epoch old bits p previous 1).at r e in
    subst
      (λ k.
        Ensures (λ r'. r'.0 ≡ (if c then current else k))
          (determine_updated_justification_data r.0 r.1 c current 0))
      first (updated_data_epoch r.0 r.1 c current 0)

module _ (ext : Extern) (config : Eth2Config) (s : BeaconState) where
  -- The balance that attests to the target of epoch `e` is at least two thirds of the total active
  -- balance.
  abbrev pub TwoThirds : Epoch → Type 0
  TwoThirds e =
      (attestations : List PendingAttestation) × (participation : Gwei) × (total : Gwei)
      × (get_matching_target_attestations s e config ≡ ok attestations)
      × (get_attesting_balance ext s attestations config ≡ ok participation)
      × (get_total_active_balance s config ≡ ok total)
      × (2 * total ≤ 3 * participation)

  is_epoch_justifiable-TwoThirds :
      (e : Epoch) → is_epoch_justifiable ext s e config ≡ ok true → TwoThirds e
  unfolding is_epoch_justifiable is_threshold_met_against_active_set
  is_epoch_justifiable-TwoThirds e h =
      let (attestations, matching, rest) = >>=-eq-ok _ _ h in
      let (participation, attesting, rest') = >>=-eq-ok _ _ rest in
      let (total, active, met) = >>=-eq-ok _ _ rest' in
      (
        attestations,
        participation,
        total,
        matching,
        attesting,
        active,
        leb→le _ _ (ok_injective met),
      )

  -- The justified epoch is kept, or it is the previous or the current one and its target votes
  -- reach two thirds.
  abbrev pub JustifiedBy : Epoch → Type 0
  JustifiedBy e =
      (e ≡ s.current_justified_checkpoint.epoch)
      ⊎ (((e ≡ previous_epoch s config.slots_per_epoch)
            ⊎ (e ≡ current_epoch s config.slots_per_epoch))
          × TwoThirds e)

  chosen-JustifiedBy :
      (p c : Bool) (e : Epoch)
      → is_epoch_justifiable ext s (previous_epoch s config.slots_per_epoch) config ≡ ok p
      → is_epoch_justifiable ext s (current_epoch s config.slots_per_epoch) config ≡ ok c
      → e ≡ (
          if c
          then current_epoch s config.slots_per_epoch
          else if p
          then previous_epoch s config.slots_per_epoch
          else s.current_justified_checkpoint.epoch)
      → JustifiedBy e
  chosen-JustifiedBy p true e ep ec is = inr (inr is, is_epoch_justifiable-TwoThirds e (rw is ec))
  chosen-JustifiedBy true false e ep ec is =
      inr (inl is, is_epoch_justifiable-TwoThirds e (rw is ep))
  chosen-JustifiedBy false false e ep ec is = inl is

  new_justified_epoch-JustifiedBy :
      Ensures (λ r. JustifiedBy r.0) (determine_new_justified_epoch_and_bitfield ext s config)
  unfolding determine_new_justified_epoch_and_bitfield
  new_justified_epoch-JustifiedBy = Ensures-bind _ _ λ p ep. Ensures-bind _ _ λ c ec. record {
    at = λ r e. chosen-JustifiedBy p c r.0 ep ec ((updated_epoch p _ c _ _ _).at r e);
  }

  checkpoint_at_epoch :
      (epoch : Epoch) (old : Checkpoint)
      → Ensures (λ checkpoint. checkpoint.epoch ≡ epoch) (checkpoint_at s epoch old config)
  unfolding checkpoint_at
  checkpoint_at_epoch epoch old =
      Ensures-if (not (epoch == old.epoch)) _ (ok (record { epoch = epoch; root = old.root }))
        (λ _.
          Ensures-bind _ (λ root. ok (record { epoch = epoch; root = root }))
            λ root _. Ensures-ok _ refl)
        (λ _. Ensures-ok _ refl)

  new_justified-JustifiedBy :
      Ensures
        (λ r. JustifiedBy r.0.epoch)
        (determine_new_justified_checkpoint_and_bitfield ext s config)
  unfolding determine_new_justified_checkpoint_and_bitfield
  new_justified-JustifiedBy = Ensures-bind _ _ λ r e. Ensures-bind _ _ λ checkpoint e'.
      Ensures-ok _ (
        subst JustifiedBy (sym ((checkpoint_at_epoch r.0 _).at checkpoint e'))
          (new_justified_epoch-JustifiedBy.at r e))

-- The checkpoints stand in the order finalized, previous justified, current justified, and none is
-- later than `bound`.
pub record CheckpointsOrdered (bound : Epoch) (s : BeaconState) : Type 0 where
  pub finalized_first : s.finalized_checkpoint.epoch ≤ s.previous_justified_checkpoint.epoch
  pub previous_next : s.previous_justified_checkpoint.epoch ≤ s.current_justified_checkpoint.epoch
  pub bounded : s.current_justified_checkpoint.epoch ≤ bound

-- What a run of `process_justification_and_finalization` from `s` to `t` guarantees.
pub record CasperStep (ext : Extern) (config : Eth2Config) (s t : BeaconState) : Type 0 where
  pub ordered : CheckpointsOrdered (current_epoch s config.slots_per_epoch) t
  pub finality_kept : s.finalized_checkpoint.epoch ≤ t.finalized_checkpoint.epoch
  pub justified_kept : s.current_justified_checkpoint.epoch ≤ t.current_justified_checkpoint.epoch
  pub justified_by_votes : JustifiedBy ext config s t.current_justified_checkpoint.epoch

justified_bounds :
    (ext : Extern) (config : Eth2Config) (s : BeaconState) (e : Epoch)
    → s.current_justified_checkpoint.epoch ≤ previous_epoch s config.slots_per_epoch
    → JustifiedBy ext config s e
    → (s.current_justified_checkpoint.epoch ≤ e) × (e ≤ current_epoch s config.slots_per_epoch)
justified_bounds ext config s e h (inl kept) = ground arith
justified_bounds ext config s e h (inr (inl previous, _)) = ground arith
justified_bounds ext config s e h (inr (inr current, _)) = ground arith

step-CasperStep :
    (ext : Extern) (config : Eth2Config) (s : BeaconState)
    → CheckpointsOrdered (previous_epoch s config.slots_per_epoch) s
    → Ensures (CasperStep ext config s) (process_justification_and_finalization ext s config)
unfolding process_justification_and_finalization determine_new_finalized_checkpoint
step-CasperStep ext config s h =
    Ensures-if (leb (current_epoch s config.slots_per_epoch) (genesis_epoch + 1)) (ok s) _
      (λ _. Ensures-ok _ (record {
        ordered = ground arith;
        finality_kept = omega arith;
        justified_kept = omega arith;
        justified_by_votes = inl refl;
      }))
      λ _. Ensures-bind _ _ λ r e. Ensures-bind _ _ λ finalized e'.
        let votes = (new_justified-JustifiedBy ext config s).at r e in
        let (low, high) = justified_bounds ext config s r.0.epoch h.bounded votes in
        let chosen = (checkpoint_at_epoch ext config s _ _).at finalized e' in
        let (kept, capped) =
          determine_new_finalized_epoch_bounds s.finalized_checkpoint.epoch
            s.previous_justified_checkpoint.epoch s.current_justified_checkpoint.epoch
            (current_epoch s config.slots_per_epoch) r.1 h.finalized_first h.previous_next in
        Ensures-ok _ (record {
          ordered = record { finalized_first = omega arith; previous_next = low; bounded = high };
          finality_kept = omega arith;
          justified_kept = low;
          justified_by_votes = votes;
        })

-- From a state whose checkpoints are ordered, and none later than the previous epoch,
-- justification and finalization that returns keeps the checkpoints ordered up to the current
-- epoch, takes back no finalized or justified epoch, and keeps the justified epoch or justifies
-- the previous or the current one, where three times the balance that attests to the epoch's
-- target is at least twice the total active balance.
pub process_justification_and_finalization-CasperStep :
    (ext : Extern) (config : Eth2Config) (s t : BeaconState)
    → CheckpointsOrdered (previous_epoch s config.slots_per_epoch) s
    → process_justification_and_finalization ext s config ≡ ok t
    → CasperStep ext config s t
process_justification_and_finalization-CasperStep ext config s t h e =
    (step-CasperStep ext config s h).at t e
