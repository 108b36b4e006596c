-- ===== src/Slots/WellFormed.antt =====
-- The state transition ends at the slot that was asked for, and keeps the state's shape.
use trinity_eth.Base.{
  ℕ, zero, suc, ◌+◌, ◌-◌, ◌≡◌, ◌%◌, ◌==◌, ltb, Bool, true, false, raise_if-eq-ok, Option, some,
  lt→ltb, ge→ltb, ltb→ge, ok, Ensures, Ensures-ok, Ensures-bind, Ensures-if, length-update_at,
  arith,
}
use trinity_eth.Types.{Slot, BeaconState, SignedBeaconBlock, Eth2Config}
use trinity_eth.Extern.{Extern}
use trinity_eth.Invariant.{IsWellFormed}
use trinity_eth.Epoch.{process_epoch}
use trinity_eth.Epoch.WellFormed.{process_epoch-IsWellFormed}
use trinity_eth.Block.WellFormed.{process_block-IsWellFormed}
use trinity_eth.Slots.{
  update_historical_root, increment_slot, process_slot, advance_slot, slots_loop, process_slots,
  apply_block, apply_state_transition,
}

module _ (ext : Extern) (config : Eth2Config) where
  process_slot-IsWellFormed :
      (n : Slot) (s : BeaconState)
      → IsWellFormed config n s
      → Ensures (IsWellFormed config n) (process_slot ext s config)
  unfolding process_slot update_historical_root
  process_slot-IsWellFormed n s h = Ensures-bind _ _ λ roots e1. Ensures-bind _ _ λ blocks e2.
      Ensures-ok _ (
        ground (arith, (length-update_at _ _ _).at roots e1, (length-update_at _ _ _).at blocks e2))

  -- One round of the loop goes on by one slot.
  pub advance_slot-IsWellFormed :
      (n : Slot) (s : BeaconState)
      → IsWellFormed config n s
      → Ensures (IsWellFormed config (n + 1)) (advance_slot ext config s)
  unfolding advance_slot increment_slot
  advance_slot-IsWellFormed n s h = Ensures-bind _ _ λ t e. Ensures-bind _ _ λ u e'.
      let ht = (process_slot-IsWellFormed n s h).at t e in
      let hu =
        (Ensures-if ((t.slot + 1) % config.slots_per_epoch == 0) (process_epoch ext t config) (ok t)
            (λ _. process_epoch-IsWellFormed ext config n t ht) (λ _. Ensures-ok t ht)).at
          u e' in
      Ensures-ok _ (ground arith)

  slots_loop-IsWellFormed :
      (fuel : ℕ) (slot n : Slot) (s : BeaconState)
      → n + fuel ≡ slot
      → IsWellFormed config n s
      → Ensures (IsWellFormed config slot) (slots_loop ext fuel config slot s)
  unfolding slots_loop
  slots_loop-IsWellFormed zero slot n s e h =
      let there : ltb s.slot slot ≡ false = ge→ltb _ _ (omega arith) in
      rw (there, slots_loop) (Ensures-ok s (ground arith))
  slots_loop-IsWellFormed (suc fuel) slot n s e h =
      let before : ltb s.slot slot ≡ true = lt→ltb _ _ (omega arith) in
      rw (before, slots_loop)
        (Ensures-bind _ _ λ t e'.
          slots_loop-IsWellFormed fuel slot (n + 1) t (omega arith)
            ((advance_slot-IsWellFormed n s h).at t e'))

  process_slots-Ensures :
      (slot : Slot) (s : BeaconState)
      → IsWellFormed config s.slot s
      → Ensures (IsWellFormed config slot) (process_slots ext s slot config)
  unfolding process_slots
  process_slots-Ensures slot s h = Ensures-bind _ _ λ _ checked.
      let ahead = ltb→ge slot s.slot (raise_if-eq-ok _ _ checked) in
      slots_loop-IsWellFormed (slot - s.slot) slot s.slot s (omega arith) h

  apply_block-Ensures :
      (s : BeaconState) (b : SignedBeaconBlock) (check : Bool)
      → IsWellFormed config s.slot s
      → Ensures (IsWellFormed config b.message.slot) (apply_block ext config s b check)
  unfolding apply_block
  apply_block-Ensures s b check h = Ensures-bind _ _ λ t e. Ensures-bind _ _ λ _ _.
      process_block-IsWellFormed ext config b.message.slot t b.message
        ((process_slots-Ensures b.message.slot s h).at t e)

module _ (ext : Extern) (config : Eth2Config) (s t : BeaconState)
    (h : IsWellFormed config s.slot s) where
  -- `process_slots` from a well-formed state, where it returns, returns a well-formed state at
  -- exactly the slot that was asked for.
  pub process_slots-IsWellFormed :
      (slot : Slot) → process_slots ext s slot config ≡ ok t → IsWellFormed config slot t
  process_slots-IsWellFormed slot e = (process_slots-Ensures ext config slot s h).at t e

  -- A state transition with a block, where it is accepted, leads from a well-formed state to a
  -- well-formed state at the block's slot, whether or not the signature is checked.
  pub apply_state_transition-IsWellFormed :
      (b : SignedBeaconBlock) (future_slot : Option Slot) (check : Bool)
      → apply_state_transition ext config s (some b) future_slot check ≡ ok t
      → IsWellFormed config b.message.slot t
  unfolding apply_state_transition
  apply_state_transition-IsWellFormed b future_slot check e =
      (apply_block-Ensures ext config s b check h).at t e
