-- ===== src/Slots/Stages.antt =====
-- The loop of `process_slots` without its fuel: it is the `while` loop, and it may stop and go on
-- at any slot between.
use trinity_eth.Base.{
  ℕ, zero, suc, ◌+◌, ◌-◌, ◌≤◌, ◌<◌, ◌≡◌, refl, sym, ap, ◌∙◌, lt→ltb, ge→ltb, Result, ok, raise,
  ◌>>=◌, arith,
}
use trinity_eth.Types.{Slot, BeaconState, Eth2Config}
use trinity_eth.Extern.{Extern}
use trinity_eth.Invariant.{IsWellFormed}
use trinity_eth.Slots.{advance_slot, slots_loop, process_slots}
use trinity_eth.Slots.WellFormed.{advance_slot-IsWellFormed}

>>=_cong :
    {A B : Type 0} (r : Result A) (f g : A → Result B)
    → ((a : A) → r ≡ ok a → f a ≡ g a)
    → (r >>= f) ≡ (r >>= g)
unfolding ◌>>=◌
>>=_cong (ok a) f g h = h a refl
>>=_cong (raise e) f g h = refl

>>=_assoc :
    {A B C : Type 0} (r : Result A) (f : A → Result B) (g : B → Result C)
    → (r >>= λ a. f a >>= g) ≡ ((r >>= f) >>= g)
unfolding ◌>>=◌
>>=_assoc (ok a) f g = refl
>>=_assoc (raise e) f g = refl

module _ (ext : Extern) (config : Eth2Config) where
  -- Where the target is not behind, the guard passes.
  unguarded :
      (s : BeaconState) (slot : Slot) (fuel : ℕ)
      → s.slot + fuel ≡ slot
      → process_slots ext s slot config ≡ slots_loop ext fuel config slot s
  unfolding process_slots ◌>>=◌
  unguarded s slot fuel e =
      let left : slot - s.slot ≡ fuel = omega arith in
      rw (ge→ltb slot s.slot (omega arith)) (rw left refl)

  process_slots_there : (s : BeaconState) → process_slots ext s s.slot config ≡ ok s
  unfolding slots_loop
  process_slots_there s =
      unguarded s s.slot 0 (omega arith) ∙ rw (ge→ltb s.slot s.slot (omega arith)) refl

  -- From a well-formed state behind the target, `process_slots` is one round of its loop, and then
  -- `process_slots` again: the errors are the same too.
  process_slots_step :
      (s : BeaconState) (slot : Slot)
      → IsWellFormed config s.slot s
      → s.slot < slot
      → process_slots ext s slot config
        ≡ (advance_slot ext config s >>= λ t. process_slots ext t slot config)
  unfolding slots_loop
  process_slots_step s slot h before =
      let fuel = slot - s.slot - 1 in
      let first = unguarded s slot (suc fuel) (omega arith) in
      let round : slots_loop ext (suc fuel) config slot s
          ≡ (advance_slot ext config s >>= slots_loop ext fuel config slot) =
        rw (lt→ltb _ _ before, slots_loop) refl in
      first
      ∙ round
      ∙ >>=_cong (advance_slot ext config s) _ _ λ t e.
        let ht = (advance_slot-IsWellFormed ext config s.slot s h).at t e in
        sym (unguarded t slot fuel (omega arith))

  stages :
      (k : ℕ) (s : BeaconState) (middle last : Slot)
      → IsWellFormed config s.slot s
      → s.slot + k ≡ middle
      → middle ≤ last
      → process_slots ext s last config
        ≡ (process_slots ext s middle config >>= λ t. process_slots ext t last config)
  unfolding ◌>>=◌
  stages zero s middle last h e later =
      let here : middle ≡ s.slot = omega arith in rw here (rw (process_slots_there s) refl)
  stages (suc k) s middle last h e later =
      process_slots_step s last h (omega arith)
      ∙ >>=_cong (advance_slot ext config s) _ _ (λ t et.
        let ht = (advance_slot-IsWellFormed ext config s.slot s h).at t et in
        stages k t middle last (ground arith) (omega arith) later)
      ∙ >>=_assoc (advance_slot ext config s) _ _
      ∙ ap (λ r. r >>= λ t. process_slots ext t last config)
          (sym (process_slots_step s middle h (omega arith)))

  -- From a well-formed state, to advance to a slot is to advance to any slot between first, and
  -- from there to the slot: with the same state, or the same error.
  pub process_slots_stages :
      (s : BeaconState) (middle last : Slot)
      → IsWellFormed config s.slot s
      → s.slot ≤ middle
      → middle ≤ last
      → process_slots ext s last config
        ≡ (process_slots ext s middle config >>= λ t. process_slots ext t last config)
  process_slots_stages s middle last h ahead later =
      stages (middle - s.slot) s middle last h (omega arith) later
