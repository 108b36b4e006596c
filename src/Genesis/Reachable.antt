-- ===== src/Genesis/Reachable.antt =====
-- The states that a chain can reach from genesis.
use trinity_eth.Base.{>>=-eq-ok, ℕ, ◌≡◌, sym, subst, Bool, Option, none, some, List, ok}
use trinity_eth.Types.{Slot, Hash32, Deposit, BeaconState, SignedBeaconBlock, Eth2Config}
use trinity_eth.Extern.{Extern}
use trinity_eth.Invariant.{IsWellFormed}
use trinity_eth.Slots.{apply_state_transition}
use trinity_eth.Slots.WellFormed.{process_slots-IsWellFormed, apply_state_transition-IsWellFormed}
use trinity_eth.Genesis.{initialize_beacon_state_from_eth1}
use trinity_eth.Genesis.WellFormed.{initialize_beacon_state_from_eth1-IsGenesis}

module _ (ext : Extern) (config : Eth2Config) where
  pub data Reachable : BeaconState → Type 0 where
    from_genesis :
        (eth1_block_hash : Hash32) (eth1_timestamp : ℕ) (deposits : List Deposit) (s : BeaconState)
        → initialize_beacon_state_from_eth1 ext config eth1_block_hash eth1_timestamp deposits
          ≡ ok s
        → Reachable s
    by_transition :
        (s t : BeaconState) (b : Option SignedBeaconBlock) (future_slot : Option Slot)
        (check : Bool)
        → Reachable s
        → apply_state_transition ext config s b future_slot check ≡ ok t
        → Reachable t

  own_slot : (n : Slot) (s : BeaconState) → IsWellFormed config n s → IsWellFormed config s.slot s
  own_slot n s h = subst (λ k. IsWellFormed config k s) (sym h.at_slot) h

  transition-IsWellFormed :
      (s t : BeaconState) (b : Option SignedBeaconBlock) (future_slot : Option Slot) (check : Bool)
      → IsWellFormed config s.slot s
      → apply_state_transition ext config s b future_slot check ≡ ok t
      → IsWellFormed config t.slot t
  unfolding apply_state_transition
  transition-IsWellFormed s t none future_slot check h e =
      let (slot, known, run) = >>=-eq-ok _ _ e in
      own_slot slot t (process_slots-IsWellFormed ext config s t h slot run)
  transition-IsWellFormed s t (some b) future_slot check h e =
      own_slot b.message.slot t
        (apply_state_transition-IsWellFormed ext config s t h b future_slot check e)

  -- Every state that a chain reaches from a genesis state by state transitions, with or without
  -- blocks, has the shape of a beacon state at its own slot.
  pub Reachable-IsWellFormed : {s : BeaconState} → Reachable s → IsWellFormed config s.slot s
  Reachable-IsWellFormed (from_genesis h k deposits s e) =
      own_slot 0 s (initialize_beacon_state_from_eth1-IsGenesis ext config h k deposits s e).shape
  Reachable-IsWellFormed (by_transition s t b future_slot check reached e) =
      transition-IsWellFormed s t b future_slot check (Reachable-IsWellFormed reached) e
