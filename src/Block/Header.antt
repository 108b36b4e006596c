-- ===== src/Block/Header.antt =====
-- At most one block is accepted at a slot.
use trinity_eth.Base.{
  ◌≡◌, refl, ap, ◌==◌, Bool-cases, inl, inr, ok, raise, raise_if-eq-ok, ==→eq, le→leb, ok_injective,
  ◌>>=◌, >>=-eq-ok, validation_error, arith,
}
use trinity_eth.Types.{BeaconState, BeaconBlock, Eth2Config}
use trinity_eth.Extern.{Extern}
use trinity_eth.Block.Validation.{validate_block_slot, validate_block_is_new}
use trinity_eth.Block.{process_block_header}

module _ (ext : Extern) (config : Eth2Config) where
  processed_slot :
      (s t : BeaconState) (block : BeaconBlock)
      → process_block_header ext s block config ≡ ok t
      → t.latest_block_header.slot ≡ t.slot
  unfolding process_block_header validate_block_slot
  processed_slot s t block e0 =
      let (_, on_slot, e1) = >>=-eq-ok _ _ e0 in
      let (_, _, e2) = >>=-eq-ok _ _ e1 in
      let (_, _, e3) = >>=-eq-ok _ _ e2 in
      let (_, _, e4) = >>=-eq-ok _ _ e3 in
      let (_, _, e5) = >>=-eq-ok _ _ e4 in
      let same = ok_injective e5 in
      let slot : s.slot ≡ t.slot = ap (λ r. r.slot) same in
      let latest : block.slot ≡ t.latest_block_header.slot =
        ap (λ r. r.latest_block_header.slot) same in
      let at_slot = raise_if-eq-ok _ _ on_slot in ground arith

  rejected :
      (t : BeaconState) (other : BeaconBlock)
      → t.latest_block_header.slot ≡ t.slot
      → process_block_header ext t other config ≡ raise validation_error
  unfolding process_block_header validate_block_slot validate_block_is_new ◌>>=◌
  rejected t other latest = elim (Bool-cases (other.slot == t.slot)) [
    | inl on_slot ↦
        let same = ==→eq other.slot t.slot on_slot in
        rw on_slot (rw (le→leb other.slot t.latest_block_header.slot (omega arith)) refl)
    | inr off_slot ↦ rw off_slot refl
  ]

  -- Once a block's header is processed, the header of any block, the same or another, is rejected
  -- with a validation error by the state that results.
  pub process_block_header_once :
      (s t : BeaconState) (block other : BeaconBlock)
      → process_block_header ext s block config ≡ ok t
      → process_block_header ext t other config ≡ raise validation_error
  process_block_header_once s t block other e = rejected t other (processed_slot s t block e)
