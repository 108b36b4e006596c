-- ===== src/Block/WellFormed.antt =====
-- Processing a block keeps the state's shape and slot.
use trinity_eth.Base.{Ensures, Ensures-ok, Ensures-bind, length-update_at, arith}
use trinity_eth.Types.{Slot, BeaconState, BeaconBlock, Eth2Config}
use trinity_eth.Extern.{Extern}
use trinity_eth.Invariant.{IsWellFormed}
use trinity_eth.Block.{process_block_header, process_randao, process_eth1_data, process_block}
use trinity_eth.Block.Operations.WellFormed.{process_operations-IsWellFormed}

module _ (ext : Extern) (config : Eth2Config) (n : Slot) (s : BeaconState) (block : BeaconBlock)
    (h : IsWellFormed config n s) where
  block_header-IsWellFormed :
      Ensures (IsWellFormed config n) (process_block_header ext s block config)
  unfolding process_block_header
  block_header-IsWellFormed = Ensures-bind _ _ λ _ _. Ensures-bind _ _ λ _ _.
      Ensures-bind _ _
        λ _ _. Ensures-bind _ _ λ _ _. Ensures-bind _ _ λ _ _. Ensures-ok _ (ground arith)

  randao-IsWellFormed : Ensures (IsWellFormed config n) (process_randao ext s block config)
  unfolding process_randao
  randao-IsWellFormed = Ensures-bind _ _ λ proposer _. Ensures-bind _ _ λ _ _.
      Ensures-bind _ _ λ mix _.
        Ensures-bind _ _
          λ mixes e. Ensures-ok _ (ground (arith, (length-update_at _ _ _).at mixes e))

  eth1_data-IsWellFormed : IsWellFormed config n (process_eth1_data ext s block config)
  unfolding process_eth1_data
  eth1_data-IsWellFormed = ground arith

pub process_block-IsWellFormed :
    (ext : Extern) (config : Eth2Config) (n : Slot) (s : BeaconState) (block : BeaconBlock)
    → IsWellFormed config n s
    → Ensures (IsWellFormed config n) (process_block ext s block config)
unfolding process_block
process_block-IsWellFormed ext config n s block h = Ensures-bind _ _ λ s1 e1.
    Ensures-bind _ _ λ s2 e2.
      let h1 = (block_header-IsWellFormed ext config n s block h).at s1 e1 in
      let h2 = (randao-IsWellFormed ext config n s1 block h1).at s2 e2 in
      process_operations-IsWellFormed ext config n _ block
        (eth1_data-IsWellFormed ext config n s2 block h2)
