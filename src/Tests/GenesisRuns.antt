-- ===== src/Tests/GenesisRuns.antt =====
-- A chain from a genesis with two deposits.
use trinity_eth.Base.{
  replicate, range, fold_list, get_ok, ℕ, ◌≡◌, refl, true, none, some, List, [], ◌∷◌, ok,
}
use trinity_eth.Types.{BeaconState, Deposit}
use trinity_eth.Extern.{Extern}
use trinity_eth.Invariant.{IsWellFormed}
use trinity_eth.Utils.Merkle.{branch_value}
use trinity_eth.Slots.{apply_state_transition}
use trinity_eth.Genesis.{initialize_beacon_state_from_eth1}
use trinity_eth.Genesis.WellFormed.{IsGenesis, initialize_beacon_state_from_eth1-IsGenesis}
use trinity_eth.Genesis.Reachable.{from_genesis, by_transition, Reachable-IsWellFormed}
use trinity_eth.Tests.Running.{run}
use trinity_eth.Tests.Fixtures.{ext, config, root_of, state}

abbrev branch : List (List ℕ)
branch = replicate 33 (root_of 1)

abbrev deposit_of : ℕ → ℕ → Deposit
deposit_of key amount = record {
  proof = branch;
  deposited = record {
    pubkey = replicate 48 key;
    withdrawal_credentials = root_of 3;
    amount = amount;
    signature = replicate 96 key;
  };
}

abbrev deposits : List Deposit
deposits = deposit_of 1 32 ∷ deposit_of 2 7 ∷ []

-- The root of the deposits is that of the branch.
abbrev genesis_ext : Extern
genesis_ext = record ext {
  deposit_data_list_root =
      λ ds. get_ok [] (fold_list (range 0 33) (branch_value ext.sha256 branch 0) (root_of 7));
}

abbrev genesis_state : BeaconState
genesis_state =
    get_ok state (initialize_beacon_state_from_eth1 genesis_ext config (root_of 9) 100 deposits)

genesis_state_lem :
    initialize_beacon_state_from_eth1 genesis_ext config (root_of 9) 100 deposits ≡ ok genesis_state
unfolding run
genesis_state_lem = refl

initialize_beacon_state_from_eth1-IsGenesis_example : IsGenesis genesis_ext config 2 genesis_state
initialize_beacon_state_from_eth1-IsGenesis_example =
    initialize_beacon_state_from_eth1-IsGenesis genesis_ext config (root_of 9) 100 deposits
      genesis_state genesis_state_lem

abbrev later_state : BeaconState
later_state =
    get_ok state (apply_state_transition genesis_ext config genesis_state none (some 2) true)

later_state_lem :
    apply_state_transition genesis_ext config genesis_state none (some 2) true ≡ ok later_state
unfolding run
later_state_lem = refl

Reachable-IsWellFormed_example : IsWellFormed config later_state.slot later_state
Reachable-IsWellFormed_example = Reachable-IsWellFormed genesis_ext config (
    by_transition genesis_state later_state none (some 2) true
      (from_genesis (root_of 9) 100 deposits genesis_state genesis_state_lem) later_state_lem)
