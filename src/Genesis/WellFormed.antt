-- ===== src/Genesis/WellFormed.antt =====
-- The genesis state has the shape of a beacon state, and counts its deposits.
use trinity_eth.Base.{
  Ensures-ok, Ensures-bind, Ensures-fold, length-update_at, Ensures, length, length-replicate, sum,
  range, ℕ, ◌+◌, ◌≡◌, refl, ap, subst, ◌∙◌, List, [], ◌∷◌, arith, ok,
}
use trinity_eth.Types.{Hash32, Deposit, BeaconState, Eth2Config}
use trinity_eth.Extern.{Extern}
use trinity_eth.Invariant.{IsWellFormed}
use trinity_eth.Deposits.{process_deposit}
use trinity_eth.Deposits.WellFormed.{process_deposit-IsWellFormed}
use trinity_eth.Deposits.Totals.{process_deposit_total}
use trinity_eth.Genesis.{
  empty_genesis_state, genesis_deposits, genesis_validator, genesis_activation,
  initialize_beacon_state_from_eth1,
}

module _ (ext : Extern) (config : Eth2Config) where
  -- A state of the right shape at slot 0 that has gone through some deposits.
  pub record IsGenesis (count : ℕ) (s : BeaconState) : Type 0 where
    pub shape : IsWellFormed config 0 s
    pub deposits : s.eth1_deposit_index ≡ count

  empty_genesis_state-IsGenesis :
      (eth1_block_hash : Hash32) (eth1_timestamp : ℕ) (deposits : List Deposit)
      → IsGenesis 0 (empty_genesis_state ext config eth1_block_hash eth1_timestamp deposits)
  empty_genesis_state-IsGenesis eth1_block_hash eth1_timestamp deposits = record {
    shape = record {
      at_slot = refl;
      block_roots = length-replicate _ _;
      state_roots = length-replicate _ _;
      randao_mixes = length-replicate _ _;
      slashings = length-replicate _ _;
      balances = refl;
      justification_bits = refl;
    };
    deposits = refl;
  }

  process_deposit-IsGenesis :
      (count : ℕ) (s : BeaconState) (deposit : Deposit)
      → IsGenesis count s
      → Ensures (IsGenesis (count + 1)) (process_deposit ext s deposit config)
  process_deposit-IsGenesis count s deposit h = record {
    at = λ t e. record {
      shape = (process_deposit-IsWellFormed ext config 0 s deposit h.shape).at t e;
      deposits = (process_deposit_total ext config s t deposit e).0 ∙ ap (λ k. k + 1) h.deposits;
    };
  }

  genesis_deposits-IsGenesis :
      (count total : ℕ) (s : BeaconState) (before deposits : List Deposit)
      → count + length deposits ≡ total
      → IsGenesis count s
      → Ensures (IsGenesis total) (genesis_deposits ext config s before deposits)
  unfolding genesis_deposits
  genesis_deposits-IsGenesis count total s before [] sum h =
      Ensures-ok s (subst (λ k. IsGenesis k s) (omega arith) h)
  genesis_deposits-IsGenesis count total s before (deposit ∷ deposits) sum h =
      Ensures-bind _ _ λ next e.
        genesis_deposits-IsGenesis (count + 1) total next _ deposits (omega arith) (
          (process_deposit-IsGenesis count _ deposit
              (let shape = h.shape in record { shape = ground arith; deposits = h.deposits })).at
            next e)

  genesis_activation-IsGenesis :
      (count : ℕ) (s : BeaconState) (i : ℕ)
      → IsGenesis count s
      → Ensures (IsGenesis count) (genesis_activation ext config s i)
  unfolding genesis_activation
  genesis_activation-IsGenesis count s i h = Ensures-bind _ _ λ balance _.
      Ensures-bind _ _ λ validators e.
        let same =
          (length-update_at s.validators i (genesis_validator ext config balance)).at validators
            e in
        let shape = h.shape in Ensures-ok _ (record { shape = ground arith; deposits = h.deposits })

  initialize-Ensures :
      (eth1_block_hash : Hash32) (eth1_timestamp : ℕ) (deposits : List Deposit)
      → Ensures
          (IsGenesis (length deposits))
          (initialize_beacon_state_from_eth1 ext config eth1_block_hash eth1_timestamp deposits)
  unfolding initialize_beacon_state_from_eth1
  initialize-Ensures eth1_block_hash eth1_timestamp deposits =
      let start = empty_genesis_state-IsGenesis eth1_block_hash eth1_timestamp deposits in
      Ensures-bind _ _ λ deposited e.
        let filled =
          (genesis_deposits-IsGenesis 0 (length deposits) _ [] deposits (omega arith) start).at
            deposited e in
        Ensures-bind _ _ λ s' e'.
          let active =
            (Ensures-fold (range 0 (length deposited.validators)) (genesis_activation ext config)
                deposited filled (λ t i h. genesis_activation-IsGenesis (length deposits) t i h)).at
              s' e' in
          let shape = active.shape in
          Ensures-ok _ (record { shape = ground arith; deposits = active.deposits })

  -- A genesis state that initialize_beacon_state_from_eth1 returns has the shape of a beacon
  -- state at slot 0, and its deposit index is the number of the deposits.
  pub initialize_beacon_state_from_eth1-IsGenesis :
      (eth1_block_hash : Hash32) (eth1_timestamp : ℕ) (deposits : List Deposit) (s : BeaconState)
      → initialize_beacon_state_from_eth1 ext config eth1_block_hash eth1_timestamp deposits ≡ ok s
      → IsGenesis (length deposits) s
  initialize_beacon_state_from_eth1-IsGenesis eth1_block_hash eth1_timestamp deposits s e =
      (initialize-Ensures eth1_block_hash eth1_timestamp deposits).at s e
