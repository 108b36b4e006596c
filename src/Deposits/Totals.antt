-- ===== src/Deposits/Totals.antt =====
-- What a deposit does to the balances.
use trinity_eth.Base.{
  ℕ, ◌+◌, ◌≡◌, sym, ap, subst, ◌⊎◌, inl, inr, false, not, [], ◌∷◌, none, Option-cases, if-eq-ok,
  sum, sum-append, sum-update_at, ok, >>=-eq-ok, ok_injective, arith,
}
use trinity_eth.Types.{Deposit, BeaconState, Eth2Config, find_public_key}
use trinity_eth.Extern.{Extern}
use trinity_eth.EpochHelpers.{increase_balance}
use trinity_eth.Deposits.{
  append_validator, apply_deposit, process_deposit, is_valid_proof_of_possession,
}

module _ (ext : Extern) (config : Eth2Config) where
  -- The deposit is skipped: its key is new, and its proof of possession is not valid.
  pub record IsSkipped (s : BeaconState) (deposit : Deposit) (t : BeaconState) : Type 0 where
    pub unknown : find_public_key deposit.deposited.pubkey s.validators 0 ≡ none
    pub unproved : is_valid_proof_of_possession ext deposit config ≡ false
    pub same_balances : t.balances ≡ s.balances
    pub same_validators : t.validators ≡ s.validators

  increase_balance_total :
      (s t : BeaconState) (i amount : ℕ)
      → increase_balance s i amount ≡ ok t
      → (sum t.balances ≡ sum s.balances + amount) × (t.eth1_deposit_index ≡ s.eth1_deposit_index)
  unfolding increase_balance
  increase_balance_total s t i amount e =
      let (balances, updated, done) = >>=-eq-ok _ _ e in
      let same = ok_injective done in
      (
        subst (λ r. sum r.balances ≡ sum s.balances + amount) same
            (sum-update_at s.balances i amount updated),
        ap (λ r. r.eth1_deposit_index) (sym same),
      )

  -- A deposit that is accepted moves the index of the next deposit on by one, and either adds
  -- exactly its amount to the sum of the balances, or is skipped, which happens only to a new key
  -- without a valid proof of possession.
  pub process_deposit_total :
      (s t : BeaconState) (deposit : Deposit)
      → process_deposit ext s deposit config ≡ ok t
      → (t.eth1_deposit_index ≡ s.eth1_deposit_index + 1)
        × ((sum t.balances ≡ sum s.balances + deposit.deposited.amount) ⊎ IsSkipped s deposit t)
  unfolding process_deposit append_validator
  process_deposit_total s t deposit e =
      let (_, _, rest) = >>=-eq-ok _ _ e in
      elim (Option-cases (find_public_key deposit.deposited.pubkey s.validators 0)) [
        | inl absent ↦
            elim (if-eq-ok (not (is_valid_proof_of_possession ext deposit config)) _ _
              (rw (absent, apply_deposit) at rest)) [
                | inl (bad, done) ↦
                    let same = ok_injective done in
                    (
                      ap (λ r. r.eth1_deposit_index) (sym same),
                      inr (record {
                        unknown = absent;
                        unproved = ground arith;
                        same_balances = ap (λ r. r.balances) (sym same);
                        same_validators = ap (λ r. r.validators) (sym same);
                      }),
                    )
                | inr (good, done) ↦
                    let same = ok_injective done in
                    let total = sum-append s.balances (deposit.deposited.amount ∷ []) in
                    (
                      ap (λ r. r.eth1_deposit_index) (sym same),
                      inl (
                          subst (λ r. sum r.balances ≡ sum s.balances + deposit.deposited.amount)
                            same (omega arith)),
                    )
              ]
        | inr (i, found) ↦
            let (total, kept) =
              increase_balance_total _ t i _ (rw (found, apply_deposit) at rest) in
            (kept, inl total)
      ]
