-- ===== src/Epoch/Final/Hysteresis.antt =====
-- The loop over the effective balances, index by index.
use trinity_eth.Base.{
  ℕ, zero, suc, ◌+◌, ◌*◌, ◌/◌, ◌≤◌, ◌<◌, ◌≡◌, ◌≢◌, refl, sym, ap, ◌∙◌, max, inl, inr, if◌then◌else◌,
  if-eq-ok, some, List, [], ◌∷◌, get_elem?, get_elem?_unique, get_elem?-update_at,
  get_elem?-update_at_other, enumerate_from, ok, index-some, >>=-eq-ok, ok_injective, fold_list,
  arith, subst, ◌⊎◌, Bool-cases,
}
use native.Mathlib.Nat.{div-add-mod', mod-lt, suc-mul}
use trinity_eth.Types.{Gwei, Validator, BeaconState, Eth2Config, calculate_effective_balance}
use trinity_eth.Epoch.Final.{leaves_band, update_effective_balance, update_effective_balances}

abbrev rebalanced : Eth2Config → Gwei → Validator → Validator
rebalanced config balance v = record v {
  effective_balance = calculate_effective_balance balance config;
}

-- The validator with the effective balance that its balance calls for.
abbrev pub settled : Eth2Config → Gwei → Validator → Validator
settled config balance v =
    if leaves_band config balance v.effective_balance then rebalanced config balance v else v

module _ (s : BeaconState) (config : Eth2Config) where
  update_other :
      (vs : List Validator) (k i : ℕ) (x : Validator) {ws : List Validator}
      → update_effective_balance s config vs (k, x) ≡ ok ws
      → k ≢ i
      → get_elem? ws i ≡ get_elem? vs i
  unfolding update_effective_balance
  update_other vs k i x e differ =
      let (b, _, rest) = >>=-eq-ok _ _ e in
      elim (if-eq-ok (leaves_band config b x.effective_balance) _ (ok vs) rest) [
        | inl (_, updated) ↦ get_elem?-update_at_other vs k i _ updated differ
        | inr (_, kept) ↦ ap (λ l. get_elem? l i) (sym (ok_injective kept))
      ]

  update_same :
      (vs : List Validator) (k : ℕ) (x : Validator) (b : Gwei) {ws : List Validator}
      → update_effective_balance s config vs (k, x) ≡ ok ws
      → get_elem? s.balances k ≡ some b
      → get_elem? vs k ≡ some x
      → get_elem? ws k ≡ some (settled config b x)
  unfolding update_effective_balance
  update_same vs k x b {ws} e at_k here =
      let (b', read, rest) = >>=-eq-ok _ _ e in
      let same = get_elem?_unique s.balances k (index-some s.balances k read) at_k in
      subst (λ c. get_elem? ws k ≡ some (settled config c x)) same
        (elim (if-eq-ok (leaves_band config b' x.effective_balance) _ (ok vs) rest) [
          | inl (leaves, updated) ↦
              let (y, old, new) = get_elem?-update_at vs k _ updated in
              let one = get_elem?_unique vs k old here in
              rw leaves (new ∙ ap (λ w. some (rebalanced config b' w)) one)
          | inr (stays, kept) ↦ rw stays (ap (λ l. get_elem? l k) (sym (ok_injective kept)) ∙ here)
        ])

  rest_other :
      (xs vs : List Validator) (k i : ℕ) {ws : List Validator}
      → fold_list (enumerate_from k xs) (update_effective_balance s config) vs ≡ ok ws
      → i < k
      → get_elem? ws i ≡ get_elem? vs i
  unfolding fold_list
  rest_other [] vs k i e h = ap (λ l. get_elem? l i) (sym (ok_injective e))
  rest_other (x ∷ xs) vs k i e h =
      let (us, first, rest) = >>=-eq-ok _ _ e in
      rest_other xs us (suc k) i rest (omega arith) ∙ update_other vs k i x first (omega arith)

  fold_at :
      (xs vs : List Validator) (k j p : ℕ) (v : Validator) (b : Gwei) {ws : List Validator}
      → fold_list (enumerate_from k xs) (update_effective_balance s config) vs ≡ ok ws
      → p ≡ k + j
      → get_elem? xs j ≡ some v
      → get_elem? s.balances p ≡ some b
      → get_elem? vs p ≡ some v
      → get_elem? ws p ≡ some (settled config b v)
  unfolding fold_list
  fold_at [] vs k j p v b e at in_xs in_balances in_vs = cc
  fold_at (x ∷ xs) vs k zero p v b e at in_xs in_balances in_vs =
      let (us, first, rest) = >>=-eq-ok _ _ e in
      let here : p ≡ k = omega arith in
      let same : x ≡ v = get_elem?_unique (x ∷ xs) 0 refl in_xs in
      let done =
        update_same vs k x b first (rw here at in_balances)
          (rw here at in_vs ∙ ap some (sym same)) in
      rest_other xs us (suc k) p rest (omega arith)
      ∙ subst (λ q. get_elem? us q ≡ some (settled config b v)) (sym here)
          (done ∙ ap (λ w. some (settled config b w)) same)
  fold_at (x ∷ xs) vs k (suc j) p v b e at in_xs in_balances in_vs =
      let (us, first, rest) = >>=-eq-ok _ _ e in
      fold_at xs us (suc k) j p v b rest (omega arith) in_xs in_balances
        (update_other vs k p x first (omega arith) ∙ in_vs)

-- The balance `b` rounded down to a whole number of increments, and capped at the maximum.
abbrev pub IsRounded : Eth2Config → Gwei → Gwei → Type 0
IsRounded config b rounded =
    (count : ℕ) × (count * config.effective_balance_increment ≤ b)
    × (b < suc count * config.effective_balance_increment)
    × (((rounded ≡ count * config.effective_balance_increment)
          × (rounded ≤ config.max_effective_balance))
        ⊎ ((rounded ≡ config.max_effective_balance)
            × (rounded < count * config.effective_balance_increment)))

-- The width of the band on a side with a multiplier.
abbrev pub margin : Eth2Config → ℕ → Gwei
margin config multiplier =
    config.effective_balance_increment / config.hysteresis_quotient * multiplier

-- What the update of the effective balances leaves at an index with validator `v` and balance `b`.
pub record SettledAt (config : Eth2Config) (v : Validator) (b : Gwei) (vs : List Validator) (i : ℕ)
    : Type 0 where
  pub effective : Gwei
  pub found : get_elem? vs i ≡ some (record v { effective_balance = effective })
  pub banded :
      ((v.effective_balance ≤ b + margin config config.hysteresis_downward_multiplier)
        × (b ≤ v.effective_balance + margin config config.hysteresis_upward_multiplier)
        × (effective ≡ v.effective_balance))
      ⊎ (((b + margin config config.hysteresis_downward_multiplier < v.effective_balance)
            ⊎ (v.effective_balance + margin config config.hysteresis_upward_multiplier < b))
          × IsRounded config b effective)
  pub capped : effective ≤ max v.effective_balance config.max_effective_balance
  pub backed : effective ≤ b + margin config config.hysteresis_downward_multiplier

calculate_effective_balance-IsRounded :
    (config : Eth2Config) (b : Gwei)
    → 1 ≤ config.effective_balance_increment
    → IsRounded config b (calculate_effective_balance b config)
calculate_effective_balance-IsRounded config b positive =
    let count = b / config.effective_balance_increment in
    let whole = div-add-mod' b config.effective_balance_increment in
    let part = mod-lt b {m = config.effective_balance_increment} (omega arith) in
    let next = suc-mul count config.effective_balance_increment in
    (count, omega arith, omega arith, ground arith)

-- The two cases of a validator's new effective balance.
settled-SettledAt :
    (config : Eth2Config) (v : Validator) (b : Gwei) (vs : List Validator) (i : ℕ)
    → 1 ≤ config.effective_balance_increment
    → get_elem? vs i ≡ some (settled config b v)
    → SettledAt config v b vs i
settled-SettledAt config v b vs i positive at =
    elim (Bool-cases (leaves_band config b v.effective_balance)) [
      | inl leaves ↦
          let rounded = calculate_effective_balance-IsRounded config b positive in
          record {
            effective = calculate_effective_balance b config;
            found = rw leaves at at;
            banded = inr (ground arith, rounded);
            capped = ground arith;
            backed = ground arith;
          }
      | inr stays ↦ record {
        effective = v.effective_balance;
        found = rw stays at at;
        banded = inl (ground arith, ground arith, refl);
        capped = ground arith;
        backed = ground arith;
      }
    ]

-- Where the increment of effective balances is at least one and the update of the effective
-- balances returns, a validator whose effective balance is at most the downward margin above its
-- balance, and whose balance is at most the upward margin above its effective balance, keeps its
-- effective balance, and any other gets its balance rounded down to a whole number of increments
-- and capped at the maximum; no effective balance is above the larger of its old value and the
-- maximum, nor above the balance by more than the downward margin.
pub update_effective_balances-SettledAt :
    (s : BeaconState) (config : Eth2Config) (vs : List Validator) (i : ℕ) (v : Validator) (b : Gwei)
    → 1 ≤ config.effective_balance_increment
    → update_effective_balances s config ≡ ok vs
    → get_elem? s.validators i ≡ some v
    → get_elem? s.balances i ≡ some b
    → SettledAt config v b vs i
unfolding update_effective_balances
update_effective_balances-SettledAt s config vs i v b positive e in_validators in_balances =
    settled-SettledAt config v b vs i positive (
      fold_at s config s.validators s.validators 0 i i v b e (omega arith) in_validators in_balances
        in_validators)
