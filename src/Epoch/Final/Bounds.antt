-- ===== src/Epoch/Final/Bounds.antt =====
-- The penalty of a slashed validator is bounded by its effective balance.
use trinity_eth.Base.{
  ◌*◌, ◌/◌, ◌≤◌, ◌≡◌, subst, min, ok, >>=-eq-ok, ok_injective, floor_div-eq-ok, div_mono, arith,
}
use native.Mathlib.Nat.{div-mul-le_self, mul-le-mul, mul-div_cancel, le_trans}
use trinity_eth.Types.{Gwei}
use trinity_eth.Epoch.Final.{determine_slashing_penalty}

-- A slashing penalty that is determined is at most the effective balance.
pub determine_slashing_penalty-le :
    (total_penalties total_balance balance increment : Gwei) {penalty : Gwei}
    → determine_slashing_penalty total_penalties total_balance balance increment ≡ ok penalty
    → penalty ≤ balance
unfolding determine_slashing_penalty
determine_slashing_penalty-le total_penalties total_balance balance increment e =
    let (increments, e1, r1) = >>=-eq-ok _ _ e in
    let (parts, e2, r2) = >>=-eq-ok _ _ r1 in
    let (_, q1) = floor_div-eq-ok _ _ e1 in
    let (positive, q2) = floor_div-eq-ok _ _ e2 in
    let capped : min (total_penalties * 3) total_balance ≤ total_balance = omega arith in
    let scaled : increments * min (total_penalties * 3) total_balance ≤ increments * total_balance =
      mul-le-mul (omega arith) capped in
    let below = div_mono total_balance positive scaled in
    let whole = mul-div_cancel increments positive in
    let few : parts ≤ balance / increment = omega arith in
    let product : parts * increment ≤ balance / increment * increment =
      mul-le-mul few (omega arith) in
    subst (λ p. p ≤ balance) (ok_injective r2)
      (le_trans product (div-mul-le_self balance increment))
