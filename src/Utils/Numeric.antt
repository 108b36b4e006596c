-- ===== src/Utils/Numeric.antt =====
-- eth2/_utils/numeric.py, `integer_squareroot`. The source takes the root of a decimal with 128
-- digits, which is more than the 78 digits of a 256-bit number need, and drops the fraction.
use trinity_eth.Base.{ℕ, zero, suc, ◌+◌, ◌*◌, ◌<◌, ◌≤◌, leb, if◌then◌else◌, arith}

-- The largest number whose square is at most `value`.
unfoldable pub integer_squareroot : ℕ → ℕ
integer_squareroot zero = 0
integer_squareroot (suc n) =
    let r = integer_squareroot n in if leb ((r + 1) * (r + 1)) (suc n) then r + 1 else r

square_bounds :
    (n r : ℕ)
    → r * r ≤ n
    → n < (r + 1) * (r + 1)
    → let s = if leb ((r + 1) * (r + 1)) (suc n) then r + 1 else r in
      (s * s ≤ suc n) × (suc n < (s + 1) * (s + 1))
square_bounds n r lower upper = grind arith

-- The root, squared, is at most the value, and the square of the next number is above it.
pub integer_squareroot_bounds :
    (n : ℕ)
    → (integer_squareroot n * integer_squareroot n ≤ n)
      × (n < (integer_squareroot n + 1) * (integer_squareroot n + 1))
unfolding integer_squareroot
integer_squareroot_bounds zero = omega arith
integer_squareroot_bounds (suc n) =
    let (lower, upper) = integer_squareroot_bounds n in
    square_bounds n (integer_squareroot n) lower upper

-- The root is positive where the value is.
pub integer_squareroot_pos : (n : ℕ) → 0 < n → 0 < integer_squareroot n
integer_squareroot_pos n h = grind (arith, integer_squareroot_bounds n)
