-- ===== src/Base/Int.antt =====
-- Python's signed integers, where a difference may be negative.
use trinity_eth.Base.Tests.{leb, ltb, if◌then◌else◌}
use Prim.Native.Nat.{ℕ, suc, ◌+◌, ◌-◌}
use mathlib.Core.Path.{◌≡◌}
use mathlib.Core.Bool.{Bool}
use native.Mathlib.Omega.{arith}

-- `negsuc n` is -(n + 1).
pub data ℤ : Type 0 where
  pos : ℕ → ℤ
  negsuc : ℕ → ℤ

abbrev pub pos_part : ℤ → ℕ
pos_part (pos n) = n
pos_part (negsuc n) = 0

abbrev pub neg_part : ℤ → ℕ
neg_part (pos n) = 0
neg_part (negsuc n) = suc n

-- `a - b` of two non-negative integers.
abbrev pub sub_ℕ : ℕ → ℕ → ℤ
sub_ℕ a b = if leb b a then pos (a - b) else negsuc (b - a - 1)

abbrev pub ltb_ℤ : ℤ → ℤ → Bool
ltb_ℤ a b = ltb (pos_part a + neg_part b) (pos_part b + neg_part a)

abbrev pub leb_ℤ : ℤ → ℤ → Bool
leb_ℤ a b = leb (pos_part a + neg_part b) (pos_part b + neg_part a)

infixl 65 ◌+ℤ◌ ◌-ℤ◌
unfoldable pub ◌+ℤ◌ : ℤ → ℤ → ℤ
x +ℤ y = sub_ℕ (pos_part x + pos_part y) (neg_part x + neg_part y)

unfoldable pub ◌-ℤ◌ : ℤ → ℤ → ℤ
x -ℤ y = sub_ℕ (pos_part x + neg_part y) (neg_part x + pos_part y)

-- What the parts of a sum and of a difference are, so that both can stay shut.
pub +ℤ_parts :
    (x y : ℤ)
    → pos_part (x +ℤ y) + neg_part x + neg_part y ≡ neg_part (x +ℤ y) + pos_part x + pos_part y
unfolding ◌+ℤ◌
+ℤ_parts x y = ground arith

pub -ℤ_parts :
    (x y : ℤ)
    → pos_part (x -ℤ y) + neg_part x + pos_part y ≡ neg_part (x -ℤ y) + pos_part x + neg_part y
unfolding ◌-ℤ◌
-ℤ_parts x y = ground arith

pub ℤ_of_parts : (x y : ℤ) → pos_part x + neg_part y ≡ pos_part y + neg_part x → x ≡ y
ℤ_of_parts x y h = ground arith

pub ruleset int_laws = (arith, +ℤ_parts, -ℤ_parts, ℤ_of_parts)
