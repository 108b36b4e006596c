-- ===== src/Utils/Bytes.antt =====
-- Python's `int.to_bytes` and `int.from_bytes` in little-endian order, and the exclusive or of
-- hashes in eth2/_utils/numeric.py.
use Prim.Native.Nat.{bit_xor}
use trinity_eth.Base.{
  ℕ, zero, suc, ◌+◌, ◌*◌, ◌/◌, ◌%◌, ◌^◌, ◌<◌, ◌≡◌, lt→ltb, [], ◌∷◌, ltb, if◌then◌else◌, Result, ok,
  raise, overflow_error,
}
use trinity_eth.Types.{Bytes, Hash32}

-- The first `count` digits to the base 256, lowest first.
abbrev pub little_endian : ℕ → ℕ → Bytes
little_endian n zero = []
little_endian n (suc count) = (n % 256) ∷ little_endian (n / 256) count

-- `n.to_bytes(count, "little")`
unfoldable pub to_bytes : ℕ → ℕ → Result Bytes
to_bytes n count = if ltb n (256 ^ count) then ok (little_endian n count) else raise overflow_error

pub to_bytes_lem : (n count : ℕ) → n < 256 ^ count → to_bytes n count ≡ ok (little_endian n count)
unfolding to_bytes
to_bytes_lem n count h = rw (lt→ltb n (256 ^ count) h)

-- `int.from_bytes(bs, "little")`
unfoldable pub from_bytes : Bytes → ℕ
from_bytes [] = 0
from_bytes (b ∷ bs) = b + 256 * from_bytes bs

-- `zip` stops at the shorter hash.
unfoldable pub bitwise_xor : Hash32 → Hash32 → Hash32
bitwise_xor [] bs = []
bitwise_xor (a ∷ as') [] = []
bitwise_xor (a ∷ as') (b ∷ bs) = bit_xor a b ∷ bitwise_xor as' bs
