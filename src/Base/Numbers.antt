-- ===== src/Base/Numbers.antt =====
-- A JavaScript number that is an integer or no finite number at all. `Math.round` is the identity on
-- the first, and the tests on the second are `Number.isFinite` and `Number.isInteger`.
use Prim.Native.Nat.{ℕ}

pub data Number : Type 0 where
  not_finite : Number
  negative : ℕ → Number
  natural : ℕ → Number
