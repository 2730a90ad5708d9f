-- ===== src/Base/Float64.antt =====
-- Go's `float64`, which the development does not implement: a type with the operations that the
-- program uses on amounts in USD, and the laws of IEEE 754 comparison that some theorems need.
use mathlib.Core.Path.{◌≡◌}
use mathlib.Core.Bool.{Bool, true, false}
use Prim.Native.Nat.{ℕ}
use agent_ledger.Base.Int.{ℤ}

pub record Float64 : Type 1 where
  pub Carrier : Type 0
  pub add : Carrier → Carrier → Carrier
  pub sub : Carrier → Carrier → Carrier
  pub mul : Carrier → Carrier → Carrier
  pub div : Carrier → Carrier → Carrier
  pub of_int : ℤ → Carrier
  -- The constant nearest to a number of thousandths.
  pub milli : ℕ → Carrier
  pub lt : Carrier → Carrier → Bool
  pub le : Carrier → Carrier → Bool

-- These hold of every pair of floats, NaN included, on which both comparisons are false.
pub record IsOrdered (f : Float64) : Type 0 where
  pub le_trans : (a b c : f.Carrier) → f.le a b ≡ true → f.le b c ≡ true → f.le a c ≡ true
  pub lt-le : (a b : f.Carrier) → f.lt a b ≡ true → f.le b a ≡ false
  pub le_of_lt : (a b : f.Carrier) → f.lt a b ≡ true → f.le a b ≡ true
