-- ===== src/Base/FixedPoint.antt =====
-- Thousandths as an instance of the amounts' interface, for concrete inputs: products and
-- quotients are those of non-negative amounts, rounded down.
use Prim.Native.Nat.{◌*◌, ◌/◌}
use native.Mathlib.Omega.{arith}
use mathlib.Core.List.{List, [], ◌∷◌}
use agent_ledger.Base.Int.{ℤ, pos, ◌+ℤ◌, ◌-ℤ◌, ◌*ℤ◌, ltb_ℤ, leb_ℤ, pos_part}
use agent_ledger.Base.Float64.{Float64, IsOrdered}

abbrev pub thousandths : Float64
thousandths = record {
  Carrier = ℤ;
  add = λ a b. a +ℤ b;
  sub = λ a b. a -ℤ b;
  mul = λ a b. pos (pos_part a * pos_part b / 1000);
  div = λ a b. pos (pos_part a * 1000 / pos_part b);
  of_int = λ n. n *ℤ pos 1000;
  milli = λ n. pos n;
  lt = λ a b. ltb_ℤ a b;
  le = λ a b. leb_ℤ a b;
}

pub thousandths-IsOrdered : IsOrdered thousandths
thousandths-IsOrdered = record {
  le_trans = λ a b c p q. ground arith;
  lt-le = λ a b p. ground arith;
  le_of_lt = λ a b p. ground arith;
}

-- The exact sum of amounts, and the first of them.
abbrev pub sum_ℤ : List ℤ → ℤ
sum_ℤ [] = pos 0
sum_ℤ (x ∷ xs) = x +ℤ sum_ℤ xs

abbrev pub first_ℤ : List ℤ → ℤ
first_ℤ [] = pos 0
first_ℤ (x ∷ xs) = x
