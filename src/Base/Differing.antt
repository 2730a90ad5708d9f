-- ===== src/Base/Differing.antt =====
-- Texts that a test tells apart.
use mathlib.Core.Path.{◌≡◌}
use mathlib.Core.Logic.{◌≢◌}
use mathlib.Core.Bool.{false}
use Prim.Native.String.{String}
use native.Mathlib.Omega.{arith}
use text.Mathlib.Text.{◌==◌ as str_eq}
use text.Mathlib.TextEquality.{eq_iff}

pub str_eq-ne : (p q : String) → str_eq p q ≡ false → p ≢ q
str_eq-ne p q b = λ e. ground (arith, b, eq_iff p q)
