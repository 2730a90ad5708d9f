-- ===== src/Base/Lists.antt =====
-- Lists measured by native numbers, under the library's names.
use Prim.Native.Nat.{ℕ, zero, suc, ◌+◌}
use mathlib.Core.Path.{◌≡◌, refl}
use mathlib.Core.List.{List, [], ◌∷◌, ◌++◌}
use native.Mathlib.Omega.{arith}

module _ {ℓ} {A : Type ℓ} where
  abbrev pub length : List A → ℕ
  length [] = 0
  length (x ∷ xs) = suc (length xs)

  pub length-append : (xs ys : List A) → length (xs ++ ys) ≡ length xs + length ys
  length-append [] ys = omega arith
  length-append (x ∷ xs) ys = omega (arith, length-append xs ys)

  -- Every element has the property: a tuple that the tactics read and build.
  abbrev pub All {κ} : (A → Type κ) → List A → Type κ
  All P [] = Unit
  All P (x ∷ xs) = P x × All P xs

  pub All-append {κ} : (P : A → Type κ) (xs ys : List A) → All P xs → All P ys → All P (xs ++ ys)
  All-append P [] ys hx hy = hy
  All-append P (x ∷ xs) ys hx hy = (hx.0, All-append P xs ys hx.1 hy)

  abbrev pub replicate : ℕ → A → List A
  replicate zero a = []
  replicate (suc n) a = a ∷ replicate n a

  pub length-replicate : (n : ℕ) (a : A) → length (replicate n a) ≡ n
  length-replicate zero a = refl
  length-replicate (suc n) a = omega (arith, length-replicate n a)

-- Two orders of the same elements, by exchanges of neighbours.
pub data Reorders {ℓ} {A : Type ℓ} : List A → List A → Type ℓ where
  same : {l : List A} → Reorders l l
  keep : {x : A} {l m : List A} → Reorders l m → Reorders (x ∷ l) (x ∷ m)
  swap : {x y : A} {l : List A} → Reorders (x ∷ y ∷ l) (y ∷ x ∷ l)
  both : {l m n : List A} → Reorders l m → Reorders m n → Reorders l n

pub Reorders-append_left {ℓ} :
    {A : Type ℓ} (xs : List A) {l m : List A} → Reorders l m → Reorders (xs ++ l) (xs ++ m)
Reorders-append_left [] π = π
Reorders-append_left (x ∷ xs) π = keep (Reorders-append_left xs π)

pub All-Reorders {ℓ κ} :
    {A : Type ℓ} (P : A → Type κ) {l m : List A} → Reorders l m → All P l → All P m
All-Reorders P same h = h
All-Reorders P (keep π) h = (h.0, All-Reorders P π h.1)
All-Reorders P swap h = (h.1.0, (h.0, h.1.1))
All-Reorders P (both π ρ) h = All-Reorders P ρ (All-Reorders P π h)
