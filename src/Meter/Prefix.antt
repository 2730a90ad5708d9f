-- ===== src/Meter/Prefix.antt =====
-- A model without a price of its own has that of the longest key that begins its name.
use Prim.Native.String.{len}
use text.Mathlib.Text.{starts_with}
use agent_ledger.Base.{
  ℕ, ◌≤◌, ◌<◌, Bool, true, false, ◌&&◌, ◌≡◌, ◌≢◌, refl, ap, String, str_eq, eq_iff, Option, none,
  some, [], ◌∷◌, if◌then◌else◌, ltb, arith, All,
}
use agent_ledger.Base.GoMap
use agent_ledger.Base.GoMap.{GoMap, Distinct}
use agent_ledger.Meter.Cost.{best_prefix, find_pricing}

longer_named : (best key : String) → len best < len key → key ≢ ""
longer_named best key h e = let l : len key ≡ 0 = ap len e in absurd (omega (arith, l, h))

other_name : (key : String) → key ≢ "" → str_eq key "" ≡ false
other_name key h = ground (arith, eq_iff key "")

module _ {A : Type 0} where
  -- No key that begins the model's name has more than `n` bytes.
  abbrev pub NoneLonger : GoMap A → String → ℕ → Type 0
  NoneLonger m model n = All {A = String × A} (λ e. starts_with model e.0 ≡ true → len e.0 ≤ n) m

  -- The key begins the model's name, has this price, and none that begins it is longer.
  pub record IsLongest (m : GoMap A) (model key : String) (p : A) : Type 0 where
    pub priced : GoMap.get m key ≡ some p
    pub begins : starts_with model key ≡ true
    pub longest : NoneLonger m model (len key)

  -- What the loop has found: nothing, or a key of the map that begins the name.
  abbrev Found : GoMap A → String → String → Option A → Type 0
  Found m model key none = key ≡ ""
  Found m model key (some p) =
      (key ≢ "") × (GoMap.get m key ≡ some p) × (starts_with model key ≡ true)

  step-Found :
      (b : Bool) (m : GoMap A) (model best_key key : String) (best : Option A) (p : A)
      → (b ≡ true → (starts_with model key ≡ true) × (len best_key < len key))
      → GoMap.get m key ≡ some p
      → Found m model best_key best
      → Found m model (if b then key else best_key) (if b then some p else best)
        × (len best_key ≤ len (if b then key else best_key))
  step-Found true m model best_key key best p h g f =
      ((longer_named best_key key (h refl).1, g, (h refl).0), omega (arith, (h refl).1))
  step-Found false m model best_key key best p h g f = (f, omega arith)

  best_prefix-Found :
      (rest m : GoMap A) (model best_key : String) (best : Option A)
      → All {A = String × A} (λ e. GoMap.get m e.0 ≡ some e.1) rest
      → Found m model best_key best
      → let r = best_prefix model best_key best rest in
        Found m model r.0 r.1 × (len best_key ≤ len r.0) × NoneLonger rest model (len r.0)
  unfolding best_prefix
  best_prefix-Found [] m model best_key best a h = (h, omega arith, tt)
  best_prefix-Found ((key, p) ∷ rest) m model best_key best a h =
      let better = starts_with model key && ltb (len best_key) (len key) in
      let (now_found, grows) =
        step-Found better m model best_key key best p (λ e. (ground arith, ground arith)) a.0 h in
      let (found, le, all) =
        best_prefix-Found rest m model (if better then key else best_key)
          (if better then some p else best) a.1 now_found in
      (found, omega (arith, grows, le), (λ s. ground arith, all))

  -- What findPricing is for a model without a price of its own.
  abbrev pub Prices : GoMap A → String → Option A → Type 0
  Prices m model none = NoneLonger m model 0
  Prices m model (some p) = (key : String) × (key ≢ "") × IsLongest m model key p

  chosen :
      (m : GoMap A) (model key : String) (best : Option A)
      → Found m model key best
      → NoneLonger m model (len key)
      → Prices m model (if str_eq key "" then none else best)
  chosen m model key none f n = rw ((eq_iff key "").1 f) (rw f at n)
  chosen m model key (some p) f n =
      rw (other_name key f.0) (key, f.0, record { priced = f.1; begins = f.2; longest = n })

  -- For a model that has no price of its own, findPricing gives the price of a key that begins the
  -- model's name and than which no such key is longer; it gives none only if no key but the empty
  -- one begins the name. This holds for every order in which the loop visits the prices.
  pub find_pricing-Prices :
      (m : GoMap A) (model : String)
      → Distinct m
      → GoMap.get m model ≡ none
      → Prices m model (find_pricing m model)
  unfolding find_pricing
  find_pricing-Prices m model d e =
      let (found, le, all) = best_prefix-Found m m model "" none (GoMap.get-entries m d) refl in
      rw (e, find_pricing) (chosen m model _ _ found all)
