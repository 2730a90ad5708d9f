-- ===== src/Meter/Cost.antt =====
-- internal/meter/meter.go: the price of a model and the cost of a call.
use agent_ledger.Base.{
  ℤ, pos, Bool, true, false, ◌&&◌, String, str_eq, Option, none, some, [], ◌∷◌, if◌then◌else◌, ltb,
}
use agent_ledger.Base.GoMap
use agent_ledger.Base.GoMap.{GoMap}
use agent_ledger.Base.Float64.{Float64}
use agent_ledger.Meter.Pricing.{ModelPricing, default_pricing}
use Prim.Native.String.{len}
use text.Mathlib.Text.{starts_with}

-- Meter; the estimator stands in Encoding.
pub record Meter (A : Type 0) : Type 0 where
  pub pricing : GoMap (ModelPricing A)

-- New
unfoldable pub new_meter : (f : Float64) → Meter f.Carrier
unfolding default_pricing
new_meter f = record { pricing = default_pricing f }

module _ {A : Type 0} where
  -- The loop over the prices: the longest key so far that is a prefix of the model.
  unfoldable pub best_prefix : String → String → Option A → GoMap A → String × Option A
  best_prefix model best_key best [] = (best_key, best)
  best_prefix model best_key best ((key, p) ∷ m) =
      let better = starts_with model key && ltb (len best_key) (len key) in
      best_prefix model (if better then key else best_key) (if better then some p else best) m

  -- findPricing, over any values.
  unfoldable pub find_pricing : GoMap A → String → Option A
  find_pricing pricing model = elim (GoMap.get pricing model) [
    | some p ↦ some p
    | none ↦
        let (best_key, best) = best_prefix model "" none pricing in
        if str_eq best_key "" then none else best
  ]

module _ (f : Float64) where
  open f use {Carrier, add, mul, div, of_int}

  -- Calculate
  unfoldable pub calculate : Meter Carrier → String → ℤ → ℤ → Carrier
  calculate m model input_tokens output_tokens = elim (find_pricing m.pricing model) [
    | none ↦ of_int (pos 0)
    | some p ↦
        let per_million =
          λ (tokens : ℤ) (usd : Carrier). mul (div (of_int tokens) (of_int (pos 1000000))) usd in
        add (per_million input_tokens p.input_per_mtok)
          (per_million output_tokens p.output_per_mtok)
  ]

  pub known_model : Meter Carrier → String → Bool
  known_model m model = elim (find_pricing m.pricing model) [ none ↦ false | some p ↦ true ]
