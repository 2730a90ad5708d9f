-- ===== src/Mcp/Pricing.antt =====
-- internal/mcp/pricing.go: the cost of a tool call.
use agent_ledger.Base.{
  All, ◌≢◌, eq_iff, not, String, str_eq, Option, none, some, List, [], ◌∷◌, if◌then◌else◌, ◌≡◌,
  refl, arith, ◌&&◌,
}

pub record PricingRule (A : Type 0) : Type 0 where
  pub server : String
  pub tool : String
  pub cost_per_call : A

module _ {A : Type 0} where
  -- The loop, with the wildcard's cost found so far, and what follows it.
  price_loop : A → List (PricingRule A) → String → String → Option A → A
  price_loop zero [] server tool none = zero
  price_loop zero [] server tool (some cost) = cost
  price_loop zero (r ∷ rs) server tool wildcard =
      let rest = price_loop zero rs server tool (
        if not (str_eq r.server server)
        then wildcard
        else if str_eq r.tool ""
        then some r.cost_per_call
        else wildcard) in
      if not (str_eq r.server server)
      then rest
      else if str_eq r.tool tool
      then r.cost_per_call
      else rest

  -- CostForCall, over the zero of the amounts.
  pub cost_for_call : A → List (PricingRule A) → String → String → A
  unfolding price_loop
  cost_for_call zero rules server_name tool_name = price_loop zero rules server_name tool_name none

  -- The first rule for this server and tool.
  pub exact_cost : List (PricingRule A) → String → String → Option A
  exact_cost [] server tool = none
  exact_cost (r ∷ rs) server tool =
      if str_eq r.server server && str_eq r.tool tool
      then some r.cost_per_call
      else exact_cost rs server tool

  -- The last rule for every tool of this server.
  pub wildcard_cost : List (PricingRule A) → String → Option A
  wildcard_cost [] server = none
  wildcard_cost (r ∷ rs) server = elim (wildcard_cost rs server) [
    | some c ↦ some c
    | none ↦ if str_eq r.server server && str_eq r.tool "" then some r.cost_per_call else none
  ]

  abbrev pub or_else : Option A → Option A → Option A
  or_else (some c) o = some c
  or_else none o = o

  abbrev pub or_zero : Option A → A → A
  or_zero none zero = zero
  or_zero (some c) zero = c

  price_loop-costs :
      (zero : A) (rules : List (PricingRule A)) (server tool : String) (w : Option A)
      → price_loop zero rules server tool w
        ≡ or_zero
            (or_else (exact_cost rules server tool) (or_else (wildcard_cost rules server) w))
            zero
  unfolding price_loop exact_cost wildcard_cost
  price_loop-costs zero [] server tool none = refl
  price_loop-costs zero [] server tool (some c) = refl
  price_loop-costs zero (r ∷ rs) server tool none = ground (
    arith,
    price_loop-costs zero rs server tool none,
    price_loop-costs zero rs server tool (some r.cost_per_call),
  )
  price_loop-costs zero (r ∷ rs) server tool (some c) = ground (
    arith,
    price_loop-costs zero rs server tool (some c),
    price_loop-costs zero rs server tool (some r.cost_per_call),
  )

  -- The cost of a call is that of the first rule for the server and the tool; without one, that of
  -- the last rule for every tool of the server; without either, zero.
  pub cost_for_call-costs :
      (zero : A) (rules : List (PricingRule A)) (server tool : String)
      → cost_for_call zero rules server tool
        ≡ or_zero (or_else (exact_cost rules server tool) (wildcard_cost rules server)) zero
  unfolding cost_for_call
  cost_for_call-costs zero rules server tool =
      ground (arith, price_loop-costs zero rules server tool none)

  price_loop-unpriced :
      (zero : A) (rules : List (PricingRule A)) (server tool : String)
      → All (λ r. r.server ≢ server) rules
      → price_loop zero rules server tool none ≡ zero
  unfolding price_loop
  price_loop-unpriced zero [] server tool a = refl
  price_loop-unpriced zero (r ∷ rs) server tool a =
      ground (arith, a.0, eq_iff r.server server, price_loop-unpriced zero rs server tool a.1)

  -- A server without a rule costs nothing.
  pub cost_for_call-unpriced :
      (zero : A) (rules : List (PricingRule A)) (server tool : String)
      → All (λ r. r.server ≢ server) rules
      → cost_for_call zero rules server tool ≡ zero
  unfolding cost_for_call
  cost_for_call-unpriced zero rules server tool a = price_loop-unpriced zero rules server tool a
