-- ===== src/Budget/Manager/Strictest.antt =====
-- A check takes the stricter of the key's rule and the tenant's, and reports it.
use Prim.Native.Nat.{max}
use agent_ledger.Base.{
  Bool, true, ◌&&◌, String, str_eq, ◌≡◌, arith, ltb, if◌then◌else◌, none, some, List, [], ◌∷◌, ◌++◌,
}
use agent_ledger.Base.Float64.{Float64}
use agent_ledger.Budget.Rules.{
  Decision, allow, warn, block, Result, Rule, zero_usd, match_rule, match_tenant_rule,
  evaluate_rule, rank,
}
use agent_ledger.Budget.Spend.{Ledger, Calendar, Reads, Cache, get_spend, get_tenant_spend}
use agent_ledger.Budget.Manager.{
  Manager, Event, warned, blocked, notify, unlimited, tenant_part, check_tenant_only, check_key,
  check,
}

-- The callback that a decision asks for, with both callbacks set.
abbrev pub asked : {A : Type 0} → String → Result A → Decision → List (Event A)
asked hash r allow = []
asked hash r warn = warned hash r ∷ []
asked hash r block = blocked hash r ∷ []

module _ (f : Float64) (glob : String → String → Bool) (ledger : Ledger f.Carrier)
    (cal : Calendar) where
  open f use {Carrier, lt, le}

  abbrev pub has_no_limits : Rule Carrier → Bool
  has_no_limits rule =
      le rule.daily_limit_usd (zero_usd f) && le rule.monthly_limit_usd (zero_usd f)

  -- What the key's own rule says.
  pub key_result : Manager Carrier → String → String → Reads → Result Carrier
  key_result m raw_key hash t =
      let rule = match_rule f glob m.config raw_key in
      let spent = (get_spend ledger cal m.cache_ttl m.cache hash t).1 in
      if has_no_limits rule then unlimited f else evaluate_rule f rule spent.0 spent.1

  abbrev pub key_decision : Manager Carrier → String → String → Reads → Decision
  key_decision m raw_key hash t = (key_result m raw_key hash t).decision

  -- The cache that the tenant's lookup meets.
  cache_for_tenant : Manager Carrier → String → String → Reads → Cache Carrier
  cache_for_tenant m raw_key hash t =
      if has_no_limits (match_rule f glob m.config raw_key)
      then m.cache
      else (get_spend ledger cal m.cache_ttl m.cache hash t).0

  -- What the tenant's rule says; a request without a tenant, or a tenant without a rule, is free.
  pub tenant_decision : Manager Carrier → String → String → String → Reads → Reads → Decision
  unfolding cache_for_tenant
  tenant_decision m raw_key hash tenant_id t t' =
      if str_eq tenant_id "" then allow else elim (match_tenant_rule f m.config tenant_id) [
        | none ↦ allow
        | some rule ↦
            let cache = cache_for_tenant m raw_key hash t in
            let spent = (get_tenant_spend ledger cal m.cache_ttl cache tenant_id t').1 in
            (evaluate_rule f rule spent.0 spent.1).decision
      ]

  -- The decision of a check is the stricter of what the key's rule and the tenant's rule say.
  pub check_strictest :
      (m : Manager Carrier) (raw_key hash tenant_id : String) (t t' : Reads)
      → rank (check f glob ledger cal m raw_key hash tenant_id t t').result.decision
        ≡ max
            (rank (key_decision m raw_key hash t))
            (rank (tenant_decision m raw_key hash tenant_id t t'))
  unfolding check tenant_part key_result tenant_decision check_tenant_only check_key
  check_strictest m raw_key hash tenant_id t t' = ground arith

  -- With both callbacks set, a check calls them for the result that it returns, and before that
  -- for the key's result exactly when the tenant's rule is the stricter one.
  pub check_reports :
      (m : Manager Carrier) (raw_key hash tenant_id : String) (t t' : Reads)
      → m.has_on_warn ≡ true
      → m.has_on_block ≡ true
      → let key = key_result m raw_key hash t in
        let done = check f glob ledger cal m raw_key hash tenant_id t t' in
        done.events
        ≡ (if ltb (rank key.decision) (rank (tenant_decision m raw_key hash tenant_id t t'))
            then asked hash key key.decision
            else [])
          ++ asked hash done.result done.result.decision
  unfolding check tenant_part key_result tenant_decision check_tenant_only check_key notify
  check_reports m raw_key hash tenant_id t t' w b = ground arith
