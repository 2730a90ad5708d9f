-- ===== src/Budget/Manager.antt =====
-- internal/budget/budget.go: the manager, its check and its operations.
pub mod Strictest
use agent_ledger.Base.{
  Bool, true, false, ◌&&◌, ◌||◌, String, str_eq, Option, none, some, List, [], ◌∷◌, ◌++◌,
  if◌then◌else◌, ltb, ltb_ℤ, ℕ, length, pos,
}
use agent_ledger.Base.Float64.{Float64}
use agent_ledger.Base.Clock.{Time, Duration}
use agent_ledger.Budget.Rules.{
  Decision, allow, warn, block, Result, Rule, Config, zero_usd, match_rule, match_tenant_rule,
  evaluate_rule, rank,
}
use agent_ledger.Budget.Spend.{
  Ledger, Calendar, Reads, Cache, get_spend, get_tenant_spend, evict_stale_cache,
}

pub record Manager (A : Type 0) : Type 0 where
  pub config : Config A
  pub cache : Cache A
  pub cache_ttl : Duration
  pub has_on_warn : Bool
  pub has_on_block : Bool

-- A call of onWarn or onBlock.
pub data Event (A : Type 0) : Type 0 where
  warned : String → Result A → Event A
  blocked : String → Result A → Event A

-- What a check leaves: the manager, the result, and the callbacks in order.
pub record Checked (A : Type 0) : Type 0 where
  pub manager : Manager A
  pub result : Result A
  pub events : List (Event A)

abbrev pub default_cache_ttl : Duration
default_cache_ttl = pos 30000000000

pub new_manager : {A : Type 0} → Config A → Manager A
new_manager cfg = record {
  config = cfg;
  cache = [];
  cache_ttl = default_cache_ttl;
  has_on_warn = false;
  has_on_block = false;
}

-- SetCallbacks; the callbacks are not nil where the flags say so.
pub set_callbacks : {A : Type 0} → Manager A → Bool → Bool → Manager A
set_callbacks m on_warn on_block = record m { has_on_warn = on_warn; has_on_block = on_block }

-- UpdateRules
unfoldable pub update_rules : {A : Type 0} → Manager A → List (Rule A) → Manager A
update_rules m rules = record m { config = record m.config { rules = rules }; cache = [] }

-- `if result.Decision == Block && m.onBlock != nil { ... } else if ... { ... }`
notify : {A : Type 0} → Manager A → String → Result A → List (Event A)
notify m api_key_hash result = elim result.decision [
  | block ↦ if m.has_on_block then blocked api_key_hash result ∷ [] else []
  | warn ↦ if m.has_on_warn then warned api_key_hash result ∷ [] else []
  | allow ↦ []
]

module _ (f : Float64) where
  open f use {Carrier, lt, le}

  unfoldable pub enabled : Manager Carrier → Bool
  enabled m =
      (lt (zero_usd f) m.config.default_rule.daily_limit_usd
        || lt (zero_usd f) m.config.default_rule.monthly_limit_usd)
      || ltb 0 (length m.config.rules)

  -- Result{Decision: Allow}
  abbrev pub unlimited : Result Carrier
  unlimited = record {
    decision = allow;
    daily_spent = zero_usd f;
    daily_limit = zero_usd f;
    monthly_spent = zero_usd f;
    monthly_limit = zero_usd f;
  }

  module _ (glob : String → String → Bool) (ledger : Ledger Carrier) (cal : Calendar) where
    -- The tenant's part of a check: its result, where a rule applies to the tenant.
    tenant_part : Manager Carrier → String → Reads → Manager Carrier × Option (Result Carrier)
    tenant_part m tenant_id t =
        if str_eq tenant_id "" then (m, none) else elim (match_tenant_rule f m.config tenant_id) [
          | none ↦ (m, none)
          | some rule ↦
              let (cache, spent) = get_tenant_spend ledger cal m.cache_ttl m.cache tenant_id t in
              (record m { cache = cache }, some (evaluate_rule f rule spent.0 spent.1))
        ]

    -- The branch for a key without limits.
    unfoldable pub check_tenant_only : Manager Carrier → String → String → Reads → Checked Carrier
    unfolding tenant_part notify
    check_tenant_only m api_key_hash tenant_id t =
        let (m', tenant_result) = tenant_part m tenant_id t in
        elim tenant_result [
          | none ↦ record { manager = m'; result = unlimited; events = [] }
          | some result ↦ record {
            manager = m';
            result = result;
            events = notify m' api_key_hash result;
          }
        ]

    -- The branch for a key with limits; the tenant's result counts where it is stricter.
    unfoldable pub check_key :
        Manager Carrier → Rule Carrier → String → String → Reads → Reads → Checked Carrier
    unfolding tenant_part notify
    check_key m rule api_key_hash tenant_id t t' =
        let (cache, spent) = get_spend ledger cal m.cache_ttl m.cache api_key_hash t in
        let m' : Manager Carrier = record m { cache = cache } in
        let result = evaluate_rule f rule spent.0 spent.1 in
        let events = notify m' api_key_hash result in
        let (m'', tenant_result) = tenant_part m' tenant_id t' in
        elim tenant_result [
          | none ↦ record { manager = m''; result = result; events = events }
          | some tenant ↦
              if ltb (rank result.decision) (rank tenant.decision)
              then record {
                manager = m'';
                result = tenant;
                events = events ++ notify m'' api_key_hash tenant;
              }
              else record { manager = m''; result = result; events = events }
        ]

    -- Check: `t` are the instants of the key's lookup, `t'` those of the tenant's.
    unfoldable pub check :
        Manager Carrier → String → String → String → Reads → Reads → Checked Carrier
    unfolding check_tenant_only check_key
    check m raw_key api_key_hash tenant_id t t' =
        let rule = match_rule f glob m.config raw_key in
        if le rule.daily_limit_usd (zero_usd f) && le rule.monthly_limit_usd (zero_usd f)
        then check_tenant_only m api_key_hash tenant_id t'
        else check_key m rule api_key_hash tenant_id t t'
