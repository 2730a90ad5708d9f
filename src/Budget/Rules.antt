-- ===== src/Budget/Rules.antt =====
-- internal/budget/budget.go: rules, how a key or a tenant finds its rule, and how a rule judges.
pub mod Evaluation
use agent_ledger.Base.{
  Bool, true, false, ◌&&◌, ◌||◌, String, str_eq, Option, none, some, List, [], ◌∷◌, if◌then◌else◌,
  ltb, ℕ, length, pos,
}
use agent_ledger.Base.Float64.{Float64}

pub data Decision : Type 0 where
  allow warn block : Decision

-- The values of the constants Allow, Warn and Block.
abbrev pub rank : Decision → ℕ
rank allow = 0
rank warn = 1
rank block = 2

pub record Result (A : Type 0) : Type 0 where
  pub decision : Decision
  pub daily_spent : A
  pub daily_limit : A
  pub monthly_spent : A
  pub monthly_limit : A

pub record Rule (A : Type 0) : Type 0 where
  pub api_key_pattern : String
  pub tenant_id : String
  pub daily_limit_usd : A
  pub monthly_limit_usd : A
  pub soft_limit_pct : A
  pub action : String

pub record Config (A : Type 0) : Type 0 where
  pub default_rule : Rule A
  pub rules : List (Rule A)

module _ (f : Float64) where
  open f use {Carrier, mul, of_int, lt, le}

  abbrev pub zero_usd : Carrier
  zero_usd = of_int (pos 0)

  -- mergeWithDefault
  pub merge_with_default : Config Carrier → Rule Carrier → Rule Carrier
  merge_with_default cfg r = record {
    api_key_pattern = r.api_key_pattern;
    tenant_id = r.tenant_id;
    daily_limit_usd =
        if le r.daily_limit_usd zero_usd
        then cfg.default_rule.daily_limit_usd
        else r.daily_limit_usd;
    monthly_limit_usd =
        if le r.monthly_limit_usd zero_usd
        then cfg.default_rule.monthly_limit_usd
        else r.monthly_limit_usd;
    soft_limit_pct =
        if le r.soft_limit_pct zero_usd then cfg.default_rule.soft_limit_pct else r.soft_limit_pct;
    action = if str_eq r.action "" then cfg.default_rule.action else r.action;
  }

  first_match :
      (String → String → Bool) → Config Carrier → String → List (Rule Carrier) → Rule Carrier
  unfolding merge_with_default
  first_match glob cfg raw_key [] = cfg.default_rule
  first_match glob cfg raw_key (r ∷ rs) =
      if glob r.api_key_pattern raw_key
      then merge_with_default cfg r
      else first_match glob cfg raw_key rs

  -- matchRule
  unfoldable pub match_rule : (String → String → Bool) → Config Carrier → String → Rule Carrier
  unfolding first_match
  match_rule glob cfg raw_key = first_match glob cfg raw_key cfg.rules

  first_tenant_match : Config Carrier → String → List (Rule Carrier) → Option (Rule Carrier)
  unfolding merge_with_default
  first_tenant_match cfg tenant [] = none
  first_tenant_match cfg tenant (r ∷ rs) =
      if str_eq r.tenant_id tenant && str_eq r.api_key_pattern ""
      then some (merge_with_default cfg r)
      else first_tenant_match cfg tenant rs

  -- matchTenantRule
  unfoldable pub match_tenant_rule : Config Carrier → String → Option (Rule Carrier)
  unfolding first_tenant_match
  match_tenant_rule cfg tenant = first_tenant_match cfg tenant cfg.rules

  -- `exceeded` in evaluateRule
  abbrev pub exceeded : Rule Carrier → Carrier → Carrier → Bool
  exceeded rule daily monthly =
      (lt zero_usd rule.daily_limit_usd && le rule.daily_limit_usd daily)
      || (lt zero_usd rule.monthly_limit_usd && le rule.monthly_limit_usd monthly)

  soft_decision : Rule Carrier → Carrier → Carrier → Decision
  soft_decision rule daily monthly =
      let after_daily : Decision =
        if lt zero_usd rule.daily_limit_usd
          && le (mul rule.daily_limit_usd rule.soft_limit_pct) daily
        then warn
        else allow in
      if lt zero_usd rule.monthly_limit_usd
        && le (mul rule.monthly_limit_usd rule.soft_limit_pct) monthly
      then warn
      else after_daily

  -- evaluateRule
  unfoldable pub evaluate_rule : Rule Carrier → Carrier → Carrier → Result Carrier
  unfolding soft_decision
  evaluate_rule rule daily monthly = record {
    decision =
        if exceeded rule daily monthly
        then (if str_eq rule.action "block" then block else warn)
        else if lt zero_usd rule.soft_limit_pct
        then soft_decision rule daily monthly
        else allow;
    daily_spent = daily;
    daily_limit = rule.daily_limit_usd;
    monthly_spent = monthly;
    monthly_limit = rule.monthly_limit_usd;
  }
