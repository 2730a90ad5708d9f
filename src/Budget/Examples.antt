-- ===== src/Budget/Examples.antt =====
-- A manager at work, with amounts in thousandths of a dollar. The patterns have no metacharacters,
-- where filepath.Match is equality.
use Prim.Native.Nat.{max}
use agent_ledger.Base.{
  ◌≤◌, ℤ, pos, ◌≡◌, ◌≢◌, refl, ◌↔◌, ◌⊎◌, true, false, str_eq, [], ◌∷◌, ◌++◌, ltb, if◌then◌else◌,
}
use agent_ledger.Base.FixedPoint.{thousandths, thousandths-IsOrdered}
use agent_ledger.Budget.Rules.{warn, block, Rule, Config, evaluate_rule, rank}
use agent_ledger.Budget.Rules.Evaluation.{
  Exceeds, Nears, evaluate_rule_decides, rank-evaluate_rule_mono,
}
use agent_ledger.Budget.Spend.{Ledger, Calendar, Reads}
use agent_ledger.Budget.Manager.{Manager, check}
use agent_ledger.Budget.Manager.Strictest.{
  asked, key_result, key_decision, tenant_decision, check_strictest, check_reports,
}

-- 50 dollars a day, 500 a month, a warning at 80 percent.
abbrev fifty : Rule ℤ
fifty = record {
  api_key_pattern = "";
  tenant_id = "";
  daily_limit_usd = pos 50000;
  monthly_limit_usd = pos 500000;
  soft_limit_pct = pos 800;
  action = "block";
}

abbrev alpha : Rule ℤ
alpha = record fifty { tenant_id = "alpha"; daily_limit_usd = pos 30000; action = "warn" }

abbrev settings : Config ℤ
settings = record { default_rule = fifty; rules = alpha ∷ [] }

abbrev manager : Manager ℤ
manager = record {
  config = settings;
  cache = ("h1", record { daily = pos 45000; monthly = pos 45000; fetched = pos 100 }) ∷ [];
  cache_ttl = pos 30000000000;
  has_on_warn = true;
  has_on_block = true;
}

abbrev ledger : Ledger ℤ
ledger = record {
  get_total_spend = λ key since until. (pos 60000, false);
  get_total_spend_by_tenant = λ tenant since until. (pos 20000, false);
}

abbrev days : Calendar
days = record { day_start = λ t. pos 0; month_start = λ t. pos 0 }

abbrev at_once : Reads
at_once = record { looked_up = pos 200; queried = pos 201; stored = pos 202 }

evaluate_rule_decides_example :
    ((evaluate_rule thousandths fifty (pos 60000) (pos 60000)).decision ≡ block
      ↔ (Exceeds thousandths fifty (pos 60000) (pos 60000) × (fifty.action ≡ "block")))
    × ((evaluate_rule thousandths fifty (pos 60000) (pos 60000)).decision ≡ warn ↔ (
        (Exceeds thousandths fifty (pos 60000) (pos 60000) × (fifty.action ≢ "block"))
        ⊎ ((¬ Exceeds thousandths fifty (pos 60000) (pos 60000))
            × Nears thousandths fifty (pos 60000) (pos 60000))))
evaluate_rule_decides_example = evaluate_rule_decides thousandths fifty (pos 60000) (pos 60000)

rank-evaluate_rule_mono_example :
    rank (evaluate_rule thousandths fifty (pos 41000) (pos 41000)).decision
    ≤ rank (evaluate_rule thousandths fifty (pos 60000) (pos 60000)).decision
rank-evaluate_rule_mono_example =
    rank-evaluate_rule_mono thousandths thousandths-IsOrdered fifty (pos 41000) (pos 60000)
      (pos 41000) (pos 60000) refl refl

check_strictest_example :
    rank
      (check thousandths str_eq ledger days manager "sk-a" "h1" "alpha" at_once
        at_once).result.decision
    ≡ max (rank (key_decision thousandths str_eq ledger days manager "sk-a" "h1" at_once)) (
        rank (
          tenant_decision thousandths str_eq ledger days manager "sk-a" "h1" "alpha" at_once
            at_once))
check_strictest_example =
    check_strictest thousandths str_eq ledger days manager "sk-a" "h1" "alpha" at_once at_once

check_reports_example :
    let key = key_result thousandths str_eq ledger days manager "sk-a" "h1" at_once in
    let done = check thousandths str_eq ledger days manager "sk-a" "h1" "alpha" at_once at_once in
    done.events
    ≡ (if ltb (rank key.decision) (
          rank (
            tenant_decision thousandths str_eq ledger days manager "sk-a" "h1" "alpha" at_once
              at_once))
        then asked "h1" key key.decision
        else [])
      ++ asked "h1" done.result done.result.decision
check_reports_example =
    check_reports thousandths str_eq ledger days manager "sk-a" "h1" "alpha" at_once at_once refl
      refl

abbrev later : Reads
later = record { looked_up = pos 300; queried = pos 301; stored = pos 302 }
