-- ===== src/Proxy/Handler/Examples.antt =====
-- A request with a limit of tokens under a budget of ten dollars a day, and one with a key that is
-- blocked; a pattern matches only itself, and a key's digest is the key.
use agent_ledger.Base.{
  ◌*ℤ◌, ◌+ℤ◌, ℤ, pos, refl, ◌≡◌, Bool, true, false, String, str_eq, none, some, [], ◌∷◌,
  if◌then◌else◌,
}
use agent_ledger.Base.FixedPoint.{thousandths, thousandths-IsOrdered}
use agent_ledger.Base.GoMap
use agent_ledger.Base.Clock.{sub}
use agent_ledger.Access.Keys.{extract_api_key, hash_api_key}
use agent_ledger.Access.Blocklist.{is_blocked}
use agent_ledger.RateLimit
use agent_ledger.RateLimit.{Limiter}
use agent_ledger.Budget.Rules
use agent_ledger.Budget.Rules.{Result, allow}
use agent_ledger.Budget.Spend.{Ledger, Calendar, get_spend}
use agent_ledger.Budget.Manager
use agent_ledger.Meter.Cost.{new_meter, find_pricing, best_prefix, calculate}
use agent_ledger.Meter.Pricing.{default_pricing}
use agent_ledger.Provider.Meta.{RequestMeta}
use agent_ledger.Provider.Json.{Json, no_json}
use agent_ledger.Provider.Gemini.{parse_gemini_request}
use agent_ledger.Provider.Registry.{gemini, parse_request}
use agent_ledger.Proxy.Handler.Unpriced.{by_path, preflight-Nameless}
use agent_ledger.Proxy.Handler.{
  Proxy, Request, parsed, Instants, serve_http, guards, blocklist_guard, tracker_guard,
  limiter_guard, budget_guard, budget_answer, preflight, after_tracker, after_limiter, tenant_of,
}
use agent_ledger.Proxy.Handler.Guards.{Passed, serve_http-Passed}
use agent_ledger.Proxy.Handler.Unbilled.{Unbilled, serve_http-Unbilled}

abbrev glob : String → String → Bool
glob p k = str_eq p k

abbrev digest : String → String
digest k = k

abbrev spent : Ledger ℤ
spent = record {
  get_total_spend = λ k t u. (pos 1000, false);
  get_total_spend_by_tenant = λ k t u. (pos 0, false);
}

abbrev cal : Calendar
cal = record { day_start = λ t. t; month_start = λ t. t }

abbrev ten_dollars : Rules.Rule ℤ
ten_dollars = record {
  api_key_pattern = "";
  tenant_id = "";
  daily_limit_usd = pos 10000;
  monthly_limit_usd = pos 0;
  soft_limit_pct = pos 0;
  action = "block";
}

abbrev budget : Manager.Manager ℤ
budget = record {
  config = record { default_rule = ten_dollars; rules = [] };
  cache = [];
  cache_ttl = pos 30000000000;
  has_on_warn = false;
  has_on_block = false;
}

abbrev proxy : Proxy ℤ
proxy = record {
  blocklist = some (record { patterns = "k2" ∷ []; last_load = pos 0; ttl = pos 10000000000 });
  tracker = none;
  limiter = some (record {
    config = record {
      default_rule = record {
        api_key_pattern = "";
        requests_per_minute = pos 5;
        requests_per_hour = pos 0;
      };
      rules = [];
    };
    minute_counters = [];
    hour_counters = [];
  });
  tenant_resolver = none;
  budget = some budget;
  meter = new_meter thousandths;
}

abbrev keyed : String → Request
keyed key = record {
  path = "/v1/chat/completions";
  headers = record { header = λ h. if str_eq h "x-api-key" then key else ""; query = λ q. "" };
  detected = true;
  body = parsed (some (record { model = "gpt-4o"; max_tokens = pos 1000; stream = false }));
}

abbrev at_once : Instants
at_once = record {
  patterns = none;
  blocked_at = pos 5;
  reloaded_at = pos 5;
  call = record { started = pos 5; called = pos 5; trimmed = pos 5; checked = pos 5 };
  ended_at = pos 5;
  limited_at = pos 5;
  key_reads = record { looked_up = pos 5; queried = pos 5; stored = pos 5 };
  tenant_reads = record { looked_up = pos 5; queried = pos 5; stored = pos 5 };
}

abbrev within_budget : Result ℤ
within_budget = record {
  decision = allow;
  daily_spent = pos 1000;
  daily_limit = pos 10000;
  monthly_spent = pos 1000;
  monthly_limit = pos 0;
}

serve_http-Passed_example :
    Passed thousandths glob spent cal digest proxy (keyed "k1") at_once (some within_budget)
unfolding serve_http guards blocklist_guard tracker_guard limiter_guard budget_guard budget_answer
    preflight after_tracker after_limiter is_blocked RateLimit.allow RateLimit.enabled Manager.check
    Manager.enabled sub GoMap.get extract_api_key hash_api_key RateLimit.match_rule RateLimit.admit
    RateLimit.check_limit RateLimit.count_request GoMap.put Rules.match_rule Rules.evaluate_rule
    Manager.check_key Manager.check_tenant_only get_spend find_pricing best_prefix calculate
    new_meter default_pricing ◌*ℤ◌ tenant_of ◌+ℤ◌
serve_http-Passed_example =
    serve_http-Passed thousandths glob spent cal digest proxy (keyed "k1") at_once
      (some within_budget) refl

serve_http-Unbilled_example :
    Unbilled thousandths glob spent cal digest proxy
      (serve_http thousandths glob spent cal digest proxy (keyed "k2") at_once)
unfolding serve_http guards blocklist_guard tracker_guard is_blocked sub extract_api_key
    after_tracker
serve_http-Unbilled_example =
    serve_http-Unbilled thousandths glob spent cal digest proxy (keyed "k2") at_once refl

abbrev gemini_json : Json
gemini_json = record no_json {
  gemini_request = λ b. some (record { generation_config = some (pos 1000000) });
}

abbrev gemini_call : RequestMeta
gemini_call = record { model = ""; max_tokens = pos 1000000; stream = false }

preflight-Nameless_example :
    preflight thousandths glob spent cal digest
      (new_meter thousandths)
      (some gemini_call)
      within_budget
    ≡ none
unfolding parse_request parse_gemini_request
preflight-Nameless_example =
    preflight-Nameless thousandths glob spent cal digest thousandths-IsOrdered gemini_json
      (gemini "") [] gemini_call within_budget (by_path "") refl
