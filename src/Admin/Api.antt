-- ===== src/Admin/Api.antt =====
-- internal/admin/handlers.go: the handlers. Logging is left out.
pub mod Auth
pub mod Blocking
pub mod Saving
pub mod Rules
use agent_ledger.Base.{
  Bool, true, false, not, ◌&&◌, inl, inr, String, str_eq, str_append, Option, none, some, List, [],
  ◌∷◌, ◌++◌, map, if◌then◌else◌,
}
use agent_ledger.Base.Float64.{Float64}
use agent_ledger.Base.Clock.{Time}
use agent_ledger.Access.Keys.{Headers}
use agent_ledger.Access.Blocklist.{Blocklist, refresh}
use agent_ledger.Budget.Rules.{Rule, zero_usd}
use agent_ledger.Budget.Spend.{Calendar}
use agent_ledger.Budget.Manager
use agent_ledger.Budget.Manager.{Manager, update_rules}
use agent_ledger.Ledger.Usage.{CostEntry, CostFilter}
use agent_ledger.Admin.Store.{Rows, get_json, set_json}
use agent_ledger.Admin.Types.{
  Handler, ApiKeyEntry, BudgetStatus, Formats, Request, Moment, Reply, refused, rules, rule_created,
  pattern_created, patterns, api_keys, providers, statuses, no_content, Endpoint, list_rules,
  create_rule, delete_rule, list_api_keys, list_blocked, block_key, unblock_key, list_providers,
  budget_status, routes, endpoint_of, without, rules_key, blocked_key,
}

-- `if h.budgetMgr != nil { h.budgetMgr.UpdateRules(rules) }`
abbrev pub reload_rules : {A : Type 0} → Option (Manager A) → List (Rule A) → Option (Manager A)
reload_rules none saved = none
reload_rules (some m) saved = some (update_rules m saved)

-- `if h.blocklist != nil { h.blocklist.Refresh() }`
abbrev pub reload_patterns : Option Blocklist → Option (List String) → Time → Option Blocklist
reload_patterns none read now = none
reload_patterns (some b) read now = some (refresh b read now)

module _ (f : Float64) (formats : Formats f.Carrier) (cal : Calendar)
    (query_costs : CostFilter → List (CostEntry f.Carrier) × Bool) where
  open f use {Carrier, add}

  abbrev pub internal_error : Reply Carrier
  internal_error = refused 500 "internal server error"

  -- SetJSON of the rules, then UpdateRules.
  pub save_rules :
      Handler Carrier
      → Moment
      → List (Rule Carrier)
      → Reply Carrier
      → Handler Carrier × Reply Carrier
  save_rules h t saved reply = elim (set_json formats.rules h.rows t.write_fails rules_key saved) [
    | none ↦ (h, internal_error)
    | some rows ↦ (record h { rows = rows; budget_mgr = reload_rules h.budget_mgr saved }, reply)
  ]

  -- What Refresh reads.
  reread : Rows → Moment → Option (List String)
  reread rows t = some (get_json formats.patterns rows t.refresh_fails blocked_key).0

  -- SetJSON of the patterns, then Refresh.
  pub save_patterns :
      Handler Carrier → Moment → List String → Reply Carrier → Handler Carrier × Reply Carrier
  unfolding reread
  save_patterns h t saved reply =
      elim (set_json formats.patterns h.rows t.write_fails blocked_key saved) [
        | none ↦ (h, internal_error)
        | some rows ↦ (
          record h {
            rows = rows;
            blocklist = reload_patterns h.blocklist (reread rows t) t.reloaded_at;
          },
          reply,
        )
      ]

  pub read_rules : Handler Carrier → Moment → List (Rule Carrier) × Bool
  read_rules h t = get_json formats.rules h.rows t.read_fails rules_key

  unfoldable pub read_patterns : Handler Carrier → Moment → List String × Bool
  read_patterns h t = get_json formats.patterns h.rows t.read_fails blocked_key

  handle_list_rules : Handler Carrier → Moment → Reply Carrier
  unfolding read_rules
  handle_list_rules h t =
      let (read, failed) = read_rules h t in if failed then internal_error else rules read

  -- handleCreateRule
  pub handle_create_rule : Handler Carrier → Request → Moment → Handler Carrier × Reply Carrier
  unfolding read_rules save_rules
  handle_create_rule h r t = elim (formats.rule_body r.body) [
    | inl message ↦ (h, refused 400 (str_append "invalid rule: " message))
    | inr rule ↦ save_rules h t ((read_rules h t).0 ++ rule ∷ []) (rule_created rule)
  ]

  -- handleDeleteRule
  pub handle_delete_rule : Handler Carrier → Request → Moment → Handler Carrier × Reply Carrier
  unfolding read_rules save_rules
  handle_delete_rule h r t =
      let pattern = r.headers.query "pattern" in
      let (filtered, found) = without (λ rule. rule.api_key_pattern) pattern (read_rules h t).0 in
      if str_eq pattern ""
      then (h, refused 400 "pattern query parameter required")
      else if not found
      then (h, refused 404 "rule not found")
      else save_rules h t filtered no_content

  -- handleBlockKey
  pub handle_block_key : Handler Carrier → Request → Moment → Handler Carrier × Reply Carrier
  unfolding read_patterns save_patterns
  handle_block_key h r t = elim (formats.pattern_body r.body) [
    | inl message ↦ (h, refused 400 (str_append "invalid request: " message))
    | inr pattern ↦
        if str_eq pattern ""
        then (h, refused 400 "pattern is required")
        else save_patterns h t ((read_patterns h t).0 ++ pattern ∷ []) (pattern_created pattern)
  ]

  -- handleUnblockKey
  pub handle_unblock_key : Handler Carrier → Request → Moment → Handler Carrier × Reply Carrier
  unfolding read_patterns save_patterns
  handle_unblock_key h r t =
      let pattern = r.headers.query "pattern" in
      let (filtered, found) = without (λ p. p) pattern (read_patterns h t).0 in
      if str_eq pattern ""
      then (h, refused 400 "pattern query parameter required")
      else if not found
      then (h, refused 404 "pattern not found")
      else save_patterns h t filtered no_content

  handle_list_blocked : Handler Carrier → Moment → Reply Carrier
  unfolding read_patterns
  handle_list_blocked h t =
      let (read, failed) = read_patterns h t in if failed then internal_error else patterns read

  by_key : Time → Time → CostFilter
  by_key since until = record { since = since; until = until; group_by = "key"; tenant_id = "" }

  key_entry : CostEntry Carrier → ApiKeyEntry Carrier
  key_entry e = record {
    api_key_hash = e.api_key_hash;
    requests = e.requests;
    total_cost_usd = e.total_cost_usd;
  }

  -- handleListAPIKeys
  handle_list_api_keys : Moment → Reply Carrier
  unfolding by_key key_entry
  handle_list_api_keys t =
      let (entries, failed) = query_costs (by_key (cal.month_start t.now) t.now) in
      if failed then internal_error else api_keys (map key_entry entries)

  handle_list_providers : Handler Carrier → Moment → Reply Carrier
  handle_list_providers h t =
      let (read, failed) = get_json formats.providers h.rows t.read_fails "providers_enabled" in
      if failed then internal_error else providers read

  total : Carrier → List (CostEntry Carrier) → Carrier
  total sum [] = sum
  total sum (e ∷ es) = total (add sum e.total_cost_usd) es

  default_status : Option (Manager Carrier) → Carrier → Carrier → List (BudgetStatus Carrier)
  default_status none daily monthly = []
  default_status (some m) daily monthly =
      if Manager.enabled f m
      then record {
        pattern = "(default)";
        daily_spent = daily;
        daily_limit = zero_usd f;
        monthly_spent = monthly;
        monthly_limit = zero_usd f;
        action = "default";
      }
        ∷ []
      else []

  -- handleBudgetStatus; the handler that serve.go makes has a ledger.
  handle_budget_status : Handler Carrier → Moment → Reply Carrier
  unfolding read_rules total default_status by_key
  handle_budget_status h t =
      let daily = total (zero_usd f) (query_costs (by_key (cal.day_start t.now) t.now)).0 in
      let monthly = total (zero_usd f) (query_costs (by_key (cal.month_start t.now) t.now)).0 in
      let per_rule =
        map
          (λ rule. record {
            pattern = rule.api_key_pattern;
            daily_spent = daily;
            daily_limit = rule.daily_limit_usd;
            monthly_spent = monthly;
            monthly_limit = rule.monthly_limit_usd;
            action = rule.action;
          })
          (read_rules h t).0 in
      statuses (per_rule ++ default_status h.budget_mgr daily monthly)

  -- The function that a route has.
  pub handle : Endpoint → Handler Carrier → Request → Moment → Handler Carrier × Reply Carrier
  unfolding handle_list_rules handle_create_rule handle_delete_rule handle_list_blocked
      handle_block_key handle_unblock_key handle_list_api_keys handle_list_providers
      handle_budget_status
  handle list_rules h r t = (h, handle_list_rules h t)
  handle create_rule h r t = handle_create_rule h r t
  handle delete_rule h r t = handle_delete_rule h r t
  handle list_api_keys h r t = (h, handle_list_api_keys t)
  handle list_blocked h r t = (h, handle_list_blocked h t)
  handle block_key h r t = handle_block_key h r t
  handle unblock_key h r t = handle_unblock_key h r t
  handle list_providers h r t = (h, handle_list_providers h t)
  handle budget_status h r t = (h, handle_budget_status h t)

  -- requireAuth, before the function of a route.
  pub require_auth : Endpoint → Handler Carrier → Request → Moment → Handler Carrier × Reply Carrier
  unfolding handle
  require_auth e h r t =
      if str_eq h.token ""
      then (h, refused 403 "admin API not configured")
      else if not (str_eq (r.headers.header "Authorization") (str_append "Bearer " h.token))
      then (h, refused 401 "invalid admin token")
      else if not (str_eq r.method "GET")
          && not (str_eq (r.headers.header "X-Requested-With") "XMLHttpRequest")
      then (h, refused 403 "missing required header")
      else handle e h r t

  -- A request to the mux; `none` is the mux's own reply.
  pub serve : Handler Carrier → Request → Moment → Handler Carrier × Option (Reply Carrier)
  unfolding require_auth
  serve h r t = elim (endpoint_of routes r) [
    | none ↦ (h, none)
    | some e ↦ let (h', reply) = require_auth e h r t in (h', some reply)
  ]
