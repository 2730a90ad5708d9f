-- ===== src/Dashboard.antt =====
-- internal/dashboard/handlers.go: the API that shows costs, over the queries of the ledger. `none` is
-- the reply "internal server error"; logging and the export as CSV are left out.
pub mod Summing
mod Examples
use agent_ledger.Base.{
  ℕ, ℤ, pos, Bool, true, false, ◌+ℤ◌, ◌-ℤ◌, String, str_eq, Option, none, some, List, [], ◌∷◌,
  if◌then◌else◌, leb_ℤ, add64, mul64,
}
use agent_ledger.Base.Float64.{Float64}
use agent_ledger.Base.Clock.{Time, Duration, add, hour}
use agent_ledger.Agent.Session.{Session}
use agent_ledger.Agent.Tracker.{Tracker, active_session_count, list_sessions}
use agent_ledger.Budget.Spend.{Calendar}
use agent_ledger.Ledger.Usage.{CostEntry, CostFilter}
use agent_ledger.Ledger.Store.{ErrorStats}

pub record Summary (A : Type 0) : Type 0 where
  pub today_spend_usd : A
  pub month_spend_usd : A
  pub today_requests : ℤ
  pub active_sessions : ℕ

-- The queries of ledger.Ledger; `none` is an error.
pub record Queries (A : Type 0) : Type 0 where
  pub query_costs : CostFilter → Option (List (CostEntry A))
  pub query_error_stats : Time → Time → String → Option (ErrorStats A)

infixl 5 ◌>>=◌
abbrev ◌>>=◌ : {A B : Type 0} → Option A → (A → Option B) → Option B
none >>= k = none
some a >>= k = k a

-- The value of a query parameter, or its default where it is missing.
abbrev pub or_text : String → String → String
or_text value default = if str_eq value "" then default else value

-- A number, or its default where it is not positive; strconv.Atoi gives 0 for no number.
abbrev pub or_number : ℤ → ℤ → ℤ
or_number value default = if leb_ℤ value (pos 0) then default else value

-- now.Add(-time.Duration(hours) * time.Hour)
unfoldable pub window_start : ℤ → Time → Time
unfolding ◌-ℤ◌
window_start hours now = add now (mul64 (pos 0 -ℤ hours) hour)

-- handleSessions
pub handle_sessions : {A : Type 0} → Option (Tracker A) → List (Session A)
handle_sessions none = []
handle_sessions (some t) = list_sessions t

abbrev active_count : {A : Type 0} → Option (Tracker A) → ℕ
active_count none = 0
active_count (some t) = active_session_count t

module _ (f : Float64) (queries : Queries f.Carrier) (param : String → String)
    (atoi : String → ℤ) where
  open f use {Carrier, add as add_usd, of_int}

  unfoldable pub spend_of : Carrier → List (CostEntry Carrier) → Carrier
  spend_of spend [] = spend
  spend_of spend (e ∷ es) = spend_of (add_usd spend e.total_cost_usd) es

  unfoldable pub requests_from : ℤ → List (CostEntry Carrier) → ℤ
  requests_from n [] = n
  requests_from n (e ∷ es) = requests_from (add64 n e.requests) es

  abbrev pub by_model : Time → Time → CostFilter
  by_model since until = record {
    since = since;
    until = until;
    group_by = "model";
    tenant_id = param "tenant";
  }

  -- handleSummary
  unfoldable pub handle_summary :
      Option (Tracker Carrier) → Calendar → Time → Option (Summary Carrier)
  handle_summary tracker cal now = do
    today ← queries.query_costs (by_model (cal.day_start now) now)
    month ← queries.query_costs (by_model (cal.month_start now) now)
    some (record {
      today_spend_usd = spend_of (of_int (pos 0)) today;
      month_spend_usd = spend_of (of_int (pos 0)) month;
      today_requests = requests_from (pos 0) today;
      active_sessions = active_count tracker;
    })

  hours : ℤ → ℤ
  hours default = or_number (atoi (param "hours")) default

  -- handleCosts
  unfoldable pub handle_costs : Time → Option (List (CostEntry Carrier))
  unfolding hours
  handle_costs now = queries.query_costs (record {
    since = window_start (hours (pos 24)) now;
    until = now;
    group_by = or_text (param "group_by") "model";
    tenant_id = param "tenant";
  })

  -- handleExport, in the format of JSON.
  pub handle_export : Time → Option (List (CostEntry Carrier))
  unfolding hours
  handle_export now = queries.query_costs (record {
    since = window_start (hours (pos 720)) now;
    until = now;
    group_by = or_text (param "group_by") "model";
    tenant_id = param "tenant";
  })

  -- handleStats
  unfoldable pub handle_stats : Time → Option (ErrorStats Carrier)
  unfolding hours
  handle_stats now =
      queries.query_error_stats (window_start (hours (pos 24)) now) now (param "tenant")
