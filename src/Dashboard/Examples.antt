-- ===== src/Dashboard/Examples.antt =====
-- A store with one call, shown without a tracker.
use agent_ledger.Base.{ℤ, pos, ◌≡◌, false, String, Option, none, some, List, [], ◌∷◌, length, arith}
use agent_ledger.Base.FixedPoint.{thousandths, sum_ℤ, first_ℤ}
use agent_ledger.Agent.Tracker.{Tracker}
use agent_ledger.Budget.Spend.{Calendar}
use agent_ledger.Ledger.Usage.{UsageRecord}
use agent_ledger.Ledger.Store.{Database, Sql, where_rows}
use agent_ledger.Dashboard.{Summary, handle_summary}
use agent_ledger.Dashboard.Summing.{store_queries, todays, handle_summary-requests}

abbrev pick : UsageRecord ℤ → List (UsageRecord ℤ) → UsageRecord ℤ
pick u us = u

-- Amounts in thousandths, summed exactly, with averages rounded to their first term.
abbrev sql : Sql ℤ
sql = record { sum = sum_ℤ; avg = first_ℤ; avg_int = first_ℤ }

abbrev param : String → String
param name = ""

abbrev atoi : String → ℤ
atoi text = pos 0

abbrev one_call : Database ℤ
one_call = record {
  usage_records =
      record {
        id = "u1";
        timestamp = pos 7;
        provider = "openai";
        model = "gpt-4o";
        api_key_hash = "h";
        input_tokens = pos 5;
        output_tokens = pos 2;
        total_tokens = pos 7;
        cost_usd = pos 30;
        estimated = false;
        duration_ms = pos 12;
        status_code = pos 200;
        path = "/v1/models";
        agent_id = "";
        session_id = "s1";
        user_id = "";
        tenant_id = "acme";
      }
      ∷ [];
  agent_sessions = [];
}

abbrev cal : Calendar
cal = record { day_start = λ t. pos 5; month_start = λ t. pos 0 }

abbrev no_tracker : Option (Tracker ℤ)
no_tracker = none

handle_summary-requests_example :
    (summary : Summary ℤ) × (handle_summary thousandths
        (store_queries thousandths sql pick param atoi one_call)
        param
        atoi
        no_tracker
        cal
        (pos 9)
      ≡ some summary)
    × (summary.today_requests
        ≡ pos (length (todays thousandths sql pick param atoi one_call cal (pos 9))))
unfolding where_rows
handle_summary-requests_example =
    handle_summary-requests thousandths sql pick param atoi one_call no_tracker cal (pos 9)
      (ground arith)
