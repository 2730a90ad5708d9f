-- ===== src/Ledger/Usage.antt =====
-- internal/ledger/models.go: one metered call, and the costs of a group of them.
use agent_ledger.Base.{ℤ, String, Bool}
use agent_ledger.Base.Clock.{Time}

pub record UsageRecord (A : Type 0) : Type 0 where
  pub id : String
  pub timestamp : Time
  pub provider : String
  pub model : String
  pub api_key_hash : String
  pub input_tokens : ℤ
  pub output_tokens : ℤ
  pub total_tokens : ℤ
  pub cost_usd : A
  pub estimated : Bool
  pub duration_ms : ℤ
  pub status_code : ℤ
  pub path : String
  pub agent_id : String
  pub session_id : String
  pub user_id : String
  pub tenant_id : String

-- What QueryCosts answers for a group of records.
pub record CostEntry (A : Type 0) : Type 0 where
  pub provider : String
  pub model : String
  pub api_key_hash : String
  pub agent_id : String
  pub session_id : String
  pub requests : ℤ
  pub input_tokens : ℤ
  pub output_tokens : ℤ
  pub total_cost_usd : A

pub record CostFilter : Type 0 where
  pub since : Time
  pub until : Time
  pub group_by : String
  pub tenant_id : String
