-- ===== src/Agent/Session.antt =====
-- internal/agent/session.go and detector.go: the data.
use agent_ledger.Base.{ℤ, ℕ, Bool, String, Option, List}
use agent_ledger.Base.Clock.{Time, Duration}

-- The constants StatusActive and StatusCompleted; StatusKilled is never set by this package.
pub data Status : Type 0 where
  active completed killed : Status

pub record Session (A : Type 0) : Type 0 where
  pub id : String
  pub agent_id : String
  pub user_id : String
  pub task : String
  pub started_at : Time
  pub ended_at : Option Time
  pub status : Status
  pub call_count : ℤ
  pub total_cost_usd : A
  pub total_tokens : ℤ

pub record CallRecord : Type 0 where
  pub timestamp : Time
  pub model : String
  pub path : String

pub record Config (A : Type 0) : Type 0 where
  pub session_timeout_mins : ℤ
  pub loop_threshold : ℤ
  pub loop_window_mins : ℤ
  pub loop_action : String
  pub ghost_max_age_mins : ℤ
  pub ghost_min_calls : ℤ
  pub ghost_min_cost_usd : A

-- trackedSession; the oldest call stands first.
pub record TrackedSession (A : Type 0) : Type 0 where
  pub session : Session A
  pub calls : List CallRecord
  pub dirty : Bool
  pub ghost_alerted : Bool

-- The text of an alert is kept as what its format is given.
pub data Message (A : Type 0) : Type 0 where
  path_called : String → ℕ → Duration → ℤ → Message A
  session_active : Duration → ℤ → A → Message A

-- Alert
pub record AgentAlert (A : Type 0) : Type 0 where
  pub type : String
  pub session_id : String
  pub agent_id : String
  pub message : Message A
