-- ===== src/Agent/Detector.antt =====
-- internal/agent/detector.go: loops and ghost agents.
pub mod LoopWindow
use mathlib.Core.List.{reverse}
use agent_ledger.Base.{
  ℕ, suc, ℤ, pos, Bool, true, false, ◌||◌, String, str_eq, Option, none, some, List, [], ◌∷◌, ltb_ℤ,
  leb_ℤ, mul64, if◌then◌else◌, ◌-ℤ◌, pos_part, ◌/◌, ◌*◌,
}
use agent_ledger.Base.Clock.{Time, Duration, sub, before, minute}
use agent_ledger.Base.Float64.{Float64}
use agent_ledger.Agent.Session.{
  Session, CallRecord, Config, AgentAlert, path_called, session_active,
}

pub record Detector (A : Type 0) : Type 0 where
  pub loop_threshold : ℤ
  pub loop_window : Duration
  pub ghost_max_age : Duration
  pub ghost_min_calls : ℤ
  pub ghost_min_cost : A

-- NewDetector
unfoldable pub new_detector : {A : Type 0} → Config A → Detector A
new_detector cfg = record {
  loop_threshold = cfg.loop_threshold;
  loop_window = mul64 cfg.loop_window_mins minute;
  ghost_max_age = mul64 cfg.ghost_max_age_mins minute;
  ghost_min_calls = cfg.ghost_min_calls;
  ghost_min_cost = cfg.ghost_min_cost_usd;
}

-- time.Now().Add(-window)
unfoldable pub cutoff_at : Time → Duration → Time
cutoff_at now window = now -ℤ window

-- The loop of CheckLoop, newest call first: it stops at the first call before the cutoff.
count_back : Time → String → List CallRecord → ℕ
count_back cutoff path [] = 0
count_back cutoff path (c ∷ cs) =
    let rest = count_back cutoff path cs in
    if before c.timestamp cutoff then 0 else if str_eq c.path path then suc rest else rest

pub recent_count : Time → String → List CallRecord → ℕ
unfolding count_back
recent_count cutoff path calls = count_back cutoff path (reverse calls)

unfoldable pub check_loop :
    {A : Type 0}
    → Detector A
    → List CallRecord
    → String
    → String
    → String
    → Time
    → Option (AgentAlert A)
check_loop d calls current_path session_id agent_id now =
    if leb_ℤ d.loop_threshold (pos 0) || leb_ℤ d.loop_window (pos 0)
    then none
    else let count = recent_count (cutoff_at now d.loop_window) current_path calls in
      if leb_ℤ d.loop_threshold (pos count)
      then some (record {
        type = "loop_detected";
        session_id = session_id;
        agent_id = agent_id;
        message = path_called current_path count d.loop_window d.loop_threshold;
      })
      else none

-- age.Truncate(time.Minute), of a positive age.
abbrev truncate_minute : Duration → Duration
truncate_minute age = pos (pos_part age / pos_part minute * pos_part minute)

unfoldable pub check_ghost :
    (f : Float64) → Detector f.Carrier → Session f.Carrier → Time → Option (AgentAlert f.Carrier)
check_ghost f d s now =
    if leb_ℤ d.ghost_max_age (pos 0)
    then none
    else let age = sub now s.started_at in
      if ltb_ℤ age d.ghost_max_age
      then none
      else if ltb_ℤ s.call_count d.ghost_min_calls
      then none
      else if f.lt s.total_cost_usd d.ghost_min_cost
      then none
      else some (record {
        type = "ghost_detected";
        session_id = s.id;
        agent_id = s.agent_id;
        message = session_active (truncate_minute age) s.call_count s.total_cost_usd;
      })
