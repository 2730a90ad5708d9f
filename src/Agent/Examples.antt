-- ===== src/Agent/Examples.antt =====
-- A tracker at work, with costs in thousandths of a dollar.
use agent_ledger.Base.{
  ℤ, pos, ◌≡◌, ◌≢◌, ◌↔◌, ◌≤ℤ◌, ◌<ℤ◌, ◌<◌, true, false, String, none, List, [], ◌∷◌, arith, eq_iff,
  length,
}
use agent_ledger.Base.GoMap
use agent_ledger.Base.FixedPoint.{thousandths}
use agent_ledger.Agent.Session.{active, CallRecord, Config, TrackedSession}
use agent_ledger.Agent.Detector.{check_loop, cutoff_at, new_detector}
use agent_ledger.Agent.Detector.LoopWindow.{calls_within, check_loop-calls_within}
use agent_ledger.Agent.Tracker.{Tracker, CallTimes, trim_calls, evict_oldest, new_tracker}
use agent_ledger.Agent.Tracker.Capacity.{IsOldest, evict_oldest-IsOldest}
use agent_ledger.Agent.Tracker.Trimming.{check_loop-trim_calls}
use agent_ledger.Agent.Tracker.Invariant.{Fits, Operation, call, ending, flushing, run, run-Fits}

abbrev settings : Config ℤ
settings = record {
  session_timeout_mins = pos 30;
  loop_threshold = pos 2;
  loop_window_mins = pos 5;
  loop_action = "block";
  ghost_max_age_mins = pos 60;
  ghost_min_calls = pos 1;
  ghost_min_cost_usd = pos 0;
}

abbrev history : List CallRecord
history =
    record { timestamp = pos 100; model = "gpt-4o"; path = "/v1/chat" }
    ∷ record { timestamp = pos 400000000000; model = "gpt-4o"; path = "/v1/chat" }
    ∷ record { timestamp = pos 400000000001; model = "gpt-4o"; path = "/v1/chat" }
    ∷ []

abbrev running : TrackedSession ℤ
running = record {
  session = record {
    id = "s1";
    agent_id = "a1";
    user_id = "";
    task = "";
    started_at = pos 50;
    ended_at = none;
    status = active;
    call_count = pos 3;
    total_cost_usd = pos 7;
    total_tokens = pos 90;
  };
  calls = history;
  dirty = true;
  ghost_alerted = false;
}

abbrev tracker : Tracker ℤ
tracker = record {
  cfg = settings;
  has_metrics = true;
  has_notifier = true;
  sessions = ("s1", running) ∷ [];
}

check_loop-calls_within_example :
    (check_loop (new_detector settings) history "/v1/chat" "s1" "a1" (pos 400000000002) ≢ none) ↔ (
      (pos 0 <ℤ (new_detector settings).loop_threshold)
      × (pos 0 <ℤ (new_detector settings).loop_window)
      × ((new_detector settings).loop_threshold
          ≤ℤ pos (
              calls_within
                (cutoff_at (pos 400000000002) (new_detector settings).loop_window)
                "/v1/chat"
                history)))
check_loop-calls_within_example =
    check_loop-calls_within (new_detector settings) history "/v1/chat" "s1" "a1" (pos 400000000002)
      ((omega arith, (omega arith, tt)), ((omega arith, tt), (tt, tt)))

check_loop-trim_calls_example :
    check_loop
      (new_detector settings)
      (trim_calls settings (pos 400000000002) history)
      "/v1/chat"
      "s1"
      "a1"
      (pos 400000000003)
    ≡ check_loop (new_detector settings) history "/v1/chat" "s1" "a1" (pos 400000000003)
check_loop-trim_calls_example =
    check_loop-trim_calls settings "/v1/chat" "s1" "a1" history (pos 400000000002)
      (pos 400000000003) ((omega arith, (omega arith, tt)), ((omega arith, tt), (tt, tt)))
      (omega arith)

evict_oldest-IsOldest_example :
    (id : String) × IsOldest (("s1", running) ∷ []) id
    × (evict_oldest (("s1", running) ∷ []) ≡ GoMap.delete (("s1", running) ∷ []) id)
    × (length (evict_oldest (("s1", running) ∷ [])) < 1)
evict_oldest-IsOldest_example =
    evict_oldest-IsOldest [] ("s1", running) (tt, tt) ((λ e. ground (arith, eq_iff "s1" "")), tt)

abbrev at_once : CallTimes
at_once = record { started = pos 1; called = pos 2; trimmed = pos 3; checked = pos 4 }

s1_named : ◌≢◌ {A = String} "s1" ""
s1_named e = ground (arith, eq_iff "s1" "")

abbrev script : List (Operation thousandths)
script =
    call "s1" s1_named "a1" "" "" "gpt-4o" "/v1/chat" at_once ∷ ending "s1" (pos 9) ∷ flushing ∷ []

run-Fits_example : Fits (run thousandths (new_tracker settings true) script).sessions
run-Fits_example = run-Fits thousandths settings true script
