-- ===== src/Agent/Tracker.antt =====
-- internal/agent/session.go: the tracker. An operation returns the new tracker and its effects on
-- the metrics sink, the alert notifier and the store, in order; logging is left out. The
-- background loop is the sequence flush, expire_idle_sessions, detect_ghosts at some instants.
pub mod Capacity
pub mod Trimming
pub mod Invariant
pub mod Endings
pub mod Flushing
pub mod Ghosts
use agent_ledger.Base.{
  ◌≡◌, refl, ℕ, suc, ℤ, pos, Bool, true, false, not, ◌&&◌, ◌||◌, String, str_eq, Option, none, some,
  List, [], ◌∷◌, ◌++◌, ltb_ℤ, leb_ℤ, ltb, leb, add64, mul64, if◌then◌else◌, length, ◌-ℤ◌,
}
use agent_ledger.Base.GoMap
use agent_ledger.Base.GoMap.{GoMap}
use agent_ledger.Base.Clock.{Time, Duration, sub, before, minute}
use agent_ledger.Base.Float64.{Float64}
use agent_ledger.Agent.Session.{
  Status, active, completed, killed, Session, CallRecord, Config, TrackedSession, AgentAlert,
}
use agent_ledger.Agent.Detector.{Detector, new_detector, cutoff_at, check_loop, check_ghost}

abbrev pub max_active_sessions : ℕ
max_active_sessions = 10000

pub data Effect (A : Type 0) : Type 0 where
  session_started : Effect A
  session_ended : Effect A
  alert_recorded : String → Effect A
  alert_notified : AgentAlert A → Effect A
  session_upserted : Session A → Effect A

-- Tracker; the flags say whether the metrics sink and the notifier are there.
pub record Tracker (A : Type 0) : Type 0 where
  pub cfg : Config A
  pub has_metrics : Bool
  pub has_notifier : Bool
  pub sessions : GoMap (TrackedSession A)

-- The instants at which TrackCall reads the clock.
pub record CallTimes : Type 0 where
  pub started : Time
  pub called : Time
  pub trimmed : Time
  pub checked : Time

abbrev pub when : {A : Type 0} → Bool → Effect A → List (Effect A)
when true e = e ∷ []
when false e = []

last_call : Time → List CallRecord → Time
last_call t [] = t
last_call t (c ∷ cs) = last_call c.timestamp cs

-- The loop that trims calls older than the loop window from the front.
drop_old : Time → List CallRecord → List CallRecord
drop_old cutoff [] = []
drop_old cutoff (c ∷ cs) =
    let rest = drop_old cutoff cs in if before c.timestamp cutoff then rest else c ∷ cs

module _ {A : Type 0} where
  pub new_tracker : Config A → Bool → Tracker A
  new_tracker cfg has_metrics = record {
    cfg = cfg;
    has_metrics = has_metrics;
    has_notifier = false;
    sessions = [];
  }

  pub enabled : Tracker A → Bool
  enabled t = ltb_ℤ (pos 0) t.cfg.loop_threshold || ltb_ℤ (pos 0) t.cfg.ghost_max_age_mins

  pub set_alert_notifier : Tracker A → Tracker A
  set_alert_notifier t = record t { has_notifier = true }

  pub should_block : Tracker A → Bool
  should_block t = str_eq t.cfg.loop_action "block"

  -- ts.calls[len(ts.calls)-1].Timestamp, or StartedAt where there are no calls.
  pub last_activity : TrackedSession A → Time
  unfolding last_call
  last_activity ts = last_call ts.session.started_at ts.calls

  -- The loop of evictOldest, behind its first round.
  oldest_from : String → Time → GoMap (TrackedSession A) → String
  oldest_from oldest_id oldest_time [] = oldest_id
  oldest_from oldest_id oldest_time ((id, ts) ∷ m) =
      let older = before (last_activity ts) oldest_time in
      oldest_from (if older then id else oldest_id)
        (if older then last_activity ts else oldest_time) m

  oldest : GoMap (TrackedSession A) → String
  unfolding oldest_from
  oldest [] = ""
  oldest ((id, ts) ∷ m) = oldest_from id (last_activity ts) m

  -- evictOldest
  pub evict_oldest : GoMap (TrackedSession A) → GoMap (TrackedSession A)
  unfolding oldest
  evict_oldest m = let id = oldest m in if str_eq id "" then m else GoMap.delete m id

  -- Trimming happens when the history has more than ten times the loop threshold.
  pub trim_calls : Config A → Time → List CallRecord → List CallRecord
  unfolding drop_old
  trim_calls cfg now calls =
      let window = (new_detector cfg).loop_window in
      if ltb_ℤ (pos 0) window && ltb_ℤ (mul64 cfg.loop_threshold (pos 10)) (pos (length calls))
      then drop_old (cutoff_at now window) calls
      else calls

  -- `if len(t.sessions) >= maxActiveSessions { t.evictOldest() }`
  make_room : GoMap (TrackedSession A) → GoMap (TrackedSession A)
  make_room m = if leb max_active_sessions (length m) then evict_oldest m else m

  -- The session of a call: the tracked session, or a new one after room is made.
  pub start_session :
      A
      → Tracker A
      → String
      → String
      → String
      → String
      → Time
      → GoMap (TrackedSession A) × TrackedSession A × List (Effect A)
  unfolding make_room
  start_session zero t session_id agent_id user_id task now =
      let fresh : TrackedSession A = record {
        session = record {
          id = session_id;
          agent_id = agent_id;
          user_id = user_id;
          task = task;
          started_at = now;
          ended_at = none;
          status = active;
          call_count = pos 0;
          total_cost_usd = zero;
          total_tokens = pos 0;
        };
        calls = [];
        dirty = false;
        ghost_alerted = false;
      } in
      elim (GoMap.get t.sessions session_id) [
        | some ts ↦ (t.sessions, ts, [])
        | none ↦ (
          GoMap.put (make_room t.sessions) session_id fresh,
          fresh,
          when t.has_metrics session_started,
        )
      ]

  add_call : Config A → TrackedSession A → CallRecord → Time → TrackedSession A
  unfolding trim_calls
  add_call cfg ts call trimmed = record ts {
    session = record ts.session { call_count = add64 ts.session.call_count (pos 1) };
    calls = trim_calls cfg trimmed (ts.calls ++ call ∷ []);
    dirty = true;
  }

  -- Loop detection at the end of TrackCall.
  loop_alert :
      Tracker A
      → List CallRecord
      → String
      → String
      → String
      → Time
      → Option (AgentAlert A) × List (Effect A)
  loop_alert t calls path session_id agent_id now =
      if ltb_ℤ (pos 0) t.cfg.loop_threshold
      then (elim (check_loop (new_detector t.cfg) calls path session_id agent_id now) [
        | none ↦ (none, [])
        | some alert ↦ (
          some alert,
          when t.has_metrics (alert_recorded "loop_detected")
              ++ when t.has_notifier (alert_notified alert),
        )
      ])
      else (none, [])

  -- RecordCost, with the addition of amounts.
  pub record_cost : (A → A → A) → Tracker A → String → A → ℤ → Tracker A
  record_cost add t session_id cost_usd tokens = elim (GoMap.get t.sessions session_id) [
    | none ↦ t
    | some ts ↦ record t {
      sessions = GoMap.put t.sessions session_id (record ts {
        session = record ts.session {
          total_cost_usd = add ts.session.total_cost_usd cost_usd;
          total_tokens = add64 ts.session.total_tokens tokens;
        };
        dirty = true;
      });
    }
  ]

  complete : TrackedSession A → Time → TrackedSession A
  complete ts now = record ts {
    session = record ts.session { ended_at = some now; status = completed };
    dirty = true;
  }

  pub end_session : Tracker A → String → Time → Tracker A × List (Effect A)
  unfolding complete
  end_session t session_id now = elim (GoMap.get t.sessions session_id) [
    | none ↦ (t, [])
    | some ts ↦ (
      record t { sessions = GoMap.put t.sessions session_id (complete ts now) },
      when t.has_metrics session_ended,
    )
  ]

  abbrev pub is_active : TrackedSession A → Bool
  is_active ts = elim ts.session.status [ active ↦ true | completed ↦ false | killed ↦ false ]

  count_active : GoMap (TrackedSession A) → ℕ
  count_active [] = 0
  count_active ((id, ts) ∷ m) = let rest = count_active m in if is_active ts then suc rest else rest

  pub active_session_count : Tracker A → ℕ
  unfolding count_active
  active_session_count t = count_active t.sessions

  sessions_of : GoMap (TrackedSession A) → List (Session A)
  sessions_of [] = []
  sessions_of ((id, ts) ∷ m) = ts.session ∷ sessions_of m

  pub list_sessions : Tracker A → List (Session A)
  unfolding sessions_of
  list_sessions t = sessions_of t.sessions

  -- The first loop of flush: the dirty sessions, and the map with no session dirty.
  dirty_sessions : GoMap (TrackedSession A) → List (Session A)
  dirty_sessions [] = []
  dirty_sessions ((id, ts) ∷ m) =
      let rest = dirty_sessions m in if ts.dirty then ts.session ∷ rest else rest

  pub cleaned : GoMap (TrackedSession A) → GoMap (TrackedSession A)
  cleaned [] = []
  cleaned ((id, ts) ∷ m) =
      let rest = cleaned m in (id, if ts.dirty then record ts { dirty = false } else ts) ∷ rest

  -- UpsertSession for each, behind the lock. An error is logged and forgotten.
  upserts : List (Session A) → List (Effect A)
  upserts [] = []
  upserts (s ∷ ss) = session_upserted s ∷ upserts ss

  pub flush : Tracker A → Tracker A × List (Effect A)
  unfolding dirty_sessions cleaned upserts
  flush t = (
    record t {
      sessions = GoMap.delete_where (λ ts. not (is_active ts) && not ts.dirty) (cleaned t.sessions);
    },
    upserts (dirty_sessions t.sessions),
  )

  idle_for : Duration → TrackedSession A → Time → Bool
  idle_for timeout ts now = is_active ts && ltb_ℤ timeout (sub now (last_activity ts))

  expire_all :
      Bool → Duration → Time → GoMap (TrackedSession A) → GoMap (TrackedSession A) × List (Effect A)
  unfolding complete idle_for
  expire_all has_metrics timeout now [] = ([], [])
  expire_all has_metrics timeout now ((id, ts) ∷ m) =
      let (m', effects) = expire_all has_metrics timeout now m in
      if idle_for timeout ts now
      then ((id, complete ts now) ∷ m', when has_metrics session_ended ++ effects)
      else ((id, ts) ∷ m', effects)

  pub expire_idle_sessions : Tracker A → Time → Tracker A × List (Effect A)
  unfolding expire_all
  expire_idle_sessions t now =
      if leb_ℤ t.cfg.session_timeout_mins (pos 0)
      then (t, [])
      else let timeout = mul64 t.cfg.session_timeout_mins minute in
        let (m, effects) = expire_all t.has_metrics timeout now t.sessions in
        (record t { sessions = m }, effects)

module _ (f : Float64) where
  open f use {Carrier, add, of_int}

  pub track_call :
      Tracker Carrier
      → String
      → String
      → String
      → String
      → String
      → String
      → CallTimes
      → Tracker Carrier × Option (AgentAlert Carrier) × List (Effect Carrier)
  unfolding start_session add_call loop_alert
  track_call t session_id agent_id user_id task model path times =
      let (sessions, ts, started) =
        start_session (of_int (pos 0)) t session_id agent_id user_id task times.started in
      let call : CallRecord = record { timestamp = times.called; model = model; path = path } in
      let ts' = add_call t.cfg ts call times.trimmed in
      let (alert, alerted) = loop_alert t ts'.calls path session_id agent_id times.checked in
      (record t { sessions = GoMap.put sessions session_id ts' }, alert, started ++ alerted)

  -- A call leaves the configured action alone.
  pub should_block-track_call :
      (t : Tracker Carrier) (session_id agent_id user_id task model path : String)
      (times : CallTimes)
      → should_block (track_call t session_id agent_id user_id task model path times).0
        ≡ str_eq t.cfg.loop_action "block"
  unfolding track_call should_block
  should_block-track_call t session_id agent_id user_id task model path times = refl

  -- One session of detectGhosts, at the one instant that stands for the loop's readings.
  ghost_check :
      Tracker Carrier
      → TrackedSession Carrier
      → Time
      → TrackedSession Carrier × List (Effect Carrier)
  ghost_check t ts now =
      if not (is_active ts) || ts.ghost_alerted
      then (ts, [])
      else (elim (check_ghost f (new_detector t.cfg) ts.session now) [
        | none ↦ (ts, [])
        | some alert ↦ (
          record ts { ghost_alerted = true },
          when t.has_metrics (alert_recorded "ghost_detected")
              ++ when t.has_notifier (alert_notified alert),
        )
      ])

  ghost_all :
      Tracker Carrier
      → Time
      → GoMap (TrackedSession Carrier)
      → GoMap (TrackedSession Carrier) × List (Effect Carrier)
  unfolding ghost_check
  ghost_all t now [] = ([], [])
  ghost_all t now ((id, ts) ∷ m) =
      let (m', effects) = ghost_all t now m in
      let (ts', alerted) = ghost_check t ts now in ((id, ts') ∷ m', alerted ++ effects)

  pub detect_ghosts : Tracker Carrier → Time → Tracker Carrier × List (Effect Carrier)
  unfolding ghost_all
  detect_ghosts t now =
      if leb_ℤ t.cfg.ghost_max_age_mins (pos 0)
      then (t, [])
      else let (m, effects) = ghost_all t now t.sessions in (record t { sessions = m }, effects)
