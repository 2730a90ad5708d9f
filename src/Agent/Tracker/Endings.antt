-- ===== src/Agent/Tracker/Endings.antt =====
-- The end of a session, asked for twice.
use agent_ledger.Base.{true, ◌≡◌, String, some, [], ◌∷◌, arith}
use agent_ledger.Base.GoMap
use agent_ledger.Base.Clock.{Time}
use agent_ledger.Agent.Session.{TrackedSession}
use agent_ledger.Agent.Tracker.{Tracker, session_ended, end_session, complete}

-- A session that has ended stays in memory until the next flush, and a second request to end it
-- counts as another end on the metrics sink: the gauge of active sessions loses two for one.
end_session_twice :
    {A : Type 0} (t : Tracker A) (id : String) (ts : TrackedSession A) (first second : Time)
    → t.has_metrics ≡ true
    → GoMap.get t.sessions id ≡ some ts
    → let once = end_session t id first in
      (once.1 ≡ session_ended ∷ []) × ((end_session once.0 id second).1 ≡ session_ended ∷ [])
unfolding end_session
end_session_twice t id ts first second m g =
    ground (arith, GoMap.get-put_self t.sessions id (complete ts first))
