-- ===== src/Agent/Tracker/Trimming.antt =====
-- Trimming the history of a session is invisible to loop detection.
use agent_ledger.Base.{◌≤ℤ◌, ◌≡◌, refl, String, List, [], ◌∷◌, arith, -ℤ_parts}
use agent_ledger.Base.Clock.{Time, Duration}
use agent_ledger.Agent.Session.{CallRecord, Config}
use agent_ledger.Agent.Detector.{new_detector, recent_count, check_loop, cutoff_at}
use agent_ledger.Agent.Detector.LoopWindow.{calls_within, Chronological, recent_count-calls_within}
use agent_ledger.Agent.Tracker.{drop_old, trim_calls}

calls_within-drop_old :
    (earlier cutoff : Time) (path : String) (xs : List CallRecord)
    → earlier ≤ℤ cutoff
    → calls_within cutoff path (drop_old earlier xs) ≡ calls_within cutoff path xs
unfolding drop_old calls_within
calls_within-drop_old earlier cutoff path [] h = refl
calls_within-drop_old earlier cutoff path (x ∷ xs) h =
    ground (arith, calls_within-drop_old earlier cutoff path xs h)

drop_old-Chronological :
    (cutoff : Time) (xs : List CallRecord) → Chronological xs → Chronological (drop_old cutoff xs)
unfolding drop_old
drop_old-Chronological cutoff [] h = tt
drop_old-Chronological cutoff (x ∷ xs) h = ground (arith, drop_old-Chronological cutoff xs h.1)

trim_calls-Chronological :
    {A : Type 0} (cfg : Config A) (now : Time) (xs : List CallRecord)
    → Chronological xs
    → Chronological (trim_calls cfg now xs)
unfolding trim_calls
trim_calls-Chronological cfg now xs h =
    ground (arith, drop_old-Chronological (cutoff_at now (new_detector cfg).loop_window) xs h)

cutoff_at_mono : (t u : Time) (w : Duration) → t ≤ℤ u → cutoff_at t w ≤ℤ cutoff_at u w
unfolding cutoff_at
cutoff_at_mono t u w h = omega (arith, -ℤ_parts t w, -ℤ_parts u w)

recent_count-trim_calls :
    {A : Type 0} (cfg : Config A) (path : String) (xs : List CallRecord) (trimmed checked : Time)
    → Chronological xs
    → trimmed ≤ℤ checked
    → let cutoff = cutoff_at checked (new_detector cfg).loop_window in
      recent_count cutoff path (trim_calls cfg trimmed xs) ≡ recent_count cutoff path xs
unfolding trim_calls
recent_count-trim_calls cfg path xs trimmed checked h le =
    let w = (new_detector cfg).loop_window in
    let cutoff = cutoff_at checked w in
    ground (
      arith,
      recent_count-calls_within cutoff path xs h,
      recent_count-calls_within cutoff path (drop_old (cutoff_at trimmed w) xs)
          (drop_old-Chronological (cutoff_at trimmed w) xs h),
      calls_within-drop_old (cutoff_at trimmed w) cutoff path xs
          (cutoff_at_mono trimmed checked w le),
    )

-- For a history in the order of time, loop detection gives the same answer on the trimmed history
-- as on the whole one, if the clock does not go back between trimming and detection.
pub check_loop-trim_calls :
    {A : Type 0} (cfg : Config A) (path session agent : String) (xs : List CallRecord)
    (trimmed checked : Time)
    → Chronological xs
    → trimmed ≤ℤ checked
    → check_loop (new_detector cfg) (trim_calls cfg trimmed xs) path session agent checked
      ≡ check_loop (new_detector cfg) xs path session agent checked
unfolding check_loop
check_loop-trim_calls cfg path session agent xs trimmed checked h le =
    ground (arith, recent_count-trim_calls cfg path xs trimmed checked h le)
