-- ===== src/Agent/Tracker/Ghosts.antt =====
-- A ghost agent is reported once.
use agent_ledger.Base.{◌≡◌, refl, leb_ℤ, pos, [], ◌∷◌, arith, Bool-cases, Option-cases, inl, inr}
use agent_ledger.Base.GoMap.{GoMap}
use agent_ledger.Base.Clock.{Time}
use agent_ledger.Base.Float64.{Float64}
use agent_ledger.Agent.Session.{TrackedSession}
use agent_ledger.Agent.Detector.{check_ghost, new_detector}
use agent_ledger.Agent.Tracker.{Tracker, detect_ghosts, ghost_all, ghost_check}

module _ (f : Float64) where
  open f use {Carrier}

  ghost_check_twice :
      (t u : Tracker Carrier) (ts : TrackedSession Carrier) (now : Time)
      → u.cfg ≡ t.cfg
      → (ghost_check f u (ghost_check f t ts now).0 now).1 ≡ []
  unfolding ghost_check
  ghost_check_twice t u ts now e =
      elim (Option-cases (check_ghost f (new_detector t.cfg) ts.session now)) [
        | inl quiet ↦ ground arith
        | inr (alert, raised) ↦ ground arith
      ]

  ghost_all_twice :
      (t u : Tracker Carrier) (m : GoMap (TrackedSession Carrier)) (now : Time)
      → u.cfg ≡ t.cfg
      → (ghost_all f u now (ghost_all f t now m).0).1 ≡ []
  unfolding ghost_all
  ghost_all_twice t u [] now e = refl
  ghost_all_twice t u ((i, ts) ∷ m) now e =
      rw (ghost_check_twice t u ts now e) (ghost_all_twice t u m now e)

  -- A second search for ghosts at the same instant has no effect: a session is reported only once.
  pub detect_ghosts_twice :
      (t : Tracker Carrier) (now : Time) → (detect_ghosts f (detect_ghosts f t now).0 now).1 ≡ []
  unfolding detect_ghosts
  detect_ghosts_twice t now = elim (Bool-cases (leb_ℤ t.cfg.ghost_max_age_mins (pos 0))) [
    | inl off ↦ rw (off, off)
    | inr on ↦ ground (
      arith,
      ghost_all_twice t (record t { sessions = (ghost_all f t now t.sessions).0 }) t.sessions now
          refl,
    )
  ]
