-- ===== src/Agent/Tracker/Invariant.antt =====
-- What holds of the sessions in memory after any operations.
use agent_ledger.Base.{
  ◌≤◌, ◌<◌, ℤ, pos, Bool, ◌≡◌, ◌≢◌, refl, ap, String, some, List, [], ◌∷◌, leb_ℤ, leb, arith,
  length, Bool-cases, Option-cases, inl, inr, mul64,
}
use agent_ledger.Base.GoMap
use agent_ledger.Base.GoMap.{GoMap, Distinct, Fresh, SameKeys}
use agent_ledger.Base.Clock.{Time, Duration, minute}
use agent_ledger.Base.Float64.{Float64}
use agent_ledger.Agent.Session.{TrackedSession, Config}
use agent_ledger.Agent.Tracker.{
  Tracker, evict_oldest, start_session, make_room, max_active_sessions, track_call, record_cost,
  end_session, flush, expire_idle_sessions, detect_ghosts, cleaned, expire_all, ghost_all,
  new_tracker, CallTimes,
}
use agent_ledger.Agent.Tracker.Capacity.{evict_oldest-IsOldest}

-- Distinct keys, none of them empty, and no more than the cap.
pub record Fits {A : Type 0} (m : GoMap (TrackedSession A)) : Type 0 where
  pub distinct : Distinct m
  pub named : Fresh "" m
  pub bounded : length m ≤ max_active_sessions

module _ {A : Type 0} where
  put_old-Fits :
      (m : GoMap (TrackedSession A)) (k : String) (v w : TrackedSession A)
      → GoMap.get m k ≡ some w
      → Fits m
      → Fits (GoMap.put m k v)
  put_old-Fits m k v w g h = record {
    distinct = GoMap.Distinct-put m k v h.distinct;
    named = GoMap.Fresh-put m "" k v k_named h.named;
    bounded = rw (GoMap.length-put_old m k v w g) h.bounded;
  }
    where
      k_named : k ≢ ""
      k_named p = ground (arith, GoMap.get-Fresh m "" h.named, ap (GoMap.get m) p, g)

  put_new-Fits :
      (m : GoMap (TrackedSession A)) (k : String) (v : TrackedSession A)
      → k ≢ ""
      → Fits m
      → length m < max_active_sessions
      → Fits (GoMap.put m k v)
  put_new-Fits m k v n h l = record {
    distinct = GoMap.Distinct-put m k v h.distinct;
    named = GoMap.Fresh-put m "" k v n h.named;
    bounded = omega (arith, GoMap.length-put-le m k v);
  }

  SameKeys-Fits : (m n : GoMap (TrackedSession A)) → SameKeys m n → Fits m → Fits n
  SameKeys-Fits m n s h = record {
    distinct = GoMap.SameKeys-Distinct m n s h.distinct;
    named = GoMap.SameKeys-Fresh m n "" s h.named;
    bounded = rw (← GoMap.SameKeys-length m n s) h.bounded;
  }

  delete-Fits : (m : GoMap (TrackedSession A)) (k : String) → Fits m → Fits (GoMap.delete m k)
  delete-Fits m k h = record {
    distinct = GoMap.Distinct-delete m k h.distinct;
    named = GoMap.Fresh-delete m "" k h.named;
    bounded = omega (arith, GoMap.length-delete-le m k, h.bounded);
  }

  delete_where-Fits :
      (drop : TrackedSession A → Bool) (m : GoMap (TrackedSession A))
      → Fits m
      → Fits (GoMap.delete_where drop m)
  delete_where-Fits drop m h = record {
    distinct = GoMap.Distinct-delete_where drop m h.distinct;
    named = GoMap.Fresh-delete_where drop m "" h.named;
    bounded = omega (arith, GoMap.length-delete_where-le drop m, h.bounded);
  }

  -- Eviction at the cap makes room.
  evict_oldest-Fits :
      (m : GoMap (TrackedSession A))
      → Fits m
      → 0 < length m
      → Fits (evict_oldest m) × (length (evict_oldest m) < length m)
  evict_oldest-Fits [] h l = absurd (omega arith)
  evict_oldest-Fits (e ∷ m) h l =
      let (id, o, eq, lt) = evict_oldest-IsOldest m e h.distinct h.named in
      (rw eq (delete-Fits (e ∷ m) id h), lt)

  make_room-Fits :
      (m : GoMap (TrackedSession A))
      → Fits m
      → Fits (make_room m) × (length (make_room m) < max_active_sessions)
  unfolding make_room
  make_room-Fits m h = elim (Bool-cases (leb max_active_sessions (length m))) [
    | inl full ↦
        let (fits, less) = evict_oldest-Fits m h (ground arith) in
        rw full (fits, omega (arith, less, h.bounded))
    | inr free ↦ rw free (h, ground arith)
  ]

  -- The session of a call is in the map, and the map fits.
  start_session-Fits :
      (zero : A) (t : Tracker A) (id agent user task : String) (now : Time)
      → id ≢ ""
      → Fits t.sessions
      → let s = start_session zero t id agent user task now in
        Fits s.0 × (GoMap.get s.0 id ≡ some s.1)
  unfolding start_session
  start_session-Fits zero t id agent user task now n h =
      elim (Option-cases (GoMap.get t.sessions id)) [
        | inr (ts, found) ↦ rw (found, start_session) (h, found)
        | inl missing ↦
            let (fits, less) = make_room-Fits t.sessions h in
            rw (missing, start_session)
              (
                put_new-Fits (make_room t.sessions) id _ n fits less,
                GoMap.get-put_self (make_room t.sessions) id _,
              )
      ]

  end_session-Fits :
      (t : Tracker A) (id : String) (now : Time)
      → Fits t.sessions
      → Fits (end_session t id now).0.sessions
  unfolding end_session
  end_session-Fits t id now h = elim (Option-cases (GoMap.get t.sessions id)) [
    | inl e ↦ rw (e, end_session) h
    | inr (ts, e) ↦ rw (e, end_session) (put_old-Fits t.sessions id _ ts e h)
  ]

  pub cleaned-SameKeys : (m : GoMap (TrackedSession A)) → SameKeys m (cleaned m)
  unfolding cleaned
  cleaned-SameKeys [] = tt
  cleaned-SameKeys ((i, ts) ∷ m) = (refl, cleaned-SameKeys m)

  expire_all-SameKeys :
      (b : Bool) (d : Duration) (now : Time) (m : GoMap (TrackedSession A))
      → SameKeys m (expire_all b d now m).0
  unfolding expire_all
  expire_all-SameKeys b d now [] = tt
  expire_all-SameKeys b d now ((i, ts) ∷ m) = ground (arith, expire_all-SameKeys b d now m)

  expire_idle_sessions-Fits :
      (t : Tracker A) (now : Time) → Fits t.sessions → Fits (expire_idle_sessions t now).0.sessions
  unfolding expire_idle_sessions
  expire_idle_sessions-Fits t now h = elim (Bool-cases (leb_ℤ t.cfg.session_timeout_mins (pos 0))) [
    | inl off ↦ rw off h
    | inr on ↦ rw on (
        SameKeys-Fits t.sessions _
          (expire_all-SameKeys t.has_metrics (mul64 t.cfg.session_timeout_mins minute) now
            t.sessions)
          h)
  ]

module _ (f : Float64) where
  open f use {Carrier}

  ghost_all-SameKeys :
      (t : Tracker Carrier) (now : Time) (m : GoMap (TrackedSession Carrier))
      → SameKeys m (ghost_all f t now m).0
  unfolding ghost_all
  ghost_all-SameKeys t now [] = tt
  ghost_all-SameKeys t now ((i, ts) ∷ m) = (refl, ghost_all-SameKeys t now m)

  detect_ghosts-Fits :
      (t : Tracker Carrier) (now : Time) → Fits t.sessions → Fits (detect_ghosts f t now).0.sessions
  unfolding detect_ghosts
  detect_ghosts-Fits t now h = elim (Bool-cases (leb_ℤ t.cfg.ghost_max_age_mins (pos 0))) [
    | inl off ↦ rw off h
    | inr on ↦ rw on (SameKeys-Fits t.sessions _ (ghost_all-SameKeys t now t.sessions) h)
  ]

  -- The operations on a tracker; a call names a session, since the proxy tracks no other.
  pub data Operation : Type 0 where
    call :
        (session_id : String)
        → session_id ≢ ""
        → String
        → String
        → String
        → String
        → String
        → CallTimes
        → Operation
    cost : String → Carrier → ℤ → Operation
    ending : String → Time → Operation
    flushing : Operation
    expiring : Time → Operation
    ghosts : Time → Operation

  pub step : Tracker Carrier → Operation → Tracker Carrier
  step t (call id n agent user task model path times) =
      (track_call f t id agent user task model path times).0
  step t (cost id usd tokens) = record_cost f.add t id usd tokens
  step t (ending id now) = (end_session t id now).0
  step t flushing = (flush t).0
  step t (expiring now) = (expire_idle_sessions t now).0
  step t (ghosts now) = (detect_ghosts f t now).0

  pub run : Tracker Carrier → List Operation → Tracker Carrier
  run t [] = t
  run t (o ∷ os) = run (step t o) os

  step-Fits : (t : Tracker Carrier) (o : Operation) → Fits t.sessions → Fits (step t o).sessions
  unfolding step track_call record_cost end_session flush expire_idle_sessions detect_ghosts
  step-Fits t (call id n agent user task model path times) h =
      let (s, g) = start_session-Fits (f.of_int (pos 0)) t id agent user task times.started n h in
      put_old-Fits _ id _ _ g s
  step-Fits t (cost id usd tokens) h = elim (Option-cases (GoMap.get t.sessions id)) [
    | inl e ↦ rw (e, record_cost) h
    | inr (ts, e) ↦ rw (e, record_cost) (put_old-Fits t.sessions id _ ts e h)
  ]
  step-Fits t (ending id now) h = end_session-Fits t id now h
  step-Fits t flushing h =
      delete_where-Fits _ (cleaned t.sessions)
        (SameKeys-Fits t.sessions (cleaned t.sessions) (cleaned-SameKeys t.sessions) h)
  step-Fits t (expiring now) h = expire_idle_sessions-Fits t now h
  step-Fits t (ghosts now) h = detect_ghosts-Fits t now h

  run_from-Fits :
      (t : Tracker Carrier) (os : List Operation) → Fits t.sessions → Fits (run t os).sessions
  unfolding run
  run_from-Fits t [] h = h
  run_from-Fits t (o ∷ os) h = run_from-Fits (step t o) os (step-Fits t o h)

  -- After any operations on a new tracker, the sessions in memory have distinct, non-empty ids,
  -- and there are at most 10000 of them.
  pub run-Fits :
      (cfg : Config Carrier) (b : Bool) (os : List Operation)
      → Fits (run (new_tracker cfg b) os).sessions
  run-Fits cfg b os =
      run_from-Fits (new_tracker cfg b) os
        (unfold new_tracker in record { distinct = tt; named = tt; bounded = omega arith })
