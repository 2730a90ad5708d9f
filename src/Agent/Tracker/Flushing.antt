-- ===== src/Agent/Tracker/Flushing.antt =====
-- What a flush writes, and what it leaves in memory.
use agent_ledger.Base.{
  Bool, false, not, ◌&&◌, ◌≡◌, refl, ◌∙◌, String, Option, none, some, [], ◌∷◌, arith, if◌then◌else◌,
}
use agent_ledger.Base.GoMap
use agent_ledger.Base.GoMap.{GoMap, Distinct}
use agent_ledger.Agent.Session.{TrackedSession}
use agent_ledger.Agent.Tracker.{Tracker, flush, cleaned, dirty_sessions, upserts, is_active}
use agent_ledger.Agent.Tracker.Invariant.{cleaned-SameKeys}

module _ {A : Type 0} where
  -- What a flush leaves of a session.
  abbrev pub flushed : Option (TrackedSession A) → Option (TrackedSession A)
  flushed none = none
  flushed (some ts) = if is_active ts then some (record ts { dirty = false }) else none

  abbrev swept : Option (TrackedSession A) → Option (TrackedSession A)
  swept none = none
  swept (some ts) = some (if ts.dirty then record ts { dirty = false } else ts)

  get-cleaned :
      (m : GoMap (TrackedSession A)) (k : String) → GoMap.get (cleaned m) k ≡ swept (GoMap.get m k)
  unfolding cleaned GoMap.get
  get-cleaned [] k = refl
  get-cleaned ((i, ts) ∷ m) k = ground (arith, get-cleaned m k)

  cleaned-dirty : (m : GoMap (TrackedSession A)) → dirty_sessions (cleaned m) ≡ []
  unfolding cleaned dirty_sessions
  cleaned-dirty [] = refl
  cleaned-dirty ((i, ts) ∷ m) = ground (arith, cleaned-dirty m)

  delete_where-dirty :
      (drop : TrackedSession A → Bool) (m : GoMap (TrackedSession A))
      → dirty_sessions m ≡ []
      → dirty_sessions (GoMap.delete_where drop m) ≡ []
  unfolding dirty_sessions GoMap.delete_where
  delete_where-dirty drop [] h = refl
  delete_where-dirty drop ((i, ts) ∷ m) h = ground (arith, delete_where-dirty drop m)

  -- A flush keeps each active session, marked clean, and drops each other one.
  pub get-flush :
      (t : Tracker A) (k : String)
      → Distinct t.sessions
      → GoMap.get (flush t).0.sessions k ≡ flushed (GoMap.get t.sessions k)
  unfolding flush
  get-flush t k d =
      let u =
        GoMap.SameKeys-Distinct t.sessions (cleaned t.sessions) (cleaned-SameKeys t.sessions) d in
      GoMap.get-delete_where (λ ts. not (is_active ts) && not ts.dirty) (cleaned t.sessions) k u
      ∙ ground (arith, get-cleaned t.sessions k)

  -- A flush writes all that has changed: one right after it writes nothing.
  pub flush_twice : (t : Tracker A) → (flush (flush t).0).1 ≡ []
  unfolding flush
  flush_twice t =
      rw
        (delete_where-dirty (λ ts. not (is_active ts) && not ts.dirty) (cleaned t.sessions)
          (cleaned-dirty t.sessions))
        (unfold upserts in refl)
