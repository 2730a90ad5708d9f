-- ===== src/Agent/Tracker/Capacity.antt =====
-- The cap on the sessions in memory, and which session makes room.
use agent_ledger.Base.{
  ◌<◌, ◌≤ℤ◌, false, ◌≡◌, ◌≢◌, ap, String, str_eq, eq_iff, some, [], ◌∷◌, arith, All, length,
  Bool-cases, inl, inr,
}
use agent_ledger.Base.GoMap
use agent_ledger.Base.GoMap.{GoMap, Distinct}
use agent_ledger.Base.Clock.{before}
use agent_ledger.Agent.Session.{TrackedSession}
use agent_ledger.Agent.Tracker.{last_activity, oldest, oldest_from, evict_oldest}

module _ {A : Type 0} where
  -- `id` is a session of the map, and none has been idle for longer.
  abbrev pub IsOldest : GoMap (TrackedSession A) → String → Type 0
  IsOldest m id =
      (ts : TrackedSession A) × (GoMap.get m id ≡ some ts)
      × All {A = String × TrackedSession A} (λ e. last_activity ts ≤ℤ last_activity e.1) m

  oldest_from-IsOldest :
      (rest m : GoMap (TrackedSession A)) (id : String) (ts : TrackedSession A)
      → GoMap.get m id ≡ some ts
      → All {A = String × TrackedSession A} (λ e. GoMap.get m e.0 ≡ some e.1) rest
      → (ts' : TrackedSession A) × (GoMap.get m (oldest_from id (last_activity ts) rest) ≡ some ts')
        × (last_activity ts' ≤ℤ last_activity ts)
        × All {A = String × TrackedSession A} (λ e. last_activity ts' ≤ℤ last_activity e.1) rest
  unfolding oldest_from
  oldest_from-IsOldest [] m id ts g a = (ts, g, omega arith, tt)
  oldest_from-IsOldest ((i, us) ∷ rest) m id ts g a =
      elim (Bool-cases (before (last_activity us) (last_activity ts))) [
        | inl older ↦
            let (ts', found, le, all) = oldest_from-IsOldest rest m i us a.0 a.1 in
            (ts', rw older found, ground arith, (le, all))
        | inr newer ↦
            let (ts', found, le, all) = oldest_from-IsOldest rest m id ts g a.1 in
            (ts', rw newer found, le, (ground arith, all))
      ]

  -- The session that evictOldest chooses.
  oldest-IsOldest :
      (id : String) (ts : TrackedSession A) (m : GoMap (TrackedSession A))
      → Distinct ((id, ts) ∷ m)
      → IsOldest ((id, ts) ∷ m) (oldest ((id, ts) ∷ m))
  unfolding oldest
  oldest-IsOldest id ts m d =
      let found = GoMap.get-entries ((id, ts) ∷ m) d in
      let (ts', g, le, all) = oldest_from-IsOldest m ((id, ts) ∷ m) id ts found.0 found.1 in
      (ts', g, (le, all))

  -- In a map without an empty session id, which the proxy never passes, evictOldest deletes one
  -- session, of the longest idle.
  pub evict_oldest-IsOldest :
      (m : GoMap (TrackedSession A)) (e : String × TrackedSession A)
      → Distinct (e ∷ m)
      → GoMap.Fresh "" (e ∷ m)
      → (id : String) × IsOldest (e ∷ m) id
        × (evict_oldest (e ∷ m) ≡ GoMap.delete (e ∷ m) id)
        × (length (evict_oldest (e ∷ m)) < length (e ∷ m))
  unfolding evict_oldest
  evict_oldest-IsOldest m (i, us) d f =
      let o = oldest-IsOldest i us m d in
      let named : oldest ((i, us) ∷ m) ≢ "" = λ p.
        ground (arith, GoMap.get-Fresh ((i, us) ∷ m) "" f, ap (GoMap.get ((i, us) ∷ m)) p, o.1) in
      let kept : str_eq (oldest ((i, us) ∷ m)) "" ≡ false =
        ground (arith, eq_iff (oldest ((i, us) ∷ m)) "") in
      (oldest ((i, us) ∷ m), o, rw kept, rw kept (GoMap.length-delete_found _ _ o.0 o.1))
