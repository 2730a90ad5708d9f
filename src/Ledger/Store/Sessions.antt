-- ===== src/Ledger/Store/Sessions.antt =====
-- What the table of sessions holds after a session is written.
use agent_ledger.Base.{
  ◌≡◌, ◌≢◌, refl, String, str_eq, eq_iff, Option, none, some, List, [], ◌∷◌, if◌then◌else◌, arith,
}
use agent_ledger.Agent.Session.{Session}
use agent_ledger.Ledger.Store.{
  Database, updated, upsert_row, upsert_session, find_session, get_session,
}

module _ {A : Type 0} where
  -- What a session becomes that is written over what the table has under its id.
  abbrev pub merged : Option (Session A) → Session A → Session A
  merged none s = s
  merged (some old) s = updated old s

  find_session-upsert :
      (rows : List (Session A)) (s : Session A) (id : String)
      → find_session (upsert_row rows s) id
        ≡ (if str_eq s.id id then some (merged (find_session rows id) s) else find_session rows id)
  unfolding find_session upsert_row
  find_session-upsert [] s id = refl
  find_session-upsert (old ∷ rows) s id =
      ground
        (arith, eq_iff old.id s.id, eq_iff old.id id, eq_iff s.id id, find_session-upsert rows s id)

  find_session-id :
      (rows : List (Session A)) (id : String) (old : Session A)
      → find_session rows id ≡ some old
      → old.id ≡ id
  unfolding find_session
  find_session-id [] id old h = absurd (ground (arith, h))
  find_session-id (s ∷ rows) id old h =
      ground (arith, h, eq_iff s.id id, find_session-id rows id old)

  -- What is read after a session is written over what was stored.
  pub record Renewed (old s got : Session A) : Type 0 where
    pub id : got.id ≡ s.id
    pub agent_id : got.agent_id ≡ old.agent_id
    pub user_id : got.user_id ≡ old.user_id
    pub task : got.task ≡ old.task
    pub started_at : got.started_at ≡ old.started_at
    pub ended_at : got.ended_at ≡ s.ended_at
    pub status : got.status ≡ s.status
    pub call_count : got.call_count ≡ s.call_count
    pub total_cost_usd : got.total_cost_usd ≡ s.total_cost_usd
    pub total_tokens : got.total_tokens ≡ s.total_tokens

  abbrev pub ReadBack : Option (Session A) → Session A → Session A → Type 0
  ReadBack none s got = got ≡ s
  ReadBack (some old) s got = Renewed old s got

  merged-ReadBack :
      (stored : Option (Session A)) (s : Session A)
      → ((old : Session A) → stored ≡ some old → old.id ≡ s.id)
      → ReadBack stored s (merged stored s)
  merged-ReadBack none s h = refl
  merged-ReadBack (some old) s h = record {
    id = h old refl;
    agent_id = refl;
    user_id = refl;
    task = refl;
    started_at = refl;
    ended_at = refl;
    status = refl;
    call_count = refl;
    total_cost_usd = refl;
    total_tokens = refl;
  }

  -- A session that is written is read again: as it is where its id was new, and else with the
  -- agent, the user, the task and the start that were stored, and its own end, status, calls, cost
  -- and tokens. Sessions with another id are read as before.
  pub get_session-upsert :
      (db : Database A) (s : Session A) (other : String)
      → s.id ≢ other
      → ((got : Session A) × (get_session (upsert_session db s) s.id ≡ some got)
          × ReadBack (get_session db s.id) s got)
        × (get_session (upsert_session db s) other ≡ get_session db other)
  unfolding get_session upsert_session
  get_session-upsert db s other ne = (
    (
      merged (find_session db.agent_sessions s.id) s,
      ground (arith, find_session-upsert db.agent_sessions s s.id, eq_iff s.id s.id),
      merged-ReadBack _ s (find_session-id db.agent_sessions s.id),
    ),
    ground (arith, find_session-upsert db.agent_sessions s other, eq_iff s.id other, ne),
  )
