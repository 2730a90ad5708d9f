-- ===== src/Ledger/Store.antt =====
-- internal/ledger/sqlite.go: the tables usage_records and agent_sessions, as lists of rows in the
-- order of their insertion. `none` is an error of the query; failures of the database itself are
-- left out. SQLite's SUM and AVG, with their order and rounding, are parameters.
pub mod Spending
pub mod Sessions
pub mod Errors
pub mod Costs
use agent_ledger.Base.{
  ℕ, suc, ℤ, pos, Bool, true, false, ◌&&◌, ◌||◌, ◌==◌, String, str_eq, Option, none, some, List, [],
  ◌∷◌, ◌++◌, if◌then◌else◌, leb_ℤ, length, map,
}
use agent_ledger.Base.Float64.{Float64}
use agent_ledger.Base.Clock.{Time}
use agent_ledger.Agent.Session.{Session, Status, active}
use agent_ledger.Ledger.Usage.{UsageRecord}
use agent_ledger.Budget.Spend
use agent_ledger.Budget.Spend.{Ledger}

pub record Database (A : Type 0) : Type 0 where
  pub usage_records : List (UsageRecord A)
  pub agent_sessions : List (Session A)

pub record ErrorStats (A : Type 0) : Type 0 where
  pub total_requests : ℤ
  pub error_requests : ℤ
  pub error_rate : A
  pub count_429 : ℤ
  pub count_5xx : ℤ
  pub avg_duration_ms : A
  pub avg_cost_per_req : A

-- SQLite's SUM and AVG of a column of numbers, of at least one row, in the order of insertion.
pub record Sql (A : Type 0) : Type 0 where
  pub sum : List A → A
  pub avg : List A → A
  pub avg_int : List ℤ → A

abbrev pub costs_of : {A : Type 0} → List (UsageRecord A) → List A
costs_of us = map (λ u. u.cost_usd) us

abbrev pub is_429 : ℤ → Bool
is_429 code = leb_ℤ (pos 429) code && leb_ℤ code (pos 429)

module _ {A : Type 0} where
  -- A row with this id, the primary key.
  unfoldable pub has_id : String → List (UsageRecord A) → Bool
  has_id id [] = false
  has_id id (u ∷ us) = let later = has_id id us in str_eq u.id id || later

  -- RecordUsage: the INSERT fails on an id that is there.
  unfoldable pub record_row : Database A → UsageRecord A → Option (Database A)
  record_row db u =
      if has_id u.id db.usage_records
      then none
      else some (record db { usage_records = db.usage_records ++ u ∷ [] })

  -- SELECT ... WHERE
  unfoldable pub where_rows : (UsageRecord A → Bool) → List (UsageRecord A) → List (UsageRecord A)
  where_rows test [] = []
  where_rows test (u ∷ us) = let rest = where_rows test us in if test u then u ∷ rest else rest

  -- timestamp >= ? AND timestamp <= ?
  abbrev pub in_window : Time → Time → UsageRecord A → Bool
  in_window since until u = leb_ℤ since u.timestamp && leb_ℤ u.timestamp until

  -- ON CONFLICT(id) DO UPDATE: what a stored session becomes.
  abbrev pub updated : Session A → Session A → Session A
  updated old s = record s {
    id = old.id;
    agent_id = old.agent_id;
    user_id = old.user_id;
    task = old.task;
    started_at = old.started_at;
  }

  unfoldable pub upsert_row : List (Session A) → Session A → List (Session A)
  upsert_row [] s = s ∷ []
  upsert_row (old ∷ rows) s =
      let rest = upsert_row rows s in
      if str_eq old.id s.id then updated old s ∷ rows else old ∷ rest

  -- UpsertSession
  unfoldable pub upsert_session : Database A → Session A → Database A
  upsert_session db s = record db { agent_sessions = upsert_row db.agent_sessions s }

  unfoldable pub find_session : List (Session A) → String → Option (Session A)
  find_session [] id = none
  find_session (s ∷ rows) id = if str_eq s.id id then some s else find_session rows id

  -- GetSession: sql.ErrNoRows is an error as any other.
  unfoldable pub get_session : Database A → String → Option (Session A)
  get_session db id = find_session db.agent_sessions id

  active_rows : List (Session A) → List (Session A)
  active_rows [] = []
  active_rows (s ∷ rows) =
      let rest = active_rows rows in elim s.status [ active ↦ s ∷ rest | _ ↦ rest ]

  -- ListActiveSessions
  pub list_active_sessions : Database A → List (Session A)
  unfolding active_rows
  list_active_sessions db = active_rows db.agent_sessions

  -- AND tenant_id = ?, unless no tenant is asked for.
  abbrev pub of_tenant : String → UsageRecord A → Bool
  of_tenant tenant u = str_eq tenant "" || str_eq u.tenant_id tenant

module _ (f : Float64) (sql : Sql f.Carrier) where
  open f use {Carrier, div, of_int}

  -- COALESCE(SUM(cost_usd), 0)
  unfoldable pub total_of : List Carrier → Carrier
  total_of [] = of_int (pos 0)
  total_of (c ∷ cs) = sql.sum (c ∷ cs)

  -- The totals of the rows with a name in a window.
  unfoldable pub total_where :
      (UsageRecord Carrier → String) → List (UsageRecord Carrier) → String → Time → Time → Carrier
  total_where name rows subject since until =
      total_of
        (costs_of (where_rows (λ u. str_eq (name u) subject && in_window since until u) rows))

  -- GetTotalSpend
  pub get_total_spend : Database Carrier → String → Time → Time → Carrier
  get_total_spend db api_key_hash since until =
      total_where (λ u. u.api_key_hash) db.usage_records api_key_hash since until

  -- GetTotalSpendByTenant
  pub get_total_spend_by_tenant : Database Carrier → String → Time → Time → Carrier
  get_total_spend_by_tenant db tenant_id since until =
      total_where (λ u. u.tenant_id) db.usage_records tenant_id since until

  -- The store as the budget manager's ledger.
  pub store_ledger : Database Carrier → Ledger Carrier
  unfolding get_total_spend get_total_spend_by_tenant
  store_ledger db = record {
    get_total_spend = λ hash since until. (get_total_spend db hash since until, false);
    get_total_spend_by_tenant =
        λ id since until. (get_total_spend_by_tenant db id since until, false);
  }

  -- SUM(CASE WHEN ... THEN 1 ELSE 0 END), NULL for no rows.
  unfoldable pub count_where : (ℤ → Bool) → List (UsageRecord Carrier) → ℕ
  count_where test [] = 0
  count_where test (u ∷ us) =
      let rest = count_where test us in if test u.status_code then suc rest else rest

  -- What QueryErrorStats makes of the rows that it selects. A NULL cannot be scanned into an int,
  -- so that no rows are an error.
  unfoldable pub error_stats : List (UsageRecord Carrier) → Option (ErrorStats Carrier)
  error_stats [] = none
  error_stats (u ∷ us) =
      let rows = u ∷ us in
      let total = of_int (pos (length rows)) in
      let errors = count_where (λ code. leb_ℤ (pos 400) code) rows in
      some (record {
        total_requests = pos (length rows);
        error_requests = pos errors;
        error_rate = div (of_int (pos errors)) total;
        count_429 = pos (count_where is_429 rows);
        count_5xx = pos (count_where (λ code. leb_ℤ (pos 500) code) rows);
        avg_duration_ms = sql.avg_int (map (λ v. v.duration_ms) rows);
        avg_cost_per_req = sql.avg (costs_of rows);
      })

  -- QueryErrorStats
  unfoldable pub query_error_stats :
      Database Carrier → Time → Time → String → Option (ErrorStats Carrier)
  query_error_stats db since until tenant =
      error_stats (where_rows (λ u. in_window since until u && of_tenant tenant u) db.usage_records)
