-- ===== src/Dashboard/Summing.antt =====
-- The summary counts the requests of the day, and an empty window has no statistics.
use agent_ledger.Base.{
  ℕ, ◌+◌, ◌<◌, ◌^◌, map, ℤ, pos, pos_part, ◌+ℤ◌, ◌≡◌, refl, ap, ◌∙◌, String, Option, some, List, [],
  ◌∷◌, length, add64, add64-of_range, arith, All,
}
use agent_ledger.Base.Float64.{Float64}
use agent_ledger.Base.Clock.{Time}
use agent_ledger.Agent.Tracker.{Tracker}
use agent_ledger.Budget.Spend.{Calendar}
use agent_ledger.Ledger.Usage.{UsageRecord, CostEntry, CostFilter}
use agent_ledger.Ledger.Store.{Database, Sql, query_error_stats}
use agent_ledger.Ledger.Store.Costs.{
  query_costs, filtered, requests_of, requests_of-query_costs, by_cost, insert, cost_entry,
  group_rows, group_column, Group,
}
use agent_ledger.Dashboard.{Summary, Queries, requests_from, by_model, handle_summary}

add64_small : (a b : ℕ) → a + b < 2 ^ 63 → add64 (pos a) (pos b) ≡ pos (a + b)
unfolding ◌+ℤ◌
add64_small a b h = ground (arith, h, add64-of_range (pos a) (pos b))

module _ (f : Float64) (sql : Sql f.Carrier)
    (pick : UsageRecord f.Carrier → List (UsageRecord f.Carrier) → UsageRecord f.Carrier)
    (param : String → String) (atoi : String → ℤ) where
  -- The queries over a store.
  abbrev pub store_queries : Database f.Carrier → Queries f.Carrier
  store_queries db = record {
    query_costs = λ q. some (query_costs f sql pick db q);
    query_error_stats = λ since until tenant. query_error_stats f sql db since until tenant;
  }

  -- The entry of a group counts at least one request.
  abbrev pub Counts : CostEntry f.Carrier → Type 0
  Counts e = e.requests ≡ pos (pos_part e.requests)

  insert-Counts :
      (e : CostEntry f.Carrier) (es : List (CostEntry f.Carrier))
      → Counts e
      → All Counts es
      → All Counts (insert f sql pick e es)
  unfolding insert
  insert-Counts e [] c cs = (c, tt)
  insert-Counts e (x ∷ xs) c cs = ground (arith, c, cs.0, cs.1, insert-Counts e xs c cs.1)

  by_cost-Counts :
      (es : List (CostEntry f.Carrier)) → All Counts es → All Counts (by_cost f sql pick es)
  unfolding by_cost
  by_cost-Counts [] c = tt
  by_cost-Counts (e ∷ es) c = insert-Counts e (by_cost f sql pick es) c.0 (by_cost-Counts es c.1)

  cost_entry-Counts : (gs : List (Group f.Carrier)) → All Counts (map (cost_entry f sql pick) gs)
  unfolding cost_entry
  cost_entry-Counts [] = tt
  cost_entry-Counts ((u, us) ∷ gs) = (refl, cost_entry-Counts gs)

  query_costs-Counts :
      (db : Database f.Carrier) (q : CostFilter) → All Counts (query_costs f sql pick db q)
  unfolding query_costs
  query_costs-Counts db q =
      by_cost-Counts _
        (cost_entry-Counts (group_rows (group_column q.group_by) (filtered f sql pick db q)))

  requests_from-requests_of :
      (queries : Queries f.Carrier) (n : ℕ) (es : List (CostEntry f.Carrier))
      → All Counts es
      → n + requests_of f sql pick es < 2 ^ 63
      → requests_from f queries param atoi (pos n) es ≡ pos (n + requests_of f sql pick es)
  unfolding requests_from requests_of
  requests_from-requests_of queries n [] c h = ap pos (omega arith)
  requests_from-requests_of queries n (e ∷ es) c h =
      let sum : add64 (pos n) e.requests ≡ pos (n + pos_part e.requests) =
        ap (add64 (pos n)) c.0 ∙ add64_small n (pos_part e.requests) (omega (arith, h)) in
      ap (λ m. requests_from f queries param atoi m es) sum
      ∙ requests_from-requests_of queries (n + pos_part e.requests) es c.1 (omega (arith, h))
      ∙ ap pos (omega arith)

  -- The rows of today that a summary counts.
  abbrev pub todays : Database f.Carrier → Calendar → Time → List (UsageRecord f.Carrier)
  todays db cal now =
      filtered f sql pick db (by_model f (store_queries db) param atoi (cal.day_start now) now)

  -- The number of requests that a summary shows for today, where an int64 holds it, is the number
  -- of the tenant's records since the start of the day, and a summary is always shown.
  pub handle_summary-requests :
      (db : Database f.Carrier) (tracker : Option (Tracker f.Carrier)) (cal : Calendar) (now : Time)
      → length (todays db cal now) < 2 ^ 63
      → (summary : Summary f.Carrier) × (handle_summary f
            (store_queries db)
            param
            atoi
            tracker
            cal
            now
          ≡ some summary)
        × (summary.today_requests ≡ pos (length (todays db cal now)))
  unfolding handle_summary
  handle_summary-requests db tracker cal now h =
      let q = by_model f (store_queries db) param atoi (cal.day_start now) now in
      let counted = requests_of-query_costs f sql pick db q in
      (
        _,
        refl,
        requests_from-requests_of (store_queries db) 0 (query_costs f sql pick db q)
              (query_costs-Counts db q) (omega (arith, counted, h))
            ∙ ap pos (omega (arith, counted)),
      )
