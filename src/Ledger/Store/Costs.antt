-- ===== src/Ledger/Store/Costs.antt =====
-- internal/ledger/sqlite.go: QueryCosts. SQLite takes the columns that are neither grouped nor summed
-- from some row of a group, which `pick` chooses; groups of equal cost come in some order.
use agent_ledger.Base.{
  ℕ, suc, ◌+◌, ℤ, pos, pos_part, ◌+ℤ◌, ◌&&◌, ◌≡◌, refl, ap, ◌∙◌, String, str_eq, List, [], ◌∷◌,
  if◌then◌else◌, length, map, arith,
}
use agent_ledger.Base.Float64.{Float64}
use agent_ledger.Ledger.Usage.{UsageRecord, CostEntry, CostFilter}
use agent_ledger.Ledger.Store.{Database, Sql, costs_of, where_rows, in_window, of_tenant}

-- A group is its oldest row and the others.
abbrev pub Group : Type 0 → Type 0
Group A = UsageRecord A × List (UsageRecord A)

module _ {A : Type 0} where
  abbrev pub group_column : String → UsageRecord A → String
  group_column group_by u =
      if str_eq group_by "provider"
      then u.provider
      else if str_eq group_by "key"
      then u.api_key_hash
      else if str_eq group_by "agent"
      then u.agent_id
      else if str_eq group_by "session"
      then u.session_id
      else u.model

  unfoldable pub add_row :
      (UsageRecord A → String) → UsageRecord A → List (Group A) → List (Group A)
  add_row name u [] = (u, []) ∷ []
  add_row name u ((v, vs) ∷ gs) =
      let rest = add_row name u gs in
      if str_eq (name v) (name u) then (u, v ∷ vs) ∷ gs else (v, vs) ∷ rest

  -- GROUP BY
  unfoldable pub group_rows : (UsageRecord A → String) → List (UsageRecord A) → List (Group A)
  group_rows name [] = []
  group_rows name (u ∷ us) = add_row name u (group_rows name us)

  token_sum : (UsageRecord A → ℤ) → List (UsageRecord A) → ℤ
  token_sum tokens [] = pos 0
  token_sum tokens (u ∷ us) = tokens u +ℤ token_sum tokens us

module _ (f : Float64) (sql : Sql f.Carrier)
    (pick : UsageRecord f.Carrier → List (UsageRecord f.Carrier) → UsageRecord f.Carrier) where
  open f use {Carrier, lt}

  unfoldable pub cost_entry : Group Carrier → CostEntry Carrier
  unfolding token_sum
  cost_entry (u, us) =
      let bare = pick u us in
      record {
        provider = bare.provider;
        model = bare.model;
        api_key_hash = bare.api_key_hash;
        agent_id = bare.agent_id;
        session_id = bare.session_id;
        requests = pos (suc (length us));
        input_tokens = token_sum (λ v. v.input_tokens) (u ∷ us);
        output_tokens = token_sum (λ v. v.output_tokens) (u ∷ us);
        total_cost_usd = sql.sum (costs_of (u ∷ us));
      }

  unfoldable pub insert : CostEntry Carrier → List (CostEntry Carrier) → List (CostEntry Carrier)
  insert e [] = e ∷ []
  insert e (x ∷ xs) =
      let rest = insert e xs in
      if lt x.total_cost_usd e.total_cost_usd then e ∷ x ∷ xs else x ∷ rest

  -- ORDER BY SUM(cost_usd) DESC
  unfoldable pub by_cost : List (CostEntry Carrier) → List (CostEntry Carrier)
  by_cost [] = []
  by_cost (e ∷ es) = insert e (by_cost es)

  -- The rows that a filter selects.
  abbrev pub filtered : Database Carrier → CostFilter → List (UsageRecord Carrier)
  filtered db q =
      where_rows (λ u. in_window q.since q.until u && of_tenant q.tenant_id u) db.usage_records

  -- QueryCosts
  unfoldable pub query_costs : Database Carrier → CostFilter → List (CostEntry Carrier)
  query_costs db q = by_cost (map cost_entry (group_rows (group_column q.group_by) (filtered db q)))

  -- The requests of all entries.
  unfoldable pub requests_of : List (CostEntry Carrier) → ℕ
  requests_of [] = 0
  requests_of (e ∷ es) = pos_part e.requests + requests_of es

  requests_of-insert :
      (e : CostEntry Carrier) (es : List (CostEntry Carrier))
      → requests_of (insert e es) ≡ pos_part e.requests + requests_of es
  unfolding requests_of insert
  requests_of-insert e [] = refl
  requests_of-insert e (x ∷ xs) = ground (arith, requests_of-insert e xs)

  requests_of-by_cost : (es : List (CostEntry Carrier)) → requests_of (by_cost es) ≡ requests_of es
  unfolding requests_of by_cost
  requests_of-by_cost [] = refl
  requests_of-by_cost (e ∷ es) =
      omega (arith, requests_of-insert e (by_cost es), requests_of-by_cost es)

  requests_of-add_row :
      (name : UsageRecord Carrier → String) (u : UsageRecord Carrier) (gs : List (Group Carrier))
      → requests_of (map cost_entry (add_row name u gs)) ≡ suc (requests_of (map cost_entry gs))
  unfolding requests_of cost_entry add_row
  requests_of-add_row name u [] = refl
  requests_of-add_row name u ((v, vs) ∷ gs) = ground (arith, requests_of-add_row name u gs)

  requests_of-group_rows :
      (name : UsageRecord Carrier → String) (us : List (UsageRecord Carrier))
      → requests_of (map cost_entry (group_rows name us)) ≡ length us
  unfolding requests_of group_rows
  requests_of-group_rows name [] = refl
  requests_of-group_rows name (u ∷ us) =
      requests_of-add_row name u (group_rows name us) ∙ ap suc (requests_of-group_rows name us)

  -- However they are grouped, the entries of QueryCosts count each row of the window once.
  pub requests_of-query_costs :
      (db : Database Carrier) (q : CostFilter)
      → requests_of (query_costs db q) ≡ length (filtered db q)
  unfolding query_costs
  requests_of-query_costs db q =
      requests_of-by_cost (map cost_entry (group_rows (group_column q.group_by) (filtered db q)))
      ∙ requests_of-group_rows (group_column q.group_by) (filtered db q)
