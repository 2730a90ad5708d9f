-- ===== src/Admin/Api/Saving.antt =====
-- What a call of the API may do to its handler.
use agent_ledger.Base.{
  Bool, not, ◌&&◌, ◌||◌, str_append, subst, sum-cases, ◌≡◌, refl, sym, ◌⊎◌, inl, inr, String,
  str_eq, List, [], ◌∷◌, ◌++◌, arith, Bool-cases, Option-cases,
}
use agent_ledger.Base.Float64.{Float64}
use agent_ledger.Budget.Rules.{Rule}
use agent_ledger.Budget.Spend.{Calendar}
use agent_ledger.Ledger.Usage.{CostEntry, CostFilter}
use agent_ledger.Admin.Types.{
  Handler, Formats, Request, Moment, Reply, rule_created, pattern_created, no_content, Endpoint,
  list_rules, create_rule, delete_rule, list_api_keys, list_blocked, block_key, unblock_key,
  list_providers, budget_status, routes, endpoint_of, without,
}
use agent_ledger.Admin.Api.{
  handle, require_auth, serve, handle_create_rule, handle_delete_rule, handle_block_key,
  handle_unblock_key, save_rules, save_patterns, read_rules, read_patterns,
}

module _ (f : Float64) (formats : Formats f.Carrier) (cal : Calendar)
    (query_costs : CostFilter → List (CostEntry f.Carrier) × Bool) where
  -- What a call may do to the handler: nothing, or save a list of rules or of patterns.
  pub data Saves (h : Handler f.Carrier) (t : Moment) (h' : Handler f.Carrier) : Type 0 where
    unchanged : h' ≡ h → Saves h t h'
    saves_rules :
        (saved : List (Rule f.Carrier)) (reply : Reply f.Carrier)
        → h' ≡ (save_rules f formats cal query_costs h t saved reply).0
        → Saves h t h'
    saves_patterns :
        (saved : List String) (reply : Reply f.Carrier)
        → h' ≡ (save_patterns f formats cal query_costs h t saved reply).0
        → Saves h t h'

  handle_create_rule-Saves :
      (h : Handler f.Carrier) (r : Request) (t : Moment)
      → Saves h t (handle_create_rule f formats cal query_costs h r t).0
  unfolding handle_create_rule
  handle_create_rule-Saves h r t = elim (sum-cases (formats.rule_body r.body)) [
    | inl (message, e) ↦ unchanged (ground (arith, e))
    | inr (rule, e) ↦
        saves_rules ((read_rules f formats cal query_costs h t).0 ++ rule ∷ []) (rule_created rule)
          (ground (arith, e))
  ]

  handle_block_key-Saves :
      (h : Handler f.Carrier) (r : Request) (t : Moment)
      → Saves h t (handle_block_key f formats cal query_costs h r t).0
  unfolding handle_block_key
  handle_block_key-Saves h r t = elim (sum-cases (formats.pattern_body r.body)) [
    | inl (message, e) ↦ unchanged (ground (arith, e))
    | inr (pattern, e) ↦ elim (Bool-cases (str_eq pattern "")) [
      | inl b ↦ unchanged (ground (arith, e, b))
      | inr b ↦
          saves_patterns ((read_patterns f formats cal query_costs h t).0 ++ pattern ∷ [])
            (pattern_created pattern) (ground (arith, e, b))
    ]
  ]

  handle_delete_rule-Saves :
      (h : Handler f.Carrier) (r : Request) (t : Moment)
      → Saves h t (handle_delete_rule f formats cal query_costs h r t).0
  unfolding handle_delete_rule
  handle_delete_rule-Saves h r t =
      let (kept, found) =
        without (λ rule. rule.api_key_pattern) (r.headers.query "pattern")
          (read_rules f formats cal query_costs h t).0 in
      elim (Bool-cases (str_eq (r.headers.query "pattern") "" || not found)) [
        | inl b ↦ unchanged (ground (arith, b))
        | inr b ↦ saves_rules kept no_content (ground (arith, b))
      ]

  handle_unblock_key-Saves :
      (h : Handler f.Carrier) (r : Request) (t : Moment)
      → Saves h t (handle_unblock_key f formats cal query_costs h r t).0
  unfolding handle_unblock_key
  handle_unblock_key-Saves h r t =
      let (kept, found) =
        without (λ p. p) (r.headers.query "pattern")
          (read_patterns f formats cal query_costs h t).0 in
      elim (Bool-cases (str_eq (r.headers.query "pattern") "" || not found)) [
        | inl b ↦ unchanged (ground (arith, b))
        | inr b ↦ saves_patterns kept no_content (ground (arith, b))
      ]

  handle-Saves :
      (e : Endpoint) (h : Handler f.Carrier) (r : Request) (t : Moment)
      → Saves h t (handle f formats cal query_costs e h r t).0
  unfolding handle
  handle-Saves list_rules h r t = unchanged refl
  handle-Saves create_rule h r t = handle_create_rule-Saves h r t
  handle-Saves delete_rule h r t = handle_delete_rule-Saves h r t
  handle-Saves list_api_keys h r t = unchanged refl
  handle-Saves list_blocked h r t = unchanged refl
  handle-Saves block_key h r t = handle_block_key-Saves h r t
  handle-Saves unblock_key h r t = handle_unblock_key-Saves h r t
  handle-Saves list_providers h r t = unchanged refl
  handle-Saves budget_status h r t = unchanged refl

  -- What the API does to the handler is what the function of a route does, or nothing.
  serve-handle :
      (h : Handler f.Carrier) (r : Request) (t : Moment)
      → ((serve f formats cal query_costs h r t).0 ≡ h)
        ⊎ ((e : Endpoint) × ((serve f formats cal query_costs h r t).0
              ≡ (handle f formats cal query_costs e h r t).0))
  unfolding serve require_auth
  serve-handle h r t = elim (Option-cases (endpoint_of routes r)) [
    | inl g ↦ inl (ground (arith, g))
    | inr (e, g) ↦
        elim (Bool-cases (
          str_eq h.token ""
          || (not (str_eq (r.headers.header "Authorization") (str_append "Bearer " h.token))
              || (not (str_eq r.method "GET")
                  && not (str_eq (r.headers.header "X-Requested-With") "XMLHttpRequest"))))) [
                    | inl b ↦ inl (ground (arith, g, b))
                    | inr b ↦ inr (e, ground (arith, g, b))
                  ]
  ]

  pub serve-Saves :
      (h : Handler f.Carrier) (r : Request) (t : Moment)
      → Saves h t (serve f formats cal query_costs h r t).0
  serve-Saves h r t = elim (serve-handle h r t) [
    | inl e ↦ unchanged e
    | inr (e, g) ↦ subst (Saves h t) (sym g) (handle-Saves e h r t)
  ]
