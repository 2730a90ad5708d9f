-- ===== src/Proxy/Handler/Unbilled.antt =====
-- A request that is refused early costs the budget manager nothing.
use agent_ledger.Base.{
  Bool, true, false, ◌≡◌, refl, ◌∙◌, String, str_eq, Option, none, some, List, [], arith,
  Bool-cases, Option-cases, inl, inr,
}
use agent_ledger.Base.Float64.{Float64}
use agent_ledger.RateLimit.{Verdict, allowed, limited, panicked}
use agent_ledger.Access.Keys.{extract_api_key, hash_api_key}
use agent_ledger.Agent.Session.{AgentAlert}
use agent_ledger.Agent.Tracker
use agent_ledger.Budget.Manager
use agent_ledger.Budget.Manager.{check}
use agent_ledger.Budget.Rules.{Result}
use agent_ledger.Budget.Spend.{Ledger, Calendar}
use agent_ledger.Meter.Cost.{Meter}
use agent_ledger.Provider.Meta.{RequestMeta}
use agent_ledger.Proxy.Handler.{
  Proxy, Request, Body, too_large, unreadable, parsed, Instants, Answer, budget_exceeded,
  preflight_exceeded, forwarded, Served, blocklist_guard, tracker_guard, limiter_guard,
  budget_guard, preflight, serve_http, guards, after_tracker, after_limiter, budget_answer,
  tenant_of,
}

module _ (f : Float64) (glob : String → String → Bool) (ledger : Ledger f.Carrier) (cal : Calendar)
    (digest : String → String) where
  -- Answers that the budget manager has no part in.
  abbrev pub before_budget : Answer f.Carrier → Bool
  before_budget (budget_exceeded br) = false
  before_budget (preflight_exceeded br cost) = false
  before_budget (forwarded res) = false
  before_budget _ = true

  blocklist_guard-budget :
      (p : Proxy f.Carrier) (r : Request) (t : Instants)
      → (blocklist_guard f glob ledger cal digest p r t).0.budget ≡ p.budget
  unfolding blocklist_guard
  blocklist_guard-budget p r t = ground arith

  tracker_guard-budget :
      (p : Proxy f.Carrier) (r : Request) (meta : Option RequestMeta) (t : Instants)
      → (tracker_guard f glob ledger cal digest p r meta t).0.budget ≡ p.budget
  unfolding tracker_guard
  tracker_guard-budget p r meta t = ground arith

  limiter_guard-budget :
      (p : Proxy f.Carrier) (r : Request) (t : Instants)
      → (limiter_guard f glob ledger cal digest p r t).0.budget ≡ p.budget
  unfolding limiter_guard
  limiter_guard-budget p r t = ground arith

  -- The budget manager as it was, and none of its callbacks called.
  abbrev pub Unbilled : Proxy f.Carrier → Served f.Carrier → Type 0
  Unbilled p s = (s.proxy.budget ≡ p.budget) × (s.events ≡ [])

  budget_answer-reached :
      (meter : Meter f.Carrier) (meta : Option RequestMeta) (br : Result f.Carrier)
      → before_budget (budget_answer f glob ledger cal digest meter meta br) ≡ false
  unfolding budget_answer
  budget_answer-reached meter meta br =
      elim (Option-cases (preflight f glob ledger cal digest meter meta br)) [
        | inl n ↦ ground (arith, n)
        | inr (cost, n) ↦ ground (arith, n)
      ]

  budget_guard-reached :
      (p : Proxy f.Carrier) (r : Request) (meta : Option RequestMeta) (t : Instants)
      → before_budget (budget_guard f glob ledger cal digest p r meta t).1 ≡ false
  unfolding budget_guard
  budget_guard-reached p r meta t = elim (Option-cases p.budget) [
    | inl e ↦ ground (arith, e)
    | inr (m, e) ↦ elim (Bool-cases (Manager.enabled f m)) [
      | inl n ↦
          (let key = extract_api_key r.headers in
            ground (
              arith,
              e,
              n,
              budget_answer-reached p.meter meta
                  (check f glob ledger cal m key (hash_api_key digest key)
                    (tenant_of p.tenant_resolver r.headers) t.key_reads t.tenant_reads).result,
            ))
      | inr n ↦ ground (arith, e, n)
    ]
  ]

  after_limiter-Unbilled :
      (p : Proxy f.Carrier) (r : Request) (meta : Option RequestMeta) (t : Instants)
      (tracked : List (Tracker.Effect f.Carrier)) (verdict : Verdict)
      → before_budget (after_limiter f glob ledger cal digest p r meta t tracked verdict).answer
        ≡ true
      → Unbilled p (after_limiter f glob ledger cal digest p r meta t tracked verdict)
  unfolding after_limiter
  after_limiter-Unbilled p r meta t tracked (limited d) h = (refl, refl)
  after_limiter-Unbilled p r meta t tracked panicked h = (refl, refl)
  after_limiter-Unbilled p r meta t tracked allowed h =
      absurd (ground (arith, h, budget_guard-reached p r meta t))

  after_tracker-Unbilled :
      (p : Proxy f.Carrier) (r : Request) (meta : Option RequestMeta) (t : Instants)
      (tracked : List (Tracker.Effect f.Carrier)) (refusal : Option (AgentAlert f.Carrier))
      → before_budget (after_tracker f glob ledger cal digest p r meta t tracked refusal).answer
        ≡ true
      → Unbilled p (after_tracker f glob ledger cal digest p r meta t tracked refusal)
  unfolding after_tracker
  after_tracker-Unbilled p r meta t tracked (some alert) h = (refl, refl)
  after_tracker-Unbilled p r meta t tracked none h =
      let (q, verdict) = limiter_guard f glob ledger cal digest p r t in
      let (same, silent) = after_limiter-Unbilled q r meta t tracked verdict h in
      (same ∙ limiter_guard-budget p r t, silent)

  guards-Unbilled :
      (p : Proxy f.Carrier) (r : Request) (meta : Option RequestMeta) (t : Instants)
      → before_budget (guards f glob ledger cal digest p r meta t).answer ≡ true
      → Unbilled p (guards f glob ledger cal digest p r meta t)
  unfolding guards
  guards-Unbilled p r meta t h =
      let (p₁, blocked) = blocklist_guard f glob ledger cal digest p r t in
      let (p₂, refusal, tracked) = tracker_guard f glob ledger cal digest p₁ r meta t in
      elim (Bool-cases blocked) [
        | inl e ↦ (ground (arith, e, blocklist_guard-budget p r t), ground (arith, e))
        | inr e ↦
            (let (same, silent) =
                after_tracker-Unbilled p₂ r meta t tracked refusal (ground (arith, e, h)) in
              let unchanged =
                same ∙ tracker_guard-budget p₁ r meta t ∙ blocklist_guard-budget p r t in
              (ground (arith, e, unchanged), ground (arith, e, silent)))
      ]

  body-Unbilled :
      (p : Proxy f.Carrier) (r : Request) (t : Instants) (body : Body)
      → r.body ≡ body
      → str_eq r.path "/health" ≡ false
      → r.detected ≡ true
      → before_budget (serve_http f glob ledger cal digest p r t).answer ≡ true
      → Unbilled p (serve_http f glob ledger cal digest p r t)
  unfolding serve_http
  body-Unbilled p r t too_large b e d h = (ground (arith, b, e, d), ground (arith, b, e, d))
  body-Unbilled p r t unreadable b e d h = (ground (arith, b, e, d), ground (arith, b, e, d))
  body-Unbilled p r t (parsed meta) b e d h =
      let (same, silent) = guards-Unbilled p r meta t (ground (arith, b, e, d, h)) in
      (ground (arith, b, e, d, same), ground (arith, b, e, d, silent))

  -- A request that is answered before its budget is checked, for its key, a loop or the rate limit
  -- as well, leaves the budget manager with its cache as it was and calls none of its callbacks.
  pub serve_http-Unbilled :
      (p : Proxy f.Carrier) (r : Request) (t : Instants)
      → before_budget (serve_http f glob ledger cal digest p r t).answer ≡ true
      → Unbilled p (serve_http f glob ledger cal digest p r t)
  unfolding serve_http
  serve_http-Unbilled p r t h = elim (Bool-cases (str_eq r.path "/health")) [
    | inl e ↦ (ground (arith, e), ground (arith, e))
    | inr e ↦ elim (Bool-cases r.detected) [
      | inl d ↦ body-Unbilled p r t r.body refl e d h
      | inr d ↦ (ground (arith, e, d), ground (arith, e, d))
    ]
  ]
