-- ===== src/Proxy/Handler/Guards.antt =====
-- What the guards make sure of, in terms of the parts that the proxy has before a request.
use agent_ledger.Base.{
  Bool, true, false, ◌≡◌, ◌≢◌, refl, sym, subst, inl, inr, String, str_eq, Option, none, some, List,
  arith, Bool-cases, Option-cases,
}
use agent_ledger.Base.Float64.{Float64}
use agent_ledger.RateLimit.{Verdict, allowed, limited, panicked}
use agent_ledger.Access.Keys.{Headers, extract_api_key, hash_api_key}
use agent_ledger.Agent.Session.{AgentAlert}
use agent_ledger.Agent.Tracker
use agent_ledger.Agent.Tracker.{Tracker, track_call, should_block-track_call}
use agent_ledger.Budget.Manager
use agent_ledger.Budget.Manager.{Manager, check}
use agent_ledger.Budget.Rules.{Decision, Result}
use agent_ledger.Budget.Spend.{Ledger, Calendar}
use agent_ledger.Meter.Cost.{Meter}
use agent_ledger.Provider.Meta.{RequestMeta}
use agent_ledger.Proxy.Handler.{
  Proxy, Request, Body, too_large, unreadable, parsed, Instants, forwarded, blocklist_guard,
  tracker_guard, limiter_guard, budget_guard, preflight, serve_http, guards, after_tracker,
  after_limiter, budget_answer, tenant_of,
}
use agent_ledger.Proxy.Handler.Passing.{
  Unblocked, InRate, Unlooped, Affordable, blocklist_guard-Unblocked, blocklist_guard-rest,
  tracker_guard-Unlooped, tracker_guard-rest, limiter_guard-InRate, limiter_guard-rest,
  preflight-Affordable,
}

module _ (f : Float64) (glob : String → String → Bool) (ledger : Ledger f.Carrier) (cal : Calendar)
    (digest : String → String) where
  -- What the request carries to the response handler is the budget manager's result, where there is
  -- a manager with a limit; that result does not block, and the worst case is affordable.
  pub data InBudget (meter : Meter f.Carrier) (resolver : Option (Headers → String)) (r : Request)
      (meta : Option RequestMeta) (t : Instants)
      : Option (Manager f.Carrier) → Option (Result f.Carrier) → Type 0 where
    no_manager : InBudget meter resolver r meta t none none
    no_limit :
        {m : Manager f.Carrier}
        → Manager.enabled f m ≡ false
        → InBudget meter resolver r meta t (some m) none
    checked :
        {m : Manager f.Carrier} {br : Result f.Carrier}
        → (let key = extract_api_key r.headers in
            br
            ≡ (check f glob ledger cal m key
                (hash_api_key digest key)
                (tenant_of resolver r.headers)
                t.key_reads
                t.tenant_reads).result)
        → br.decision ≢ Decision.block
        → Affordable f meter br meta
        → InBudget meter resolver r meta t (some m) (some br)

  -- What the guards have let pass.
  pub record Passed (p : Proxy f.Carrier) (r : Request) (t : Instants)
      (res : Option (Result f.Carrier)) : Type 0 where
    pub meta : Option RequestMeta
    pub body : r.body ≡ parsed meta
    pub detected : r.detected ≡ true
    pub unblocked : Unblocked glob r t p.blocklist
    pub unlooped : Unlooped f r meta t p.tracker
    pub in_rate : InRate glob digest r t p.limiter
    pub in_budget : InBudget p.meter p.tenant_resolver r meta t p.budget res

  budget_answer-forwarded :
      (meter : Meter f.Carrier) (meta : Option RequestMeta) (br : Result f.Carrier)
      (res : Option (Result f.Carrier))
      → budget_answer f glob ledger cal digest meter meta br ≡ forwarded res
      → (res ≡ some br) × (br.decision ≢ Decision.block) × Affordable f meter br meta
  unfolding budget_answer
  budget_answer-forwarded meter meta br res h =
      elim (Option-cases (preflight f glob ledger cal digest meter meta br)) [
        | inl n ↦ (
          ground (arith, n, h),
          ground (arith, n, h),
          preflight-Affordable f glob ledger cal digest meter meta br n,
        )
        | inr (cost, n) ↦ absurd (ground (arith, n, h))
      ]

  budget_guard-InBudget :
      (p : Proxy f.Carrier) (r : Request) (meta : Option RequestMeta) (t : Instants)
      (res : Option (Result f.Carrier)) (manager : Option (Manager f.Carrier))
      → p.budget ≡ manager
      → (budget_guard f glob ledger cal digest p r meta t).1 ≡ forwarded res
      → InBudget p.meter p.tenant_resolver r meta t manager res
  unfolding budget_guard
  budget_guard-InBudget p r meta t res none e h =
      subst (InBudget p.meter p.tenant_resolver r meta t none) (ground (arith, e, h)) no_manager
  budget_guard-InBudget p r meta t res (some m) e h =
      let inside = InBudget p.meter p.tenant_resolver r meta t (some m) in
      elim (Bool-cases (Manager.enabled f m)) [
        | inr n ↦ subst inside (ground (arith, e, n, h)) (no_limit n)
        | inl n ↦
            (let key = extract_api_key r.headers in
              let br =
                (check f glob ledger cal m key (hash_api_key digest key)
                  (tenant_of p.tenant_resolver r.headers) t.key_reads t.tenant_reads).result in
              let (same, no_block, affordable) =
                budget_answer-forwarded p.meter meta br res (ground (arith, e, n, h)) in
              subst inside (sym same) (checked refl no_block affordable))
      ]

  after_limiter-InBudget :
      (p : Proxy f.Carrier) (r : Request) (meta : Option RequestMeta) (t : Instants)
      (tracked : List (Tracker.Effect f.Carrier)) (verdict : Verdict)
      (res : Option (Result f.Carrier))
      → (after_limiter f glob ledger cal digest p r meta t tracked verdict).answer ≡ forwarded res
      → (verdict ≡ allowed) × InBudget p.meter p.tenant_resolver r meta t p.budget res
  unfolding after_limiter
  after_limiter-InBudget p r meta t tracked (limited d) res h = absurd (ground (arith, h))
  after_limiter-InBudget p r meta t tracked panicked res h = absurd (ground (arith, h))
  after_limiter-InBudget p r meta t tracked allowed res h =
      (refl, budget_guard-InBudget p r meta t res p.budget refl h)

  -- What holds of the parts behind the tracker.
  abbrev LaterPassed :
      Proxy f.Carrier → Request → Option RequestMeta → Instants → Option (Result f.Carrier) → Type 0
  LaterPassed p r meta t res =
      InRate glob digest r t p.limiter × InBudget p.meter p.tenant_resolver r meta t p.budget res

  after_tracker-LaterPassed :
      (p : Proxy f.Carrier) (r : Request) (meta : Option RequestMeta) (t : Instants)
      (tracked : List (Tracker.Effect f.Carrier)) (refusal : Option (AgentAlert f.Carrier))
      (res : Option (Result f.Carrier))
      → (after_tracker f glob ledger cal digest p r meta t tracked refusal).answer ≡ forwarded res
      → (refusal ≡ none) × LaterPassed p r meta t res
  unfolding after_tracker
  after_tracker-LaterPassed p r meta t tracked (some alert) res h = absurd (ground (arith, h))
  after_tracker-LaterPassed p r meta t tracked none res h =
      let (q, verdict) = limiter_guard f glob ledger cal digest p r t in
      let (in_rate, in_budget) = after_limiter-InBudget q r meta t tracked verdict res h in
      let (limiter, rest) = limiter_guard-rest f glob ledger cal digest p r t in
      (
        refl,
        (
          limiter_guard-InRate f glob ledger cal digest p r t p.limiter refl in_rate,
          subst (λ x. InBudget x.meter x.tenant_resolver r meta t x.budget res) rest in_budget,
        ),
      )

  guards-Passed :
      (p : Proxy f.Carrier) (r : Request) (meta : Option RequestMeta) (t : Instants)
      (res : Option (Result f.Carrier))
      → (guards f glob ledger cal digest p r meta t).answer ≡ forwarded res
      → r.body ≡ parsed meta
      → r.detected ≡ true
      → Passed p r t res
  unfolding guards
  guards-Passed p r meta t res h b d =
      let (p₁, blocked) = blocklist_guard f glob ledger cal digest p r t in
      let (p₂, refusal, tracked) = tracker_guard f glob ledger cal digest p₁ r meta t in
      elim (Bool-cases blocked) [
        | inl e ↦ absurd (ground (arith, e, h))
        | inr e ↦
            (let (no_loop, later) =
                after_tracker-LaterPassed p₂ r meta t tracked refusal res (ground (arith, e, h)) in
              let (list, rest₁) = blocklist_guard-rest f glob ledger cal digest p r t in
              let (tracker, rest₂) = tracker_guard-rest f glob ledger cal digest p₁ r meta t in
              let (in_rate, in_budget) : LaterPassed p₁ r meta t res =
                subst (λ x. LaterPassed x r meta t res) rest₂ later in
              record {
                meta = meta;
                body = b;
                detected = d;
                unblocked =
                    blocklist_guard-Unblocked f glob ledger cal digest p r t p.blocklist refl e;
                unlooped =
                    subst (λ x. Unlooped f r meta t x.tracker) rest₁
                      (tracker_guard-Unlooped f glob ledger cal digest p₁ r meta t p₁.tracker refl
                        no_loop);
                in_rate = subst (λ x. InRate glob digest r t x.limiter) rest₁ in_rate;
                in_budget =
                    subst (λ x. InBudget x.meter x.tenant_resolver r meta t x.budget res) rest₁
                      in_budget;
              })
      ]

  body-Passed :
      (p : Proxy f.Carrier) (r : Request) (t : Instants) (res : Option (Result f.Carrier))
      (body : Body)
      → r.body ≡ body
      → str_eq r.path "/health" ≡ false
      → r.detected ≡ true
      → (serve_http f glob ledger cal digest p r t).answer ≡ forwarded res
      → Passed p r t res
  unfolding serve_http
  body-Passed p r t res too_large b e d h = absurd (ground (arith, b, e, d, h))
  body-Passed p r t res unreadable b e d h = absurd (ground (arith, b, e, d, h))
  body-Passed p r t res (parsed meta) b e d h =
      guards-Passed p r meta t res (ground (arith, b, e, d, h)) b d

  -- A request that is forwarded to the upstream has a provider and a readable body, and of the parts
  -- that the proxy had before it: the blocklist does not block its key; the session tracker, where
  -- it detects anything and the request belongs to a session that it does not end, raises no alert
  -- of a loop or is not to block loops; the rate limiter, where it has limits, allows it; and where
  -- the budget manager has a limit, what the request carries on is the result of the manager's
  -- check, which does not block, and the cost of the request's token limit, where that cost is
  -- positive, exceeds neither what is left of a daily limit nor of a monthly one. Without a limit
  -- the request carries no result.
  pub serve_http-Passed :
      (p : Proxy f.Carrier) (r : Request) (t : Instants) (res : Option (Result f.Carrier))
      → (serve_http f glob ledger cal digest p r t).answer ≡ forwarded res
      → Passed p r t res
  unfolding serve_http
  serve_http-Passed p r t res h = elim (Bool-cases (str_eq r.path "/health")) [
    | inl e ↦ absurd (ground (arith, e, h))
    | inr e ↦ elim (Bool-cases r.detected) [
      | inl d ↦ body-Passed p r t res r.body refl e d h
      | inr d ↦ absurd (ground (arith, e, d, h))
    ]
  ]
