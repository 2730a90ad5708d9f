-- ===== src/Proxy/Handler.antt =====
-- internal/proxy/proxy.go: ServeHTTP, which joins the guards of a request. A provider's match and
-- its ParseRequest are in the request as what they answer; metrics and logging are left out.
pub mod Passing
pub mod Guards
pub mod Unbilled
pub mod Blocked
pub mod Unpriced
mod Examples
use agent_ledger.Base.{
  ℤ, pos, Bool, true, false, ◌&&◌, ◌||◌, not, String, str_eq, Option, none, some, List, [], ◌∷◌,
  ◌++◌, if◌then◌else◌, ltb_ℤ,
}
use agent_ledger.Base.Float64.{Float64}
use agent_ledger.Base.Clock.{Time, Duration}
use agent_ledger.Access.Keys.{
  Headers, extract_api_key, hash_api_key, AgentIdentity, extract_agent_headers,
}
use agent_ledger.Access.Blocklist
use agent_ledger.Access.Blocklist.{Blocklist, is_blocked}
use agent_ledger.Agent.Session.{AgentAlert}
use agent_ledger.Agent.Tracker
use agent_ledger.Agent.Tracker.{Tracker, CallTimes, track_call, end_session, should_block}
use agent_ledger.RateLimit
use agent_ledger.RateLimit.{Limiter, Verdict, allowed, limited, panicked}
use agent_ledger.Budget.Rules
use agent_ledger.Budget.Rules.{Decision, Result}
use agent_ledger.Budget.Spend.{Ledger, Calendar, Reads}
use agent_ledger.Budget.Manager
use agent_ledger.Budget.Manager.{Manager, Event, check}
use agent_ledger.Meter.Cost.{Meter, calculate}
use agent_ledger.Provider.Meta.{RequestMeta}

-- What reading the body gives: an error, or the body's metadata where it can be parsed.
pub data Body : Type 0 where
  too_large unreadable : Body
  parsed : Option RequestMeta → Body

-- A request; `detected` says that a provider matches it.
pub record Request : Type 0 where
  pub path : String
  pub headers : Headers
  pub detected : Bool
  pub body : Body

-- Proxy, with the parts that guard a request; `none` is nil.
pub record Proxy (A : Type 0) : Type 0 where
  pub blocklist : Option Blocklist
  pub tracker : Option (Tracker A)
  pub limiter : Option Limiter
  pub tenant_resolver : Option (Headers → String)
  pub budget : Option (Manager A)
  pub meter : Meter A

-- The instants at which the parts read the clock, and what the blocklist's store holds.
pub record Instants : Type 0 where
  pub patterns : Option (List String)
  pub blocked_at : Time
  pub reloaded_at : Time
  pub call : CallTimes
  pub ended_at : Time
  pub limited_at : Time
  pub key_reads : Reads
  pub tenant_reads : Reads

-- How a request is answered: without the upstream, or by it.
pub data Answer (A : Type 0) : Type 0 where
  health no_provider body_too_large body_unreadable key_blocked limiter_panicked : Answer A
  loop_detected : AgentAlert A → Answer A
  rate_limited : Duration → Answer A
  budget_exceeded : Result A → Answer A
  preflight_exceeded : Result A → A → Answer A
  forwarded : Option (Result A) → Answer A

-- What ServeHTTP leaves: the parts, the answer, and the effects of the tracker and the budgets.
pub record Served (A : Type 0) : Type 0 where
  pub proxy : Proxy A
  pub answer : Answer A
  pub tracked : List (Tracker.Effect A)
  pub events : List (Event A)

pub model_of : Option RequestMeta → String
model_of none = ""
model_of (some meta) = meta.model

pub tenant_of : Option (Headers → String) → Headers → String
tenant_of none h = ""
tenant_of (some resolve) h = resolve h

module _ (f : Float64) (glob : String → String → Bool) (ledger : Ledger f.Carrier) (cal : Calendar)
    (digest : String → String) where
  open f use {Carrier, sub, lt}

  -- The blocklist's guard: whether the key is blocked.
  pub blocklist_guard : Proxy Carrier → Request → Instants → Proxy Carrier × Bool
  blocklist_guard p r t = elim p.blocklist [
    | none ↦ (p, false)
    | some b ↦
        let (b', blocked) =
          is_blocked glob b t.patterns (extract_api_key r.headers) t.blocked_at t.reloaded_at in
        (record p { blocklist = some b' }, blocked)
  ]

  session_end : Request → Bool
  session_end r = str_eq (r.headers.header "X-Agent-Session-End") "true"

  -- A call that is tracked; an alert refuses it if loops are to be blocked.
  track :
      Tracker Carrier
      → Request
      → Option RequestMeta
      → Instants
      → Tracker Carrier × Option (AgentAlert Carrier) × List (Tracker.Effect Carrier)
  track tr r meta t =
      let who = extract_agent_headers r.headers in
      let (tr', alert, effects) =
        track_call f tr who.session_id who.agent_id who.user_id who.task (model_of meta) r.path
          t.call in
      elim alert [
        | none ↦ (tr', none, effects)
        | some a ↦
            if str_eq a.type "loop_detected" && should_block tr'
            then (tr', some a, effects)
            else (tr', none, effects)
      ]

  -- The session tracker's guard: the alert that refuses the request.
  pub tracker_guard :
      Proxy Carrier
      → Request
      → Option RequestMeta
      → Instants
      → Proxy Carrier × Option (AgentAlert Carrier) × List (Tracker.Effect Carrier)
  unfolding track session_end
  tracker_guard p r meta t =
      let who = extract_agent_headers r.headers in
      elim p.tracker [
        | none ↦ (p, none, [])
        | some tr ↦
            if not (Tracker.enabled tr && not (str_eq who.session_id ""))
            then (p, none, [])
            else if session_end r
            then (let (tr', effects) = end_session tr who.session_id t.ended_at in
                (record p { tracker = some tr' }, none, effects))
            else (let (tr', refusal, effects) = track tr r meta t in
                (record p { tracker = some tr' }, refusal, effects))
      ]

  -- The rate limiter's guard.
  pub limiter_guard : Proxy Carrier → Request → Instants → Proxy Carrier × Verdict
  limiter_guard p r t = elim p.limiter [
    | none ↦ (p, allowed)
    | some l ↦
        if RateLimit.enabled l
        then (let key = extract_api_key r.headers in
            let (l', verdict) = RateLimit.allow glob l key (hash_api_key digest key) t.limited_at in
            (record p { limiter = some l' }, verdict))
        else (p, allowed)
  ]

  zero_usd : Carrier
  zero_usd = f.of_int (pos 0)

  -- The worst case of a request with a limit of tokens, where it is more than what is left.
  pub preflight : Meter Carrier → Option RequestMeta → Result Carrier → Option Carrier
  unfolding zero_usd
  preflight meter none br = none
  preflight meter (some meta) br =
      if ltb_ℤ (pos 0) meta.max_tokens
      then (let worst_case = calculate f meter meta.model (pos 0) meta.max_tokens in
          if lt zero_usd worst_case
            && ((lt zero_usd br.daily_limit && lt (sub br.daily_limit br.daily_spent) worst_case)
                || (lt zero_usd br.monthly_limit
                    && lt (sub br.monthly_limit br.monthly_spent) worst_case))
          then some worst_case
          else none)
      else none

  -- The answer to a request that has been checked.
  budget_answer : Meter Carrier → Option RequestMeta → Result Carrier → Answer Carrier
  budget_answer meter meta br = elim br.decision [
    | Decision.block ↦ budget_exceeded br
    | _ ↦ elim (preflight meter meta br) [
      | some cost ↦ preflight_exceeded br cost
      | none ↦ forwarded (some br)
    ]
  ]

  -- The budget manager's guard, which ends the handler.
  pub budget_guard :
      Proxy Carrier
      → Request
      → Option RequestMeta
      → Instants
      → Proxy Carrier × Answer Carrier × List (Event Carrier)
  unfolding budget_answer
  budget_guard p r meta t = elim p.budget [
    | none ↦ (p, forwarded none, [])
    | some m ↦
        if Manager.enabled f m
        then (let key = extract_api_key r.headers in
            let c =
              check f glob ledger cal m key (hash_api_key digest key)
                (tenant_of p.tenant_resolver r.headers) t.key_reads t.tenant_reads in
            (record p { budget = some c.manager }, budget_answer p.meter meta c.result, c.events))
        else (p, forwarded none, [])
  ]

  after_limiter :
      Proxy Carrier
      → Request
      → Option RequestMeta
      → Instants
      → List (Tracker.Effect Carrier)
      → Verdict
      → Served Carrier
  after_limiter p r meta t tracked (limited d) = record {
    proxy = p;
    answer = rate_limited d;
    tracked = tracked;
    events = [];
  }
  after_limiter p r meta t tracked panicked = record {
    proxy = p;
    answer = limiter_panicked;
    tracked = tracked;
    events = [];
  }
  after_limiter p r meta t tracked allowed =
      let (q, answer, events) = budget_guard p r meta t in
      record { proxy = q; answer = answer; tracked = tracked; events = events }

  after_tracker :
      Proxy Carrier
      → Request
      → Option RequestMeta
      → Instants
      → List (Tracker.Effect Carrier)
      → Option (AgentAlert Carrier)
      → Served Carrier
  unfolding after_limiter
  after_tracker p r meta t tracked (some alert) = record {
    proxy = p;
    answer = loop_detected alert;
    tracked = tracked;
    events = [];
  }
  after_tracker p r meta t tracked none =
      let (q, verdict) = limiter_guard p r t in after_limiter q r meta t tracked verdict

  -- The guards of a request with a body, in their order.
  guards : Proxy Carrier → Request → Option RequestMeta → Instants → Served Carrier
  unfolding after_tracker
  guards p r meta t =
      let (p₁, blocked) = blocklist_guard p r t in
      if blocked
      then record { proxy = p₁; answer = key_blocked; tracked = []; events = [] }
      else (let (p₂, refusal, tracked) = tracker_guard p₁ r meta t in
          after_tracker p₂ r meta t tracked refusal)

  -- An answer that leaves the parts alone.
  abbrev at_once : Proxy Carrier → Answer Carrier → Served Carrier
  at_once p a = record { proxy = p; answer = a; tracked = []; events = [] }

  pub serve_http : Proxy Carrier → Request → Instants → Served Carrier
  unfolding guards
  serve_http p r t =
      if str_eq r.path "/health"
      then at_once p health
      else if not r.detected
      then at_once p no_provider
      else elim r.body [
        | too_large ↦ at_once p body_too_large
        | unreadable ↦ at_once p body_unreadable
        | parsed meta ↦ guards p r meta t
      ]
