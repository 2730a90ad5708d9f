-- ===== src/Proxy/Handler/Passing.antt =====
-- What each guard makes sure of, in terms of the part that it asks.
use agent_ledger.Base.{
  pos, ◌≤ℤ◌, ltb_ℤ, Bool, false, ◌≡◌, ◌≢◌, sym, subst, ◌⊎◌, inl, inr, String, str_eq, eq_iff,
  Option, none, some, List, arith, Bool-cases, Option-cases,
}
use agent_ledger.Base.Float64.{Float64}
use agent_ledger.RateLimit
use agent_ledger.RateLimit.{Limiter, Verdict, allowed, limited, panicked}
use agent_ledger.Access.Keys.{extract_api_key, hash_api_key, extract_agent_headers}
use agent_ledger.Access.Blocklist.{Blocklist, is_blocked}
use agent_ledger.Agent.Session.{AgentAlert}
use agent_ledger.Agent.Tracker
use agent_ledger.Agent.Tracker.{Tracker, track_call, should_block-track_call}
use agent_ledger.Budget.Rules.{Result}
use agent_ledger.Budget.Spend.{Ledger, Calendar}
use agent_ledger.Meter.Cost.{Meter, calculate}
use agent_ledger.Provider.Meta.{RequestMeta}
use agent_ledger.Proxy.Handler.{
  Proxy, Request, Instants, blocklist_guard, tracker_guard, track, session_end, limiter_guard,
  preflight, zero_usd, model_of,
}

-- The blocklist, where there is one, does not block the key.
pub data Unblocked (glob : String → String → Bool) (r : Request) (t : Instants)
    : Option Blocklist → Type 0 where
  no_list : Unblocked glob r t none
  not_listed :
      {b : Blocklist}
      → (is_blocked glob b t.patterns (extract_api_key r.headers) t.blocked_at t.reloaded_at).1
        ≡ false
      → Unblocked glob r t (some b)

-- The rate limiter, where there is one that limits, allows the request.
pub data InRate (glob : String → String → Bool) (digest : String → String) (r : Request)
    (t : Instants) : Option Limiter → Type 0 where
  no_limiter : InRate glob digest r t none
  no_limits : {l : Limiter} → RateLimit.enabled l ≡ false → InRate glob digest r t (some l)
  admitted :
      {l : Limiter}
      → (let key = extract_api_key r.headers in
          (RateLimit.allow glob l key (hash_api_key digest key) t.limited_at).1 ≡ allowed)
      → InRate glob digest r t (some l)

module _ (f : Float64) where
  open f use {Carrier, sub, lt, of_int}

  -- The alert of a call, if any, is of no loop, or loops are not to be blocked.
  abbrev pub NoBlock : Tracker Carrier → Option (AgentAlert Carrier) → Type 0
  NoBlock tr none = Unit
  NoBlock tr (some a) = (a.type ≢ "loop_detected") ⊎ (tr.cfg.loop_action ≢ "block")

  -- The session tracker, where there is one that detects anything, does not refuse the call, where
  -- the request has a session and does not end it.
  pub data Unlooped (r : Request) (meta : Option RequestMeta) (t : Instants)
      : Option (Tracker Carrier) → Type 0 where
    no_tracker : Unlooped r meta t none
    detects_nothing :
        {tr : Tracker Carrier} → Tracker.enabled tr ≡ false → Unlooped r meta t (some tr)
    no_session :
        {tr : Tracker Carrier}
        → (extract_agent_headers r.headers).session_id ≡ ""
        → Unlooped r meta t (some tr)
    ends :
        {tr : Tracker Carrier}
        → r.headers.header "X-Agent-Session-End" ≡ "true"
        → Unlooped r meta t (some tr)
    passes :
        {tr : Tracker Carrier}
        → (let who = extract_agent_headers r.headers in
            NoBlock tr
              (track_call f tr who.session_id who.agent_id who.user_id who.task
                (model_of meta)
                r.path
                t.call).1)
        → Unlooped r meta t (some tr)

  -- A cost is within what is left of a limit, or there is no such limit.
  abbrev pub Room : Carrier → Carrier → Carrier → Type 0
  Room limit spent cost = (lt (of_int (pos 0)) limit ≡ false) ⊎ (lt (sub limit spent) cost ≡ false)

  -- The worst case of a request fits the limits, where its body could be parsed and bounds the
  -- tokens, and where it costs anything.
  pub data Affordable (meter : Meter Carrier) (br : Result Carrier)
      : Option RequestMeta → Type 0 where
    unread : Affordable meter br none
    unbounded : {m : RequestMeta} → m.max_tokens ≤ℤ pos 0 → Affordable meter br (some m)
    costless :
        {m : RequestMeta}
        → lt (of_int (pos 0)) (calculate f meter m.model (pos 0) m.max_tokens) ≡ false
        → Affordable meter br (some m)
    fits :
        {m : RequestMeta}
        → Room br.daily_limit br.daily_spent (calculate f meter m.model (pos 0) m.max_tokens)
        → Room br.monthly_limit br.monthly_spent (calculate f meter m.model (pos 0) m.max_tokens)
        → Affordable meter br (some m)

module _ (f : Float64) (glob : String → String → Bool) (ledger : Ledger f.Carrier) (cal : Calendar)
    (digest : String → String) where
  pub blocklist_guard-Unblocked :
      (p : Proxy f.Carrier) (r : Request) (t : Instants) (list : Option Blocklist)
      → p.blocklist ≡ list
      → (blocklist_guard f glob ledger cal digest p r t).1 ≡ false
      → Unblocked glob r t list
  unfolding blocklist_guard
  blocklist_guard-Unblocked p r t none e h = no_list
  blocklist_guard-Unblocked p r t (some b) e h = not_listed (ground (arith, e, h))

  pub blocklist_guard-rest :
      (p : Proxy f.Carrier) (r : Request) (t : Instants)
      → (list : Option Blocklist) × ((blocklist_guard f glob ledger cal digest p r t).0
          ≡ record p { blocklist = list })
  unfolding blocklist_guard
  blocklist_guard-rest p r t =
      ((blocklist_guard f glob ledger cal digest p r t).0.blocklist, ground arith)

  -- The call of a request that the tracker follows.
  abbrev tracked_call :
      Tracker f.Carrier
      → Request
      → Option RequestMeta
      → Instants
      → Tracker f.Carrier × Option (AgentAlert f.Carrier) × List (Tracker.Effect f.Carrier)
  tracked_call tr r meta t =
      let who = extract_agent_headers r.headers in
      track_call f tr who.session_id who.agent_id who.user_id who.task (model_of meta) r.path t.call

  track-NoBlock :
      (tr : Tracker f.Carrier) (r : Request) (meta : Option RequestMeta) (t : Instants)
      → (track f glob ledger cal digest tr r meta t).1 ≡ none
      → NoBlock f tr (tracked_call tr r meta t).1
  unfolding track
  track-NoBlock tr r meta t h =
      let who = extract_agent_headers r.headers in
      let blocks =
        should_block-track_call f tr who.session_id who.agent_id who.user_id who.task
          (model_of meta) r.path t.call in
      elim (Option-cases (tracked_call tr r meta t).1) [
        | inl n ↦ subst (NoBlock f tr) (sym n) tt
        | inr (a, n) ↦ subst (NoBlock f tr) (sym n) (
            ground (
              arith,
              n,
              h,
              blocks,
              eq_iff a.type "loop_detected",
              eq_iff tr.cfg.loop_action "block",
            ))
      ]

  pub tracker_guard-Unlooped :
      (p : Proxy f.Carrier) (r : Request) (meta : Option RequestMeta) (t : Instants)
      (tracker : Option (Tracker f.Carrier))
      → p.tracker ≡ tracker
      → (tracker_guard f glob ledger cal digest p r meta t).1 ≡ none
      → Unlooped f r meta t tracker
  unfolding tracker_guard session_end
  tracker_guard-Unlooped p r meta t none e h = no_tracker
  tracker_guard-Unlooped p r meta t (some tr) e h = elim (Bool-cases (Tracker.enabled tr)) [
    | inr n ↦ detects_nothing n
    | inl n ↦ elim (Bool-cases (str_eq (extract_agent_headers r.headers).session_id "")) [
      | inl i ↦ no_session ((eq_iff (extract_agent_headers r.headers).session_id "").0 i)
      | inr i ↦ elim (Bool-cases (session_end f glob ledger cal digest r)) [
        | inl q ↦ ends (ground (arith, q, eq_iff (r.headers.header "X-Agent-Session-End") "true"))
        | inr q ↦ passes (track-NoBlock tr r meta t (ground (arith, e, n, i, q, h)))
      ]
    ]
  ]

  pub tracker_guard-rest :
      (p : Proxy f.Carrier) (r : Request) (meta : Option RequestMeta) (t : Instants)
      → (tracker : Option (Tracker f.Carrier)) × ((tracker_guard f glob ledger cal digest p r meta
            t).0
          ≡ record p { tracker = tracker })
  unfolding tracker_guard
  tracker_guard-rest p r meta t =
      ((tracker_guard f glob ledger cal digest p r meta t).0.tracker, ground arith)

  pub limiter_guard-InRate :
      (p : Proxy f.Carrier) (r : Request) (t : Instants) (limiter : Option Limiter)
      → p.limiter ≡ limiter
      → (limiter_guard f glob ledger cal digest p r t).1 ≡ allowed
      → InRate glob digest r t limiter
  unfolding limiter_guard
  limiter_guard-InRate p r t none e h = no_limiter
  limiter_guard-InRate p r t (some l) e h = elim (Bool-cases (RateLimit.enabled l)) [
    | inl n ↦ admitted (ground (arith, e, n, h))
    | inr n ↦ no_limits n
  ]

  pub limiter_guard-rest :
      (p : Proxy f.Carrier) (r : Request) (t : Instants)
      → (limiter : Option Limiter) × ((limiter_guard f glob ledger cal digest p r t).0
          ≡ record p { limiter = limiter })
  unfolding limiter_guard
  limiter_guard-rest p r t =
      ((limiter_guard f glob ledger cal digest p r t).0.limiter, ground arith)

  pub preflight-Affordable :
      (meter : Meter f.Carrier) (meta : Option RequestMeta) (br : Result f.Carrier)
      → preflight f glob ledger cal digest meter meta br ≡ none
      → Affordable f meter br meta
  unfolding preflight zero_usd
  preflight-Affordable meter none br h = unread
  preflight-Affordable meter (some m) br h =
      let worst = calculate f meter m.model (pos 0) m.max_tokens in
      elim (Bool-cases (ltb_ℤ (pos 0) m.max_tokens)) [
        | inr n ↦ unbounded (ground (arith, n))
        | inl n ↦ elim (Bool-cases (f.lt (f.of_int (pos 0)) worst)) [
          | inr w ↦ costless w
          | inl w ↦ fits (ground (arith, h, n, w)) (ground (arith, h, n, w))
        ]
      ]
