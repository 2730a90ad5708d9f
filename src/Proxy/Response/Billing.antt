-- ===== src/Proxy/Response/Billing.antt =====
-- Which replies are recorded and charged, and what a record says of them.
use agent_ledger.Base.{
  true, false, not, ◌≡◌, ◌≢◌, refl, ◌⊎◌, inl, inr, pos, ◌≤ℤ◌, ◌<ℤ◌, String, str_eq, eq_iff, Option,
  none, some, List, [], ◌∷◌, arith, Bool-cases, Option-cases,
}
use agent_ledger.Base.Float64.{Float64}
use agent_ledger.Base.Clock.{Time, sub, milliseconds}
use agent_ledger.Budget.Rules.{Result}
use agent_ledger.Ledger.Usage.{UsageRecord}
use agent_ledger.Meter.Cost.{Meter, calculate, known_model}
use agent_ledger.Provider.Meta.{ResponseMeta}
use agent_ledger.Provider.Json.{Json}
use agent_ledger.Provider.Registry.{Provider, parse_response}
use agent_ledger.Proxy.Stream.{CallContext, Effect, recorded, charged, new_stream_interceptor}
use agent_ledger.Proxy.Response.{
  UpstreamReply, bytes, watched, max_response_body_bytes, take, is_stream, successful,
  answered_model, reply_record, reply_charge, metered, modify_response,
}

-- The model that a reply is billed by: the one that it names, or else the request's.
pub data Named (c : CallContext) (meta : ResponseMeta) (model : String) : Type 0 where
  by_reply : meta.model ≢ "" → model ≡ meta.model → Named c meta model
  by_request :
      (m : String) → meta.model ≡ "" → c.meta_model ≡ some m → model ≡ m → Named c meta model
  nameless : meta.model ≡ "" → c.meta_model ≡ none → model ≡ "" → Named c meta model

answered_model-Named :
    (c : CallContext) (meta : ResponseMeta) → Named c meta (answered_model c meta)
answered_model-Named c meta = elim (Bool-cases (str_eq meta.model "")) [
  | inr e ↦ by_reply (ground (arith, e, eq_iff meta.model "")) (ground (arith, e))
  | inl e ↦
      let empty = (eq_iff meta.model "").0 e in
      elim (Option-cases c.meta_model) [
        | inl m ↦ nameless empty m (ground (arith, e, m, empty))
        | inr (model, m) ↦ by_request model empty m (ground (arith, e, m))
      ]
]

module _ (f : Float64) (json : Json) (prices : Meter f.Carrier) where
  -- A record of a reply: its tokens are those that the parser found, and its cost is that of the
  -- record's own model and tokens.
  pub record Billed (c : CallContext) (u : UpstreamReply) (meta : ResponseMeta) (ulid : String)
      (now : Time) (entry : UsageRecord f.Carrier) : Type 0 where
    pub id : entry.id ≡ ulid
    pub model : Named c meta entry.model
    pub input_tokens : entry.input_tokens ≡ meta.input_tokens
    pub output_tokens : entry.output_tokens ≡ meta.output_tokens
    pub total_tokens : entry.total_tokens ≡ meta.total_tokens
    pub cost_usd :
        entry.cost_usd ≡ calculate f prices entry.model entry.input_tokens entry.output_tokens
    pub estimated : entry.estimated ≡ not (known_model f prices entry.model)
    pub timestamp : entry.timestamp ≡ c.start
    pub duration_ms : entry.duration_ms ≡ milliseconds (sub now c.start)
    pub status_code : entry.status_code ≡ u.status_code
    pub path : entry.path ≡ c.path
    pub provider : entry.provider ≡ c.provider
    pub api_key_hash : entry.api_key_hash ≡ c.api_key_hash
    pub agent_id : entry.agent_id ≡ c.agent_id
    pub session_id : entry.session_id ≡ c.session_id
    pub user_id : entry.user_id ≡ c.user_id
    pub tenant_id : entry.tenant_id ≡ c.tenant_id

  -- What the session is charged for a record: its cost and tokens, where there is a tracker and a
  -- session, and else nothing.
  pub data Charged (c : CallContext) (entry : UsageRecord f.Carrier)
      (charges : List (Effect f.Carrier)) : Type 0 where
    by_session :
        c.tracked ≡ true
        → c.session_id ≢ ""
        → charges ≡ charged c.session_id entry.cost_usd entry.total_tokens ∷ []
        → Charged c entry charges
    by_no_session :
        (c.tracked ≡ false) ⊎ (c.session_id ≡ "") → charges ≡ [] → Charged c entry charges

  -- How a reply is billed. The body that counts is what fits the limit.
  pub data Bill (c : CallContext) (prov : Provider) (br : Option (Result f.Carrier))
      (u : UpstreamReply) (ulid : String) (now : Time) : Type 0 where
    later :
        is_stream u ≡ true
        → (modify_response f json prices c prov br u ulid now).body
          ≡ watched (new_stream_interceptor c)
        → (modify_response f json prices c prov br u ulid now).effects ≡ []
        → Bill c prov br u ulid now
    never :
        is_stream u ≡ false
        → (u.read_fails ≡ true)
          ⊎ ((u.status_code <ℤ pos 200)
              ⊎ ((pos 300 ≤ℤ u.status_code)
                  ⊎ (parse_response json prov (take max_response_body_bytes u.body) ≡ none)))
        → (modify_response f json prices c prov br u ulid now).effects ≡ []
        → Bill c prov br u ulid now
    once :
        (meta : ResponseMeta) (entry : UsageRecord f.Carrier) (charges : List (Effect f.Carrier))
        → is_stream u ≡ false
        → u.read_fails ≡ false
        → pos 200 ≤ℤ u.status_code
        → u.status_code <ℤ pos 300
        → parse_response json prov (take max_response_body_bytes u.body) ≡ some meta
        → (modify_response f json prices c prov br u ulid now).body
          ≡ bytes (take max_response_body_bytes u.body)
        → (modify_response f json prices c prov br u ulid now).effects ≡ recorded entry ∷ charges
        → Billed c u meta ulid now entry
        → Charged c entry charges
        → Bill c prov br u ulid now

  reply_record-Billed :
      (c : CallContext) (u : UpstreamReply) (meta : ResponseMeta) (ulid : String) (now : Time)
      → Billed c u meta ulid now (reply_record f json prices c u meta ulid now)
  unfolding reply_record
  reply_record-Billed c u meta ulid now = record {
    id = refl;
    model = answered_model-Named c meta;
    input_tokens = refl;
    output_tokens = refl;
    total_tokens = refl;
    cost_usd = refl;
    estimated = refl;
    timestamp = refl;
    duration_ms = refl;
    status_code = refl;
    path = refl;
    provider = refl;
    api_key_hash = refl;
    agent_id = refl;
    session_id = refl;
    user_id = refl;
    tenant_id = refl;
  }

  reply_charge-Charged :
      (c : CallContext) (u : UpstreamReply) (meta : ResponseMeta) (ulid : String) (now : Time)
      → Charged c (reply_record f json prices c u meta ulid now) (reply_charge f json prices c meta)
  unfolding reply_record reply_charge
  reply_charge-Charged c u meta ulid now = elim (Bool-cases c.tracked) [
    | inr t ↦ by_no_session (inl t) (ground (arith, t))
    | inl t ↦ elim (Bool-cases (str_eq c.session_id "")) [
      | inl e ↦ by_no_session (inr ((eq_iff c.session_id "").0 e)) (ground (arith, t, e))
      | inr e ↦ by_session t (ground (arith, e, eq_iff c.session_id "")) (ground (arith, t, e))
    ]
  ]

  -- A reply that is not 2xx.
  unsuccessful :
      (u : UpstreamReply)
      → successful u ≡ false
      → (u.status_code <ℤ pos 200) ⊎ (pos 300 ≤ℤ u.status_code)
  unsuccessful u h = ground (arith, h)

  -- A streamed reply is handed on, watched, and nothing is recorded yet. Any other reply is recorded
  -- once, exactly where its body can be read, its status is 2xx, and the provider's parser takes
  -- what of the body fits the limit, which the client then gets. The record has the parsed tokens,
  -- the model that the reply or else the request names, the cost of just that model and those
  -- tokens, and the caller of the request; the session, where there is one and it is tracked, is
  -- charged the record's cost and tokens, and nothing else is charged.
  pub modify_response-Bill :
      (c : CallContext) (prov : Provider) (br : Option (Result f.Carrier)) (u : UpstreamReply)
      (ulid : String) (now : Time)
      → Bill c prov br u ulid now
  unfolding modify_response metered
  modify_response-Bill c prov br u ulid now = elim (Bool-cases (is_stream u)) [
    | inl s ↦ later s (ground (arith, s)) (ground (arith, s))
    | inr s ↦ elim (Bool-cases u.read_fails) [
      | inl e ↦ never s (inl e) (ground (arith, s, e))
      | inr e ↦ elim (Bool-cases (successful u)) [
        | inr k ↦ elim (unsuccessful u k) [
          | inl low ↦ never s (inr (inl low)) (ground (arith, s, e, k))
          | inr high ↦ never s (inr (inr (inl high))) (ground (arith, s, e, k))
        ]
        | inl k ↦
            elim (Option-cases (parse_response json prov (take max_response_body_bytes u.body))) [
              | inl p ↦ never s (inr (inr (inr p))) (ground (arith, s, e, k, p))
              | inr (meta, p) ↦
                  once meta (reply_record f json prices c u meta ulid now)
                    (reply_charge f json prices c meta) s e (ground (arith, k)) (ground (arith, k))
                    p (ground (arith, s, e)) (ground (arith, s, e, k, p))
                    (reply_record-Billed c u meta ulid now) (reply_charge-Charged c u meta ulid now)
            ]
      ]
    ]
  ]
