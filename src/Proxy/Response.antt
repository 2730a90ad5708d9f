-- ===== src/Proxy/Response.antt =====
-- internal/proxy/proxy.go: modifyResponse. What the handler stores in the request's
-- context is an argument; metrics and logging are left out.
pub mod Billing
use agent_ledger.Base.{
  ℕ, zero, suc, ℤ, pos, Bool, true, false, not, ◌&&◌, ◌||◌, ltb_ℤ, String, str_eq, Option, none,
  some, List, [], ◌∷◌, if◌then◌else◌,
}
use agent_ledger.Base.Text.{contains}
use agent_ledger.Base.Float64.{Float64}
use agent_ledger.Base.Clock.{Time, sub, milliseconds}
use agent_ledger.Budget.Rules
use agent_ledger.Budget.Rules.{Result}
use agent_ledger.Ledger.Usage.{UsageRecord}
use agent_ledger.Meter.Cost.{Meter, calculate, known_model}
use agent_ledger.Provider.Meta.{ResponseMeta}
use agent_ledger.Provider.Json.{Json}
use agent_ledger.Provider.Registry.{Provider, parse_response}
use agent_ledger.Proxy.Bytes.{Bytes}
use agent_ledger.Proxy.Stream.{
  CallContext, StreamInterceptor, new_stream_interceptor, Effect, recorded, charged,
}

-- The upstream's reply; the flag says that reading its body fails.
pub record UpstreamReply : Type 0 where
  pub status_code : ℤ
  pub content_type : String
  pub body : Bytes
  pub read_fails : Bool

-- The body that the client gets: the stream, watched, or bytes.
pub data ReplyBody : Type 0 where
  watched : StreamInterceptor → ReplyBody
  bytes : Bytes → ReplyBody

-- What modifyResponse leaves: the result that the warning header shows, the body, and what it tells
-- the recorder and the tracker.
pub record Modified (A : Type 0) : Type 0 where
  pub warning : Option (Result A)
  pub body : ReplyBody
  pub effects : List (Effect A)

-- 50 << 20
abbrev pub max_response_body_bytes : ℕ
max_response_body_bytes = 52428800

-- io.LimitReader
unfoldable pub take {ℓ} : {A : Type ℓ} → ℕ → List A → List A
take zero xs = []
take (suc n) [] = []
take (suc n) (x ∷ xs) = x ∷ take n xs

abbrev pub is_stream : UpstreamReply → Bool
is_stream u = contains u.content_type "text/event-stream"

-- Not `resp.StatusCode < 200 || resp.StatusCode >= 300`.
abbrev pub successful : UpstreamReply → Bool
successful u = not (ltb_ℤ u.status_code (pos 200)) && ltb_ℤ u.status_code (pos 300)

abbrev pub answered_model : CallContext → ResponseMeta → String
answered_model c meta =
    if str_eq meta.model ""
    then elim c.meta_model [ none ↦ meta.model | some model ↦ model ]
    else meta.model

module _ (f : Float64) (json : Json) (prices : Meter f.Carrier) where
  open f use {Carrier}

  abbrev pub cost_of : CallContext → ResponseMeta → Carrier
  cost_of c meta = calculate f prices (answered_model c meta) meta.input_tokens meta.output_tokens

  -- The record of a reply; `ulid` is the fresh id.
  unfoldable pub reply_record :
      CallContext → UpstreamReply → ResponseMeta → String → Time → UsageRecord Carrier
  reply_record c u meta ulid now = record {
    id = ulid;
    timestamp = c.start;
    provider = c.provider;
    model = answered_model c meta;
    api_key_hash = c.api_key_hash;
    input_tokens = meta.input_tokens;
    output_tokens = meta.output_tokens;
    total_tokens = meta.total_tokens;
    cost_usd = cost_of c meta;
    estimated = not (known_model f prices (answered_model c meta));
    duration_ms = milliseconds (sub now c.start);
    status_code = u.status_code;
    path = c.path;
    agent_id = c.agent_id;
    session_id = c.session_id;
    user_id = c.user_id;
    tenant_id = c.tenant_id;
  }

  unfoldable pub reply_charge : CallContext → ResponseMeta → List (Effect Carrier)
  reply_charge c meta =
      if c.tracked && not (str_eq c.session_id "")
      then charged c.session_id (cost_of c meta) meta.total_tokens ∷ []
      else []

  -- What a body that was read makes the proxy record.
  unfoldable pub metered :
      CallContext → Provider → UpstreamReply → Bytes → String → Time → List (Effect Carrier)
  metered c prov u body ulid now =
      if not (successful u) then [] else elim (parse_response json prov body) [
        | none ↦ []
        | some meta ↦ recorded (reply_record c u meta ulid now) ∷ reply_charge c meta
      ]

  -- The header X-AgentLedger-Budget-Warning.
  abbrev pub warning_of : Option (Result Carrier) → Option (Result Carrier)
  warning_of none = none
  warning_of (some br) = elim br.decision [ Rules.warn ↦ some br | _ ↦ none ]

  -- modifyResponse
  unfoldable pub modify_response :
      CallContext
      → Provider
      → Option (Result Carrier)
      → UpstreamReply
      → String
      → Time
      → Modified Carrier
  modify_response c prov br u ulid now =
      let body = take max_response_body_bytes u.body in
      if is_stream u
      then record {
        warning = warning_of br;
        body = watched (new_stream_interceptor c);
        effects = [];
      }
      else if u.read_fails
      then record { warning = warning_of br; body = bytes []; effects = [] }
      else record {
        warning = warning_of br;
        body = bytes body;
        effects = metered c prov u body ulid now;
      }
