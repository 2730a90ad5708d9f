-- ===== src/Mcp/Interceptor.antt =====
-- internal/mcp/jsonrpc.go and interceptor.go: from messages to usage records. The lock is held for
-- each access of the pending calls; a model call handles one message.
pub mod Pairing
pub mod Costs
use agent_ledger.Base.{
  ℤ, pos, Bool, true, false, not, ◌&&◌, ◌||◌, String, str_eq, str_append, Option, none, some, List,
  [], ◌∷◌, if◌then◌else◌,
}
use agent_ledger.Base.GoMap
use agent_ledger.Base.GoMap.{GoMap}
use agent_ledger.Base.Clock.{Time, sub, milliseconds}
use agent_ledger.Ledger.Usage.{UsageRecord}
use agent_ledger.Mcp.Pricing.{PricingRule, cost_for_call}

-- Request and Response, with a JSON value kept as its text; `none` is a field that is not there.
pub record Request : Type 0 where
  pub id : Option String
  pub method : String
  pub params : Option String

pub record Response : Type 0 where
  pub id : Option String
  pub result : Option String
  pub has_error : Bool

-- What ParseMessage peeks at.
pub record Probe : Type 0 where
  pub method : String
  pub has_result : Bool
  pub has_error : Bool

-- Package encoding/json and bytes.TrimSpace; `none` is an error.
pub record Json : Type 0 where
  pub trim_space : String → String
  pub probe : String → Option Probe
  pub request : String → Option Request
  pub response : String → Option Response
  pub tool_name : Option String → Option String
  pub server_name : String → Option String

-- What ParseMessage returns.
pub data Message : Type 0 where
  request : Request → Message
  response : Response → Message
  malformed : Message

unfoldable pub request_or_malformed : Option Request → Message
request_or_malformed (some r) = request r
request_or_malformed none = malformed

unfoldable pub response_or_malformed : Option Response → Message
response_or_malformed (some r) = response r
response_or_malformed none = malformed

unfoldable pub parse_message : Json → String → Message
unfolding request_or_malformed response_or_malformed
parse_message json raw =
    let text = json.trim_space raw in
    if str_eq text "" then malformed else elim (json.probe text) [
      | none ↦ malformed
      | some p ↦
          if not (str_eq p.method "")
          then request_or_malformed (json.request text)
          else if p.has_result || p.has_error
          then response_or_malformed (json.response text)
          else malformed
    ]

pub record AgentContext : Type 0 where
  pub agent_id : String
  pub session_id : String
  pub user_id : String

pub record PendingCall : Type 0 where
  pub tool_name : String
  pub start_time : Time

-- Interceptor; its own agent, session and user are the context `agent`.
pub record Interceptor (A : Type 0) : Type 0 where
  pub server_name : String
  pub pricer : List (PricingRule A)
  pub agent : AgentContext
  pub inflight : GoMap PendingCall

abbrev pub method_tools_call : String
method_tools_call = "tools/call"

or_default : Option AgentContext → AgentContext → AgentContext
or_default none c = c
or_default (some c) d = c

module _ {A : Type 0} where
  unfoldable pub new_interceptor : String → List (PricingRule A) → AgentContext → Interceptor A
  new_interceptor server_name pricer agent = record {
    server_name = server_name;
    pricer = pricer;
    agent = agent;
    inflight = [];
  }

  handle_client_request : Json → Interceptor A → Request → Time → Interceptor A
  handle_client_request json i req now =
      if not (str_eq req.method method_tools_call) then i else elim req.id [
        | none ↦ i
        | some id_key ↦ elim (json.tool_name req.params) [
          | none ↦ i
          | some name ↦ record i {
            inflight = GoMap.put i.inflight id_key (record { tool_name = name; start_time = now });
          }
        ]
      ]

  try_extract_server_name : Json → Interceptor A → Response → Interceptor A
  try_extract_server_name json i resp = elim resp.result [
    | none ↦ i
    | some raw ↦ elim (json.server_name raw) [
      | none ↦ i
      | some name ↦ if str_eq name "" then i else record i { server_name = name }
    ]
  ]

  -- The record of a call that is answered; `ulid` is the fresh id, `zero` the amount 0.
  tool_record :
      A
      → Interceptor A
      → PendingCall
      → Response
      → Option AgentContext
      → String
      → Time
      → UsageRecord A
  unfolding or_default
  tool_record zero i pending resp agent_ctx ulid now =
      let who = or_default agent_ctx i.agent in
      record {
        id = ulid;
        timestamp = now;
        provider = "mcp";
        model = str_append i.server_name (str_append ":" pending.tool_name);
        api_key_hash = "";
        input_tokens = pos 0;
        output_tokens = pos 0;
        total_tokens = pos 0;
        cost_usd = cost_for_call zero i.pricer i.server_name pending.tool_name;
        estimated = false;
        duration_ms = milliseconds (sub now pending.start_time);
        status_code = if resp.has_error then pos 500 else pos 200;
        path = method_tools_call;
        agent_id = who.agent_id;
        session_id = who.session_id;
        user_id = who.user_id;
        tenant_id = "";
      }

  handle_server_response :
      A
      → Json
      → Interceptor A
      → Response
      → Option AgentContext
      → String
      → Time
      → Interceptor A × List (UsageRecord A)
  unfolding tool_record try_extract_server_name
  handle_server_response zero json i resp agent_ctx ulid now = elim resp.id [
    | none ↦ (i, [])
    | some id_key ↦ elim (GoMap.get i.inflight id_key) [
      | none ↦ (try_extract_server_name json i resp, [])
      | some pending ↦ (
        record i { inflight = GoMap.delete i.inflight id_key },
        tool_record zero i pending resp agent_ctx ulid now ∷ [],
      )
    ]
  ]

  -- HandleMessage, and the records that it hands to the recorder.
  pub handle_message :
      A
      → Json
      → Interceptor A
      → String
      → Bool
      → Option AgentContext
      → String
      → Time
      → Interceptor A × List (UsageRecord A)
  unfolding handle_client_request handle_server_response
  handle_message zero json i text from_client agent_ctx ulid now = elim (parse_message json text) [
    | malformed ↦ (i, [])
    | request req ↦ if from_client then (handle_client_request json i req now, []) else (i, [])
    | response resp ↦
        if from_client then (i, []) else handle_server_response zero json i resp agent_ctx ulid now
  ]
