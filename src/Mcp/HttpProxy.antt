-- ===== src/Mcp/HttpProxy.antt =====
-- internal/mcp/httpproxy.go: MCP servers over HTTP. Each request has an interceptor of its own. The
-- client's writer can be flushed; logging and the copying of headers are left out.
pub mod Unpriced
use agent_ledger.Base.{
  ℕ, ℤ, pos, Bool, true, false, not, ◌&&◌, ◌||◌, String, str_eq, Option, none, some, List, [], ◌∷◌,
  ◌++◌, if◌then◌else◌,
}
use agent_ledger.Base.Text.{contains, has_prefix, trim_prefix}
use agent_ledger.Base.Clock.{Time}
use agent_ledger.Access.Keys.{Headers, extract_agent_headers}
use agent_ledger.Ledger.Usage.{UsageRecord}
use agent_ledger.Mcp.Pricing.{PricingRule}
use agent_ledger.Mcp.Interceptor.{Json, AgentContext, Interceptor, new_interceptor, handle_message}

pub record HttpProxy (A : Type 0) : Type 0 where
  pub upstream : String
  pub pricer : List (PricingRule A)

-- A request; the flag says that its body is too large or cannot be read.
pub record Post : Type 0 where
  pub method : String
  pub path : String
  pub headers : Headers
  pub body : String
  pub body_fails : Bool

-- What the upstream answers: nothing, a stream by the lines that the scanner finds, each with the
-- fresh id and the instant of its handling, or a whole body, `none` if it cannot be read.
pub data Upstream : Type 0 where
  unreachable : Upstream
  stream : ℤ → List (String × String × Time) → Upstream
  whole : ℤ → Option String → Upstream

-- http.Error with its status, or what is written to the client.
pub data McpAnswer : Type 0 where
  error : ℕ → McpAnswer
  lines : ℤ → List String → McpAnswer
  body : ℤ → String → McpAnswer

-- The payload of a line "data:", unless it is empty or closes the stream.
unfoldable pub data_of : Json → String → Option String
data_of json line =
    let trimmed = json.trim_space line in
    let payload = json.trim_space (trim_prefix trimmed "data:") in
    if has_prefix trimmed "data:" && (not (str_eq payload "") && not (str_eq payload "[DONE]"))
    then some payload
    else none

module _ {A : Type 0} (zero : A) (json : Json) where
  -- The loop of handleSSE: the records, and the lines that are written.
  unfoldable pub handle_sse :
      Interceptor A
      → Option AgentContext
      → List (String × String × Time)
      → List (UsageRecord A) × List String
  handle_sse i ctx [] = ([], [])
  handle_sse i ctx ((line, ulid, now) ∷ more) = elim (data_of json line) [
    | none ↦ let (records, out) = handle_sse i ctx more in (records, line ∷ out)
    | some payload ↦
        let (i', recorded) = handle_message zero json i payload false ctx ulid now in
        let (records, out) = handle_sse i' ctx more in (recorded ++ records, line ∷ out)
  ]

  abbrev pub context_of : Post → AgentContext
  context_of r =
      let who = extract_agent_headers r.headers in
      record { agent_id = who.agent_id; session_id = who.session_id; user_id = who.user_id }

  -- The interceptor of a request, after the request's message.
  unfoldable pub intercepted : HttpProxy A → Post → String → Time → Interceptor A
  intercepted p r ulid now =
      (handle_message zero json (new_interceptor "unknown" p.pricer (context_of r)) r.body true
        (some (context_of r)) ulid now).0

  -- What follows the upstream's answer.
  unfoldable pub respond :
      Interceptor A
      → Option AgentContext
      → Upstream
      → String
      → Time
      → McpAnswer × List (UsageRecord A)
  respond i ctx unreachable ulid now = (error 502, [])
  respond i ctx (stream status found) ulid now =
      let (records, out) = handle_sse i ctx found in (lines status out, records)
  respond i ctx (whole status none) ulid now = (error 502, [])
  respond i ctx (whole status (some text)) ulid now =
      (body status text, (handle_message zero json i text false ctx ulid now).1)

  -- ServeHTTP, up to its guards; `answers` is the upstream, given the cleaned path and the body, and
  -- `clean` is path.Clean. The upstream's URL can be parsed.
  unfoldable pub serve_post :
      HttpProxy A
      → Post
      → (String → String)
      → (String → String → Upstream)
      → String
      → Time
      → Time
      → McpAnswer × List (UsageRecord A)
  serve_post p r clean answers ulid asked answered =
      if not (str_eq r.method "POST")
      then (error 405, [])
      else if contains r.path ".."
      then (error 400, [])
      else if r.body_fails
      then (error 400, [])
      else respond (intercepted p r ulid asked) (some (context_of r))
          (answers (clean r.path) r.body) ulid answered
