-- ===== src/Mcp/Examples.antt =====
-- A call of a priced tool and its answer; a message is decoded by looking its text up.
use agent_ledger.Base.{
  String, eq_iff, arith, ℤ, pos, ◌≡◌, refl, true, false, str_eq, str_append, none, some, [], ◌∷◌,
  if◌then◌else◌,
}
use agent_ledger.Base.Clock.{sub, milliseconds}
use agent_ledger.Ledger.Usage.{UsageRecord}
use agent_ledger.Mcp.Pricing.{cost_for_call}
use agent_ledger.Mcp.Interceptor.{
  Json, Request, Response, Interceptor, request, response, parse_message, handle_message,
}
use agent_ledger.Mcp.HttpProxy.{HttpProxy, Post, Upstream, whole, serve_post}
use agent_ledger.Mcp.HttpProxy.Unpriced.{Free, serve_post-Free}
use agent_ledger.Mcp.Interceptor.Pairing.{handle_message_pairs}

abbrev asked : Request
asked = record { id = some "1"; method = "tools/call"; params = some "search" }

abbrev answered : Response
answered = record { id = some "1"; result = some "{}"; has_error = false }

abbrev json : Json
json = record {
  trim_space = λ t. t;
  probe = λ t. elim (str_eq t "ask") [
    | true ↦ some (record { method = "tools/call"; has_result = false; has_error = false })
    | false ↦ some (record { method = ""; has_result = true; has_error = false })
  ];
  request = λ t. some asked;
  response = λ t. some answered;
  tool_name = λ params. params;
  server_name = λ t. none;
}

abbrev files : Interceptor ℤ
files = record {
  server_name = "files";
  pricer = record { server = "files"; tool = "search"; cost_per_call = pos 10 } ∷ [];
  agent = record { agent_id = "a1"; session_id = "s1"; user_id = "" };
  inflight = [];
}

parsed_ask : parse_message json "ask" ≡ request asked
unfolding parse_message
parsed_ask = refl

parsed_answer : parse_message json "answer" ≡ response answered
unfolding parse_message
parsed_answer = refl

handle_message_pairs_example :
    let called = handle_message (pos 0) json files "ask" true none "u" (pos 0) in
    let done = handle_message (pos 0) json called.0 "answer" false none "v" (pos 9000000) in
    let again = handle_message (pos 0) json done.0 "answer" false none "w" (pos 9000001) in
    (called.1 ≡ [])
    × ((r : UsageRecord ℤ) × (done.1 ≡ r ∷ [])
        × (r.model ≡ str_append "files" (str_append ":" "search"))
        × (r.cost_usd ≡ cost_for_call (pos 0) files.pricer "files" "search")
        × (r.duration_ms ≡ milliseconds (sub (pos 9000000) (pos 0)))
        × (r.status_code ≡ (if false then pos 500 else pos 200)))
    × (again.1 ≡ [])
handle_message_pairs_example =
    handle_message_pairs (pos 0) json none files "ask" "answer" asked answered "1" "search" "u" "v"
      "w" (pos 0) (pos 9000000) (pos 9000001) parsed_ask refl refl refl parsed_answer refl

-- The same call over HTTP, with the prices of the server "files".
abbrev over_http : HttpProxy ℤ
over_http = record { upstream = "http://localhost:9000"; pricer = files.pricer }

abbrev post : Post
post = record {
  method = "POST";
  path = "/mcp/";
  headers = record { header = λ h. ""; query = λ q. "" };
  body = "ask";
  body_fails = false;
}

abbrev clean : String → String
clean path = path

abbrev upstream : String → String → Upstream
upstream path body = whole (pos 200) (some "answer")

serve_post-Free_example :
    Free
      (pos 0)
      json
      (serve_post (pos 0) json over_http post clean upstream "u" (pos 0) (pos 9000000)).1
serve_post-Free_example =
    serve_post-Free (pos 0) json over_http post clean upstream "u" (pos 0) (pos 9000000) (pos 200)
      (some "answer") ((λ e. ground (arith, eq_iff "files" "unknown")), tt) refl
