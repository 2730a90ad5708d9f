-- ===== src/Proxy/Examples.antt =====
-- A stream of one event in two chunks; every payload is read as the same chunk of five tokens.
use mathlib.Core.List.{flatten}
use agent_ledger.Base.Differing.{str_eq-ne}
use agent_ledger.Base.{
  ℤ, pos, refl, All, ◌≢◌, str_eq, if◌then◌else◌, ◌≡◌, true, false, String, Option, none, some, [],
  ◌∷◌, ◌++◌, map, arith,
}
use agent_ledger.Base.FixedPoint.{thousandths}
use agent_ledger.Base.Text.{strip, clash}
use agent_ledger.Access.Keys.{extract_api_key, extract_agent_headers}
use agent_ledger.Provider.Json.{Json, no_json}
use agent_ledger.Provider.Compat.{OpenAiCompatible}
use agent_ledger.Provider.Registry.{compat}
use agent_ledger.Proxy.Rewrite.{
  Url, Outgoing, ends_slash, private_headers, rewrite, rewrite_native, rewrite_prefixed,
}
use agent_ledger.Proxy.Response.{UpstreamReply}
use agent_ledger.Proxy.Response.Billing.{Bill, modify_response-Bill}
use agent_ledger.Meter.Cost.{Meter, new_meter}
use agent_ledger.Meter.Encoding.{Encoder}
use agent_ledger.Proxy.Bytes.{Bytes}
use agent_ledger.Proxy.Stream.{
  CallContext, ParseStreamChunk, StreamInterceptor, read, read_eof, close, receive,
  new_stream_interceptor, process_events, next_event,
}
use agent_ledger.Proxy.Stream.Chunks.{process_events_complete}
use agent_ledger.Proxy.Stream.Ending.{perform, perform_once, stream_effects}

abbrev five_tokens : ParseStreamChunk
five_tokens event_type payload = some (record {
  model = "gpt-4o";
  input_tokens = pos 5;
  output_tokens = pos 0;
  text = "Hi";
  done = false;
})

abbrev one_call : CallContext
one_call = record {
  provider = "openai";
  meta_model = some "gpt-4o";
  tracked = true;
  start = pos 0;
  api_key_hash = "h";
  path = "/v1/chat/completions";
  agent_id = "";
  session_id = "s1";
  user_id = "";
  tenant_id = "";
}

abbrev get_encoding : String → Option Encoder
get_encoding name = some (λ text. pos 2)

-- "data:x" and two line feeds, cut between the line feeds.
abbrev start_chunk : Bytes
start_chunk = 100 ∷ 97 ∷ 116 ∷ 97 ∷ 58 ∷ 120 ∷ 10 ∷ []

abbrev end_chunk : Bytes
end_chunk = 10 ∷ []

abbrev whole : Bytes → StreamInterceptor
whole bs = receive five_tokens (new_stream_interceptor one_call) bs

perform_once_example :
    let prices : Meter ℤ = new_meter thousandths in
    let s = new_stream_interceptor one_call in
    let reads = map read (start_chunk ∷ []) in
    ((perform five_tokens thousandths prices get_encoding s
        (reads ++ read_eof end_chunk "u1" (pos 7) ∷ close "u2" (pos 8) ∷ [])).1
      ≡ stream_effects five_tokens thousandths prices get_encoding
          (whole (flatten (start_chunk ∷ []) ++ end_chunk))
          "u1"
          (pos 7))
    × ((perform five_tokens thousandths prices get_encoding s
          (reads ++ close "u1" (pos 7) ∷ close "u2" (pos 8) ∷ [])).1
        ≡ stream_effects five_tokens thousandths prices get_encoding
            (whole (flatten (start_chunk ∷ [])))
            "u1"
            (pos 7))
perform_once_example =
    perform_once five_tokens thousandths (new_meter thousandths) get_encoding one_call
      (start_chunk ∷ []) end_chunk "u1" (pos 7) (close "u2" (pos 8) ∷ []) (ground arith)
      (ground arith)

process_events_complete_example :
    next_event
      (process_events five_tokens (record (new_stream_interceptor one_call) {
        parse_buf = start_chunk ++ end_chunk;
      })).parse_buf
    ≡ none
process_events_complete_example =
    process_events_complete five_tokens
      (record (new_stream_interceptor one_call) { parse_buf = start_chunk ++ end_chunk })

-- The documented provider Groq, and one whose upstream has no path.
abbrev groq : String → OpenAiCompatible
groq upstream = record { name = "groq"; upstream = upstream; path_prefix = "/groq" }

abbrev parse_url : String → Option Url
parse_url url = elim (str_eq url "https://api.groq.com/openai") [
  | true ↦ some (record { host = "api.groq.com"; path = "/openai" })
  | false ↦ some (record { host = "localhost"; path = "" })
]

abbrev to_groq : Outgoing
to_groq = record {
  host = "localhost:8787";
  path = "/groq/v1/chat/completions";
  headers = record {
    header = λ h. if str_eq h "Authorization" then "Bearer k1" else "s1";
    query = λ q. "";
  };
}

content_type_kept : All (λ h. "Content-Type" ≢ h) private_headers
content_type_kept = (
  str_eq-ne _ _ refl,
  (
    str_eq-ne _ _ refl,
    (str_eq-ne _ _ refl, (str_eq-ne _ _ refl, (str_eq-ne _ _ refl, (str_eq-ne _ _ refl, tt)))),
  ),
)

rewrite_native_example :
    let got = rewrite parse_url (compat (groq "http://localhost")) to_groq in
    (got.host ≡ "localhost")
    × (got.path ≡ "/v1/chat/completions")
    × (extract_api_key got.headers ≡ extract_api_key to_groq.headers)
    × (extract_agent_headers got.headers
        ≡ record { agent_id = ""; session_id = ""; user_id = ""; task = "" })
    × All (λ h. got.headers.header h ≡ "") private_headers
    × (got.headers.header "Content-Type" ≡ to_groq.headers.header "Content-Type")
unfolding strip
rewrite_native_example =
    rewrite_native parse_url (groq "http://localhost") to_groq "/v1/chat/completions" "localhost"
      "Content-Type" refl refl refl content_type_kept

rewrite_prefixed_example :
    (rewrite parse_url (compat (groq "https://api.groq.com/openai")) to_groq).path
    ≡ "/openai/groq/v1/chat/completions"
unfolding strip ends_slash clash
rewrite_prefixed_example =
    rewrite_prefixed parse_url (groq "https://api.groq.com/openai") to_groq "/v1/chat/completions"
      (record { host = "api.groq.com"; path = "/openai" }) refl refl refl refl refl

abbrev answered : UpstreamReply
answered = record {
  status_code = pos 200;
  content_type = "application/json";
  body = 123 ∷ 125 ∷ [];
  read_fails = false;
}

abbrev some_json : Json
some_json = record no_json {
  compat_response = λ b. some (record {
    model = "gpt-4o";
    usage = record {
      prompt_tokens = pos 7;
      completion_tokens = pos 5;
      input_tokens = pos 0;
      output_tokens = pos 0;
      total_tokens = pos 12;
    };
  });
}

modify_response-Bill_example :
    Bill thousandths some_json
      (new_meter thousandths)
      one_call
      (compat (groq "http://localhost"))
      none
      answered
      "u1"
      (pos 9)
modify_response-Bill_example =
    modify_response-Bill thousandths some_json (new_meter thousandths) one_call
      (compat (groq "http://localhost")) none answered "u1" (pos 9)
