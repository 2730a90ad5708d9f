-- ===== src/Provider/Cohere.antt =====
-- internal/provider/cohere.go: Cohere's Chat API.
use agent_ledger.Base.{
  pos, Bool, true, ◌||◌, String, str_eq, Option, none, some, if◌then◌else◌, add64,
}
use agent_ledger.Base.Text.{has_prefix, trim_prefix, codes}
use agent_ledger.Proxy.Bytes.{Bytes, bytes_eq}
use agent_ledger.Provider.Meta.{RequestMeta, ResponseMeta, StreamChunkMeta}
use agent_ledger.Provider.Json.{Json, CohereDelta, CohereStreamEvent, TokenUsage}
use agent_ledger.Provider.Anthropic.{empty_chunk}

-- NewCohere; a Cohere provider is its upstream.
unfoldable pub new_cohere : String → String
new_cohere upstream = if str_eq upstream "" then "https://api.cohere.com" else upstream

unfoldable pub match_cohere : String → Bool
match_cohere path = has_prefix path "/cohere/"

unfoldable pub rewrite_cohere : String → String
rewrite_cohere path = trim_prefix path "/cohere"

unfoldable pub parse_cohere_request : Json → Bytes → Option RequestMeta
parse_cohere_request json body = elim (json.cohere_request body) [
  | none ↦ none
  | some req ↦ some (record { model = req.model; max_tokens = req.max_tokens; stream = req.stream })
]

token_meta : Option (Option TokenUsage) → ResponseMeta
token_meta (some (some u)) = record {
  model = "";
  input_tokens = u.input_tokens;
  output_tokens = u.output_tokens;
  total_tokens = add64 u.input_tokens u.output_tokens;
}
token_meta _ = record {
  model = "";
  input_tokens = pos 0;
  output_tokens = pos 0;
  total_tokens = pos 0;
}

pub parse_cohere_response : Json → Bytes → Option ResponseMeta
unfolding token_meta
parse_cohere_response json body = elim (json.cohere_response body) [
  | none ↦ none
  | some resp ↦ some (token_meta resp.meta)
]

content_delta : Option CohereDelta → StreamChunkMeta
content_delta none = empty_chunk
content_delta (some d) = elim d.message [
  | some (some text) ↦ record empty_chunk { text = text }
  | _ ↦ empty_chunk
]

message_end : Option CohereDelta → StreamChunkMeta
message_end none = record empty_chunk { done = true }
message_end (some d) = elim d.usage [
  | some (some u) ↦ record empty_chunk {
    input_tokens = u.input_tokens;
    output_tokens = u.output_tokens;
    done = true;
  }
  | _ ↦ record empty_chunk { done = true }
]

event_meta : Bytes → CohereStreamEvent → StreamChunkMeta
unfolding content_delta message_end
event_meta event_type event =
    if bytes_eq event_type (codes "content-delta") || str_eq event.type "content-delta"
    then content_delta event.delta
    else if bytes_eq event_type (codes "message-end") || str_eq event.type "message-end"
    then message_end event.delta
    else empty_chunk

-- ParseStreamChunk
pub parse_cohere_chunk : Json → Bytes → Bytes → Option StreamChunkMeta
unfolding event_meta
parse_cohere_chunk json event_type payload = elim (json.cohere_event payload) [
  | none ↦ none
  | some event ↦ some (event_meta event_type event)
]
