-- ===== src/Provider/Anthropic.antt =====
-- internal/provider/anthropic.go: Anthropic's Messages API.
use agent_ledger.Base.{
  ℤ, pos, Bool, true, false, ◌||◌, not, String, str_eq, Option, none, some, if◌then◌else◌, add64,
}
use agent_ledger.Base.Text.{has_prefix, codes}
use agent_ledger.Access.Keys.{Headers}
use agent_ledger.Proxy.Bytes.{Bytes, bytes_eq}
use agent_ledger.Provider.Meta.{RequestMeta, ResponseMeta, StreamChunkMeta}
use agent_ledger.Provider.Json.{Json, AnthropicStreamEvent, NestedResponse, AnthropicDelta}

-- Match
unfoldable pub match_anthropic : String → Headers → Bool
match_anthropic path r =
    if has_prefix path "/v1/messages"
    then not (str_eq (r.header "anthropic-version") "") || not (str_eq (r.header "x-api-key") "")
    else false

unfoldable pub parse_anthropic_request : Json → Bytes → Option RequestMeta
parse_anthropic_request json body = elim (json.anthropic_request body) [
  | none ↦ none
  | some req ↦ some (record { model = req.model; max_tokens = req.max_tokens; stream = req.stream })
]

unfoldable pub parse_anthropic_response : Json → Bytes → Option ResponseMeta
parse_anthropic_response json body = elim (json.anthropic_response body) [
  | none ↦ none
  | some resp ↦ some (record {
    model = resp.model;
    input_tokens = resp.usage.input_tokens;
    output_tokens = resp.usage.output_tokens;
    total_tokens = add64 resp.usage.input_tokens resp.usage.output_tokens;
  })
]

-- StreamChunkMeta{}
abbrev pub empty_chunk : StreamChunkMeta
empty_chunk = record {
  model = "";
  input_tokens = pos 0;
  output_tokens = pos 0;
  text = "";
  done = false;
}

abbrev message_start : Option NestedResponse → StreamChunkMeta
message_start none = empty_chunk
message_start (some m) = record empty_chunk {
  model = m.model;
  input_tokens = elim m.usage [ none ↦ pos 0 | some u ↦ u.input_tokens ];
}

abbrev text_delta : Option AnthropicDelta → StreamChunkMeta
text_delta none = empty_chunk
text_delta (some d) =
    if str_eq d.type "text_delta" then record empty_chunk { text = d.text } else empty_chunk

abbrev message_delta : Option ℤ → StreamChunkMeta
message_delta none = empty_chunk
message_delta (some output_tokens) = record empty_chunk { output_tokens = output_tokens }

-- The switch of ParseStreamChunk, on the event's type.
unfoldable pub event_meta : Bytes → AnthropicStreamEvent → StreamChunkMeta
event_meta event_type event =
    if bytes_eq event_type (codes "message_start")
    then message_start event.message
    else if bytes_eq event_type (codes "content_block_delta")
    then text_delta event.delta
    else if bytes_eq event_type (codes "message_delta")
    then message_delta event.usage
    else if bytes_eq event_type (codes "message_stop")
    then record empty_chunk { done = true }
    else empty_chunk

-- ParseStreamChunk
unfoldable pub parse_anthropic_chunk : Json → Bytes → Bytes → Option StreamChunkMeta
parse_anthropic_chunk json event_type payload = elim (json.anthropic_event payload) [
  | none ↦ none
  | some event ↦ some (event_meta event_type event)
]
