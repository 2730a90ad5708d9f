-- ===== src/Provider/Compat.antt =====
-- internal/provider/openai_compat.go: the providers with OpenAI's format, below a path prefix.
use agent_ledger.Base.{
  ℤ, pos, Bool, true, false, ◌||◌, String, str_eq, str_append, Option, none, some, List, [], ◌∷◌,
  if◌then◌else◌, ltb_ℤ,
}
use agent_ledger.Base.Text.{has_prefix, trim_prefix}
use agent_ledger.Proxy.Bytes.{Bytes}
use agent_ledger.Provider.Meta.{RequestMeta, ResponseMeta, StreamChunkMeta}
use agent_ledger.Provider.Json.{Json, CompatUsage, NestedResponse, TokenUsage}

pub record OpenAiCompatible : Type 0 where
  pub name : String
  pub upstream : String
  pub path_prefix : String

-- The paths that Match looks for, behind the prefix.
abbrev pub native_paths : List String
native_paths =
    "/v1/chat/" ∷ "/v1/completions" ∷ "/v1/embeddings" ∷ "/v1/models" ∷ "/v1/responses" ∷ []

unfoldable pub has_some_prefix : String → String → List String → Bool
has_some_prefix path prefix [] = false
has_some_prefix path prefix (p ∷ ps) =
    has_prefix path (str_append prefix p) || has_some_prefix path prefix ps

-- Match
unfoldable pub match_compat : OpenAiCompatible → String → Bool
match_compat o path = has_some_prefix path o.path_prefix native_paths

-- RewritePath
unfoldable pub rewrite_compat : OpenAiCompatible → String → String
rewrite_compat o path = if str_eq o.path_prefix "" then path else trim_prefix path o.path_prefix

-- The second number where it is positive, else the first.
abbrev pub prefer : ℤ → ℤ → ℤ
prefer a b = if ltb_ℤ (pos 0) b then b else a

-- ParseRequest
unfoldable pub parse_compat_request : Json → Bytes → Option RequestMeta
parse_compat_request json body = elim (json.compat_request body) [
  | none ↦ none
  | some req ↦ some (record {
    model = req.model;
    max_tokens = prefer req.max_tokens req.max_output_tokens;
    stream = req.stream;
  })
]

-- ParseResponse
unfoldable pub parse_compat_response : Json → Bytes → Option ResponseMeta
parse_compat_response json body = elim (json.compat_response body) [
  | none ↦ none
  | some resp ↦ some (record {
    model = resp.model;
    input_tokens = prefer resp.usage.prompt_tokens resp.usage.input_tokens;
    output_tokens = prefer resp.usage.completion_tokens resp.usage.output_tokens;
    total_tokens = resp.usage.total_tokens;
  })
]

abbrev pub first_choice : List String → String
first_choice [] = ""
first_choice (content ∷ more) = content

with_usage : StreamChunkMeta → Option CompatUsage → StreamChunkMeta
with_usage meta none = meta
with_usage meta (some u) = record meta {
  input_tokens = prefer u.prompt_tokens u.input_tokens;
  output_tokens = prefer u.completion_tokens u.output_tokens;
  done = true;
}

with_nested_usage : StreamChunkMeta → Option TokenUsage → StreamChunkMeta
with_nested_usage meta none = meta
with_nested_usage meta (some u) = record meta {
  input_tokens = u.input_tokens;
  output_tokens = u.output_tokens;
  done = true;
}

-- The event response.completed of the Responses API.
with_response : StreamChunkMeta → String → Option NestedResponse → StreamChunkMeta
unfolding with_nested_usage
with_response meta type none = meta
with_response meta type (some r) =
    if str_eq type "response.completed"
    then with_nested_usage
        (record meta { model = if str_eq r.model "" then meta.model else r.model }) r.usage
    else meta

-- ParseStreamChunk
pub parse_compat_chunk : Json → Bytes → Option StreamChunkMeta
unfolding with_usage with_response
parse_compat_chunk json payload = elim (json.compat_chunk payload) [
  | none ↦ none
  | some chunk ↦ some (
      with_response
        (with_usage
          (record {
            model = chunk.model;
            input_tokens = pos 0;
            output_tokens = pos 0;
            text = first_choice chunk.choices;
            done = false;
          })
          chunk.usage)
        chunk.type chunk.response)
]
