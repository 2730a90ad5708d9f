-- ===== src/Provider/Gemini.antt =====
-- internal/provider/gemini.go: Google's Gemini API.
use Prim.Native.Char.{code}
use agent_ledger.Base.{
  ℕ, pos, Bool, false, ◌&&◌, ◌||◌, ◌==◌, String, str_eq, Option, none, some, List, [], ◌∷◌,
  if◌then◌else◌, ltb_ℤ,
}
use agent_ledger.Base.Text.{has_prefix, trim_prefix, strip}
use agent_ledger.Proxy.Bytes.{Bytes, trim_space}
use agent_ledger.Provider.Meta.{RequestMeta, ResponseMeta, StreamChunkMeta}
use agent_ledger.Provider.Json.{Json, GeminiResponse, GeminiUsage}
use agent_ledger.Provider.Anthropic.{empty_chunk}

-- NewGemini; a Gemini provider is its upstream.
unfoldable pub new_gemini : String → String
new_gemini upstream =
    if str_eq upstream "" then "https://generativelanguage.googleapis.com" else upstream

unfoldable pub match_gemini : String → Bool
match_gemini path = has_prefix path "/gemini/"

unfoldable pub rewrite_gemini : String → String
rewrite_gemini path = trim_prefix path "/gemini"

unfoldable pub parse_gemini_request : Json → Bytes → Option RequestMeta
parse_gemini_request json body = elim (json.gemini_request body) [
  | none ↦ none
  | some req ↦ some (record {
    model = "";
    max_tokens = elim req.generation_config [ none ↦ pos 0 | some tokens ↦ tokens ];
    stream = false;
  })
]

-- `[^/:]+` at the start of a text, greedily.
model_name : String → String
model_name String.[] = ""
model_name (String.◌∷◌ c s) =
    if code c == b'/' || code c == b':' then "" else String.◌∷◌ c (model_name s)

-- ExtractGeminiModel: the leftmost match of `/models/([^/:]+)`.
pub extract_gemini_model : String → String
unfolding model_name
extract_gemini_model String.[] = ""
extract_gemini_model (String.◌∷◌ c s) =
    let later = extract_gemini_model s in
    elim (strip "/models/" (String.◌∷◌ c s)) [
      | none ↦ later
      | some rest ↦ if str_eq (model_name rest) "" then later else model_name rest
    ]

unfoldable pub parse_gemini_response : Json → Bytes → Option ResponseMeta
parse_gemini_response json body = elim (json.gemini_response body) [
  | none ↦ none
  | some resp ↦ some (elim resp.usage_metadata [
    | none ↦ record {
      model = resp.model_version;
      input_tokens = pos 0;
      output_tokens = pos 0;
      total_tokens = pos 0;
    }
    | some u ↦ record {
      model = resp.model_version;
      input_tokens = u.prompt_token_count;
      output_tokens = u.candidates_token_count;
      total_tokens = u.total_token_count;
    }
  ])
]

-- strings.TrimPrefix and TrimSuffix of one byte.
trim_first : ℕ → Bytes → Bytes
trim_first c [] = []
trim_first c (b ∷ bs) = if b == c then bs else b ∷ bs

trim_last : ℕ → Bytes → Bytes
trim_last c [] = []
trim_last c (b ∷ []) = if b == c then [] else b ∷ []
trim_last c (b ∷ d ∷ bs) = b ∷ trim_last c (d ∷ bs)

-- stripJSONArrayWrapper
pub strip_json_array_wrapper : Bytes → Bytes
unfolding trim_first trim_last
strip_json_array_wrapper bs =
    trim_space (trim_last b',' (trim_first b',' (trim_last b']' (trim_first b'[' (trim_space bs)))))

first_text : List (List String) → String
first_text [] = ""
first_text ([] ∷ more) = ""
first_text ((text ∷ parts) ∷ more) = text

with_usage : StreamChunkMeta → Option GeminiUsage → StreamChunkMeta
with_usage meta none = meta
with_usage meta (some u) = record meta {
  input_tokens = u.prompt_token_count;
  output_tokens = u.candidates_token_count;
  done = ltb_ℤ (pos 0) u.candidates_token_count && ltb_ℤ (pos 0) u.prompt_token_count;
}

response_meta : GeminiResponse → StreamChunkMeta
unfolding with_usage first_text
response_meta resp =
    with_usage
      (record empty_chunk { model = resp.model_version; text = first_text resp.candidates })
      resp.usage_metadata

-- ParseStreamChunk
pub parse_gemini_chunk : Json → Bytes → Option StreamChunkMeta
unfolding response_meta
parse_gemini_chunk json payload = elim (strip_json_array_wrapper payload) [
  | [] ↦ some empty_chunk
  | b ∷ bs ↦ elim (json.gemini_response (b ∷ bs)) [
    | none ↦ none
    | some resp ↦ some (response_meta resp)
  ]
]
