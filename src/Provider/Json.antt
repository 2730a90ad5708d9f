-- ===== src/Provider/Json.antt =====
-- internal/provider: the structs that JSON bodies are decoded into, with `Option` for a pointer.
-- Package encoding/json is a parameter: a decoder for each struct, `none` where it returns an error.
use agent_ledger.Base.{ℤ, Bool, String, Option, none, List}
use agent_ledger.Proxy.Bytes.{Bytes}

pub record CompatRequest : Type 0 where
  pub model : String
  pub max_tokens : ℤ
  pub max_output_tokens : ℤ
  pub stream : Bool

pub record CompatUsage : Type 0 where
  pub prompt_tokens : ℤ
  pub completion_tokens : ℤ
  pub input_tokens : ℤ
  pub output_tokens : ℤ
  pub total_tokens : ℤ

pub record CompatResponse : Type 0 where
  pub model : String
  pub usage : CompatUsage

-- The usage of Anthropic, Cohere and the Responses API.
pub record TokenUsage : Type 0 where
  pub input_tokens : ℤ
  pub output_tokens : ℤ

pub record NestedResponse : Type 0 where
  pub model : String
  pub usage : Option TokenUsage

-- A choice is the content of its delta.
pub record CompatStreamChunk : Type 0 where
  pub model : String
  pub choices : List String
  pub usage : Option CompatUsage
  pub type : String
  pub response : Option NestedResponse

pub record AnthropicRequest : Type 0 where
  pub model : String
  pub max_tokens : ℤ
  pub stream : Bool

pub record AnthropicResponse : Type 0 where
  pub model : String
  pub usage : TokenUsage

pub record AnthropicDelta : Type 0 where
  pub type : String
  pub text : String

-- The usage of a message_delta is its output tokens.
pub record AnthropicStreamEvent : Type 0 where
  pub type : String
  pub message : Option NestedResponse
  pub delta : Option AnthropicDelta
  pub usage : Option ℤ

pub record AzureRequest : Type 0 where
  pub max_tokens : ℤ
  pub stream : Bool

pub record AzureUsage : Type 0 where
  pub prompt_tokens : ℤ
  pub completion_tokens : ℤ
  pub total_tokens : ℤ

pub record AzureResponse : Type 0 where
  pub model : String
  pub usage : AzureUsage

pub record AzureStreamChunk : Type 0 where
  pub model : String
  pub choices : List String
  pub usage : Option AzureUsage

-- The generation config of a request is its limit of output tokens.
pub record GeminiRequest : Type 0 where
  pub generation_config : Option ℤ

pub record GeminiUsage : Type 0 where
  pub prompt_token_count : ℤ
  pub candidates_token_count : ℤ
  pub total_token_count : ℤ

-- A candidate is the texts of its parts.
pub record GeminiResponse : Type 0 where
  pub candidates : List (List String)
  pub usage_metadata : Option GeminiUsage
  pub model_version : String

pub record CohereRequest : Type 0 where
  pub model : String
  pub stream : Bool
  pub max_tokens : ℤ

-- `meta` is the pointer to its tokens.
pub record CohereResponse : Type 0 where
  pub meta : Option (Option TokenUsage)

-- `message` is the pointer to its content's text, `usage` the pointer to its billed units.
pub record CohereDelta : Type 0 where
  pub message : Option (Option String)
  pub usage : Option (Option TokenUsage)

pub record CohereStreamEvent : Type 0 where
  pub type : String
  pub delta : Option CohereDelta

pub record Json : Type 0 where
  pub compat_request : Bytes → Option CompatRequest
  pub compat_response : Bytes → Option CompatResponse
  pub compat_chunk : Bytes → Option CompatStreamChunk
  pub anthropic_request : Bytes → Option AnthropicRequest
  pub anthropic_response : Bytes → Option AnthropicResponse
  pub anthropic_event : Bytes → Option AnthropicStreamEvent
  pub azure_request : Bytes → Option AzureRequest
  pub azure_response : Bytes → Option AzureResponse
  pub azure_chunk : Bytes → Option AzureStreamChunk
  pub gemini_request : Bytes → Option GeminiRequest
  pub gemini_response : Bytes → Option GeminiResponse
  pub cohere_request : Bytes → Option CohereRequest
  pub cohere_response : Bytes → Option CohereResponse
  pub cohere_event : Bytes → Option CohereStreamEvent

-- Decoders that refuse every body.
abbrev pub no_json : Json
no_json = record {
  compat_request = λ b. none;
  compat_response = λ b. none;
  compat_chunk = λ b. none;
  anthropic_request = λ b. none;
  anthropic_response = λ b. none;
  anthropic_event = λ b. none;
  azure_request = λ b. none;
  azure_response = λ b. none;
  azure_chunk = λ b. none;
  gemini_request = λ b. none;
  gemini_response = λ b. none;
  cohere_request = λ b. none;
  cohere_response = λ b. none;
  cohere_event = λ b. none;
}
