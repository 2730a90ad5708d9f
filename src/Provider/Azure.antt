-- ===== src/Provider/Azure.antt =====
-- internal/provider/azure.go: the Azure OpenAI service.
use agent_ledger.Base.{pos, Bool, true, false, String, str_append, Option, none, some}
use agent_ledger.Base.Text.{has_prefix, trim_prefix}
use agent_ledger.Proxy.Bytes.{Bytes}
use agent_ledger.Provider.Meta.{RequestMeta, ResponseMeta, StreamChunkMeta}
use agent_ledger.Provider.Json.{Json, AzureUsage}
use agent_ledger.Provider.Compat.{first_choice}

pub record AzureProvider : Type 0 where
  pub upstream : String
  pub path_prefix : String

-- NewAzure
unfoldable pub new_azure : String → AzureProvider
new_azure upstream = record { upstream = upstream; path_prefix = "/azure" }

unfoldable pub match_azure : AzureProvider → String → Bool
match_azure a path = has_prefix path (str_append a.path_prefix "/openai/deployments/")

unfoldable pub rewrite_azure : AzureProvider → String → String
rewrite_azure a path = trim_prefix path a.path_prefix

unfoldable pub parse_azure_request : Json → Bytes → Option RequestMeta
parse_azure_request json body = elim (json.azure_request body) [
  | none ↦ none
  | some req ↦
      some (record { model = "azure-deployment"; max_tokens = req.max_tokens; stream = req.stream })
]

unfoldable pub parse_azure_response : Json → Bytes → Option ResponseMeta
parse_azure_response json body = elim (json.azure_response body) [
  | none ↦ none
  | some resp ↦ some (record {
    model = resp.model;
    input_tokens = resp.usage.prompt_tokens;
    output_tokens = resp.usage.completion_tokens;
    total_tokens = resp.usage.total_tokens;
  })
]

with_usage : StreamChunkMeta → Option AzureUsage → StreamChunkMeta
with_usage meta none = meta
with_usage meta (some u) = record meta {
  input_tokens = u.prompt_tokens;
  output_tokens = u.completion_tokens;
  done = true;
}

pub parse_azure_chunk : Json → Bytes → Option StreamChunkMeta
unfolding with_usage
parse_azure_chunk json payload = elim (json.azure_chunk payload) [
  | none ↦ none
  | some chunk ↦ some (
      with_usage
        (record {
          model = chunk.model;
          input_tokens = pos 0;
          output_tokens = pos 0;
          text = first_choice chunk.choices;
          done = false;
        })
        chunk.usage)
]
