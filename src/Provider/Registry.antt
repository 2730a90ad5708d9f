-- ===== src/Provider/Registry.antt =====
-- internal/provider/registry.go: the configured providers, and the one that takes a request. The interface Provider is a data
-- type with a constructor for each implementation, its methods are functions by clauses.
pub mod Vendors
pub mod Routes
pub mod Order
pub mod Rewriting
pub mod Mux
use agent_ledger.Base.{
  Bool, true, false, not, ◌&&◌, ◌||◌, String, str_eq, str_append, Option, none, some, List, [], ◌∷◌,
  ◌++◌, if◌then◌else◌,
}
use agent_ledger.Base.GoMap.{GoMap}
use agent_ledger.Access.Keys.{Headers}
use agent_ledger.Proxy.Bytes.{Bytes}
use agent_ledger.Provider.Meta.{RequestMeta, ResponseMeta, StreamChunkMeta}
use agent_ledger.Provider.Json.{Json}
use agent_ledger.Provider.Compat.{
  OpenAiCompatible, match_compat, rewrite_compat, parse_compat_request, parse_compat_response,
  parse_compat_chunk,
}
use agent_ledger.Provider.Anthropic.{
  match_anthropic, parse_anthropic_request, parse_anthropic_response, parse_anthropic_chunk,
}
use agent_ledger.Provider.Azure.{
  AzureProvider, new_azure, match_azure, rewrite_azure, parse_azure_request, parse_azure_response,
  parse_azure_chunk,
}
use agent_ledger.Provider.Gemini.{
  new_gemini, match_gemini, rewrite_gemini, parse_gemini_request, parse_gemini_response,
  parse_gemini_chunk,
}
use agent_ledger.Provider.Cohere.{
  new_cohere, match_cohere, rewrite_cohere, parse_cohere_request, parse_cohere_response,
  parse_cohere_chunk,
}

-- An Anthropic, Gemini or Cohere provider is its upstream.
pub data Provider : Type 0 where
  compat : OpenAiCompatible → Provider
  anthropic : String → Provider
  azure : AzureProvider → Provider
  gemini : String → Provider
  cohere : String → Provider

unfoldable pub provider_name : Provider → String
provider_name (compat o) = o.name
provider_name (anthropic u) = "anthropic"
provider_name (azure a) = "azure"
provider_name (gemini u) = "gemini"
provider_name (cohere u) = "cohere"

unfoldable pub upstream_url : Provider → String
upstream_url (compat o) = o.upstream
upstream_url (anthropic u) = u
upstream_url (azure a) = a.upstream
upstream_url (gemini u) = u
upstream_url (cohere u) = u

-- Match
unfoldable pub matches : Provider → String → Headers → Bool
matches (compat o) path r = match_compat o path
matches (anthropic u) path r = match_anthropic path r
matches (azure a) path r = match_azure a path
matches (gemini u) path r = match_gemini path
matches (cohere u) path r = match_cohere path

-- RewritePath, which Anthropic does not have.
unfoldable pub rewrite_path : Provider → String → String
rewrite_path (compat o) path = rewrite_compat o path
rewrite_path (anthropic u) path = path
rewrite_path (azure a) path = rewrite_azure a path
rewrite_path (gemini u) path = rewrite_gemini path
rewrite_path (cohere u) path = rewrite_cohere path

-- PathPrefix, where the provider has the method.
unfoldable pub path_prefix : Provider → Option String
path_prefix (compat o) = some o.path_prefix
path_prefix (anthropic u) = none
path_prefix (azure a) = some a.path_prefix
path_prefix (gemini u) = some "/gemini"
path_prefix (cohere u) = some "/cohere"

unfoldable pub parse_request : Json → Provider → Bytes → Option RequestMeta
parse_request json (compat o) body = parse_compat_request json body
parse_request json (anthropic u) body = parse_anthropic_request json body
parse_request json (azure a) body = parse_azure_request json body
parse_request json (gemini u) body = parse_gemini_request json body
parse_request json (cohere u) body = parse_cohere_request json body

unfoldable pub parse_response : Json → Provider → Bytes → Option ResponseMeta
parse_response json (compat o) body = parse_compat_response json body
parse_response json (anthropic u) body = parse_anthropic_response json body
parse_response json (azure a) body = parse_azure_response json body
parse_response json (gemini u) body = parse_gemini_response json body
parse_response json (cohere u) body = parse_cohere_response json body

unfoldable pub parse_stream_chunk : Json → Provider → Bytes → Bytes → Option StreamChunkMeta
parse_stream_chunk json (compat o) event_type payload = parse_compat_chunk json payload
parse_stream_chunk json (anthropic u) event_type payload =
    parse_anthropic_chunk json event_type payload
parse_stream_chunk json (azure a) event_type payload = parse_azure_chunk json payload
parse_stream_chunk json (gemini u) event_type payload = parse_gemini_chunk json payload
parse_stream_chunk json (cohere u) event_type payload = parse_cohere_chunk json event_type payload

abbrev pub or_default : String → String → String
or_default value default = if str_eq value "" then default else value

-- NewOpenAICompatible
abbrev pub new_compat : String → String → String → Provider
new_compat name upstream prefix =
    compat (record { name = name; upstream = upstream; path_prefix = prefix })

abbrev pub new_openai : String → Provider
new_openai upstream = new_compat "openai" upstream ""

-- config.ProviderConfig
pub record ProviderConfig : Type 0 where
  pub upstream : String
  pub enabled : Bool
  pub type : String
  pub path_prefix : String

-- config.ProvidersConfig; `extra` is in the order in which the map is iterated.
pub record ProvidersConfig : Type 0 where
  pub openai : ProviderConfig
  pub anthropic : ProviderConfig
  pub extra : GoMap ProviderConfig

-- NewProviderByType
unfoldable pub new_provider_by_type : String → String → String → String → Option Provider
new_provider_by_type name typ upstream prefix =
    let own_prefix = or_default prefix (str_append "/" name) in
    if str_eq typ "openai"
    then some (new_compat name (or_default upstream "https://api.openai.com") own_prefix)
    else if str_eq typ "anthropic"
    then some (anthropic (or_default upstream "https://api.anthropic.com"))
    else if str_eq typ "azure"
    then some (azure (new_azure upstream))
    else if str_eq typ "gemini"
    then some (gemini (new_gemini upstream))
    else if str_eq typ "cohere"
    then some (cohere (new_cohere upstream))
    else if not (str_eq upstream "")
    then some (new_compat name upstream own_prefix)
    else none

-- One round of the loop over the extra providers.
unfoldable pub extra_provider : String × ProviderConfig → Option Provider
extra_provider (name, pc) =
    if not pc.enabled then none else new_provider_by_type name pc.type pc.upstream pc.path_prefix

abbrev pub add_provider : Option Provider → List Provider → List Provider
add_provider none ps = ps
add_provider (some p) ps = p ∷ ps

unfoldable pub extra_providers : GoMap ProviderConfig → List Provider
extra_providers [] = []
extra_providers (e ∷ m) = add_provider (extra_provider e) (extra_providers m)

abbrev pub enabled_only : Bool → Provider → List Provider
enabled_only true p = p ∷ []
enabled_only false p = []

-- NewRegistry
unfoldable pub new_registry : ProvidersConfig → List Provider
new_registry cfg =
    enabled_only cfg.openai.enabled (new_openai cfg.openai.upstream)
    ++ (enabled_only cfg.anthropic.enabled (anthropic cfg.anthropic.upstream)
        ++ extra_providers cfg.extra)

-- Detect
unfoldable pub detect : List Provider → String → Headers → Option Provider
detect [] path r = none
detect (p ∷ ps) path r = if matches p path r then some p else detect ps path r

pub contains : String → List String → Bool
contains x [] = false
contains x (y ∷ ys) = str_eq y x || contains x ys

pub prefixes_from : List String → List Provider → List String
unfolding contains
prefixes_from seen [] = []
prefixes_from seen (p ∷ ps) =
    let skipped = prefixes_from seen ps in
    elim (path_prefix p) [
      | none ↦ skipped
      | some prefix ↦ elim (not (str_eq prefix "") && not (contains prefix seen)) [
        | true ↦ prefix ∷ prefixes_from (prefix ∷ seen) ps
        | false ↦ skipped
      ]
    ]

-- PathPrefixes
pub path_prefixes : List Provider → List String
unfolding prefixes_from
path_prefixes ps = prefixes_from [] ps
