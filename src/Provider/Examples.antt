-- ===== src/Provider/Examples.antt =====
-- Two extra providers, whose order the map does not fix, and a path of one of them.
use agent_ledger.Base.Differing.{str_eq-ne}
use agent_ledger.Base.{◌≡◌, refl, true, String, eq_iff, [], ◌∷◌, inl, inr, arith, swap}
use agent_ledger.Access.Keys.{Headers}
use agent_ledger.Provider.Registry.{
  ProviderConfig, ProvidersConfig, detect, matches, new_compat, new_registry, extra_provider,
  extra_providers, new_provider_by_type,
}
use agent_ledger.Provider.Registry.Routes.{OneSegment}
use agent_ledger.Provider.Registry.Order.{detect-new_registry}
use agent_ledger.Provider.Registry.Mux.{any_under, proxy_routes, detect-routed}
use agent_ledger.Provider.Compat.{match_compat, has_some_prefix}
use agent_ledger.Provider.Anthropic.{match_anthropic}
use agent_ledger.Base.Text.{strip, before_slash}

abbrev of_type : String → String → ProviderConfig
of_type type upstream = record {
  upstream = upstream;
  enabled = true;
  type = type;
  path_prefix = "";
}

abbrev groq : String × ProviderConfig
groq = ("groq", of_type "openai" "https://g")

abbrev gem : String × ProviderConfig
gem = ("gem", of_type "gemini" "")

abbrev config : ProvidersConfig
config = record {
  openai = of_type "" "https://o";
  anthropic = of_type "" "https://a";
  extra = groq ∷ gem ∷ [];
}

abbrev no_headers : Headers
no_headers = record { header = λ h. ""; query = λ q. "" }

groq_OneSegment : OneSegment "/groq"
unfolding before_slash
groq_OneSegment = ("groq", refl, refl, λ e. ground (arith, eq_iff "groq" "v1"))

detect-new_registry_example :
    detect (new_registry (record config { extra = gem ∷ groq ∷ [] })) "/groq/v1/models" no_headers
    ≡ detect (new_registry config) "/groq/v1/models" no_headers
unfolding new_registry extra_provider extra_providers new_provider_by_type
detect-new_registry_example =
    detect-new_registry config (gem ∷ groq ∷ []) "/groq/v1/models" no_headers swap
      (inl refl, (tt, (inr groq_OneSegment, (tt, tt))))
      (
        (
          str_eq-ne "" "anthropic" refl,
          (str_eq-ne "" "/groq" refl, (str_eq-ne "" "/gemini" refl, tt)),
        ),
        (
          (str_eq-ne "anthropic" "/groq" refl, (str_eq-ne "anthropic" "/gemini" refl, tt)),
          ((str_eq-ne "/groq" "/gemini" refl, tt), (tt, tt)),
        ),
      )

detect-routed_example : any_under (proxy_routes (new_registry config)) "/groq/v1/models" ≡ true
unfolding new_registry extra_provider extra_providers new_provider_by_type detect matches
    match_compat has_some_prefix match_anthropic strip
detect-routed_example =
    detect-routed config "/groq/v1/models" no_headers (new_compat "groq" "https://g" "/groq") refl
