-- ===== src/Provider/Registry/Vendors.antt =====
-- internal/provider: groq.go, mistral.go and the other files with one constructor. The registry makes
-- no use of them.
use agent_ledger.Base.{String, str_append}
use agent_ledger.Provider.Registry.{Provider, new_compat, or_default}

-- A provider whose prefix is its name, with the default of its upstream.
abbrev pub new_vendor : String → String → String → Provider
new_vendor name default upstream =
    new_compat name (or_default upstream default) (str_append "/" name)

-- NewGroq, NewMistral and so on.
abbrev pub new_groq : String → Provider
new_groq = new_vendor "groq" "https://api.groq.com/openai"

abbrev pub new_mistral : String → Provider
new_mistral = new_vendor "mistral" "https://api.mistral.ai"

abbrev pub new_deepseek : String → Provider
new_deepseek = new_vendor "deepseek" "https://api.deepseek.com"

abbrev pub new_together : String → Provider
new_together = new_vendor "together" "https://api.together.xyz"

abbrev pub new_fireworks : String → Provider
new_fireworks = new_vendor "fireworks" "https://api.fireworks.ai/inference"

abbrev pub new_perplexity : String → Provider
new_perplexity = new_vendor "perplexity" "https://api.perplexity.ai"

abbrev pub new_openrouter : String → Provider
new_openrouter = new_vendor "openrouter" "https://openrouter.ai/api"

abbrev pub new_xai : String → Provider
new_xai = new_vendor "xai" "https://api.x.ai"

abbrev pub new_cerebras : String → Provider
new_cerebras = new_vendor "cerebras" "https://api.cerebras.ai"

abbrev pub new_sambanova : String → Provider
new_sambanova = new_vendor "sambanova" "https://api.sambanova.ai"
