-- ===== src/Meter/Pricing.antt =====
-- internal/meter/pricing.go: USD per million tokens. A price is written in thousandths of a dollar.
use agent_ledger.Base.{ℕ, [], ◌∷◌}
use agent_ledger.Base.GoMap.{GoMap}
use agent_ledger.Base.Float64.{Float64}

pub record ModelPricing (A : Type 0) : Type 0 where
  pub input_per_mtok : A
  pub output_per_mtok : A

abbrev price : (f : Float64) → ℕ → ℕ → ModelPricing f.Carrier
price f i o = record { input_per_mtok = f.milli i; output_per_mtok = f.milli o }

-- DefaultPricing
unfoldable pub default_pricing : (f : Float64) → GoMap (ModelPricing f.Carrier)
default_pricing f =
    ("gpt-4.1", price f 2000 8000)
    ∷ ("gpt-4.1-mini", price f 400 1600)
    ∷ ("gpt-4.1-nano", price f 100 400)
    ∷ ("gpt-4o", price f 2500 10000)
    ∷ ("gpt-4o-mini", price f 150 600)
    ∷ ("o3", price f 10000 40000)
    ∷ ("o3-pro", price f 150000 600000)
    ∷ ("o3-mini", price f 1100 4400)
    ∷ ("o4-mini", price f 1100 4400)
    ∷ ("o1", price f 15000 60000)
    ∷ ("o1-pro", price f 150000 600000)
    ∷ ("o1-mini", price f 3000 12000)
    ∷ ("gpt-5.4-pro", price f 30000 180000)
    ∷ ("gpt-5.4", price f 2500 15000)
    ∷ ("gpt-5.3-codex", price f 1750 14000)
    ∷ ("gpt-5.3-chat", price f 1750 14000)
    ∷ ("gpt-5.2-pro", price f 10500 84000)
    ∷ ("gpt-5.2-codex", price f 1750 14000)
    ∷ ("gpt-5.2-chat", price f 875 7000)
    ∷ ("gpt-5.2", price f 1750 14000)
    ∷ ("gpt-5.1-codex-max", price f 1250 10000)
    ∷ ("gpt-5.1-codex-mini", price f 250 2000)
    ∷ ("gpt-5.1-codex", price f 1250 10000)
    ∷ ("gpt-5.1-chat", price f 625 5000)
    ∷ ("gpt-5.1", price f 625 5000)
    ∷ ("gpt-5-pro", price f 15000 120000)
    ∷ ("gpt-5-codex", price f 1250 10000)
    ∷ ("gpt-5-chat", price f 1250 10000)
    ∷ ("gpt-5-mini", price f 125 1000)
    ∷ ("gpt-5-nano", price f 50 400)
    ∷ ("gpt-5", price f 1250 10000)
    ∷ ("gpt-4-turbo", price f 10000 30000)
    ∷ ("gpt-4", price f 30000 60000)
    ∷ ("gpt-3.5-turbo", price f 500 1500)
    ∷ ("claude-opus-4.6", price f 5000 25000)
    ∷ ("claude-opus-4.5", price f 5000 25000)
    ∷ ("claude-sonnet-4.6", price f 3000 15000)
    ∷ ("claude-sonnet-4.5", price f 3000 15000)
    ∷ ("claude-haiku-4.5", price f 1000 5000)
    ∷ ("claude-opus-4.1", price f 15000 75000)
    ∷ ("claude-opus-4", price f 15000 75000)
    ∷ ("claude-sonnet-4", price f 3000 15000)
    ∷ ("claude-3.7-sonnet", price f 3000 15000)
    ∷ ("claude-3.5-sonnet", price f 3000 15000)
    ∷ ("claude-3.5-haiku", price f 800 4000)
    ∷ ("claude-3-opus", price f 15000 75000)
    ∷ ("claude-3-haiku", price f 250 1250)
    ∷ ("gemini-2.5-pro", price f 1250 10000)
    ∷ ("gemini-2.5-flash", price f 150 600)
    ∷ ("gemini-2.0-flash", price f 100 400)
    ∷ ("gemini-1.5-pro", price f 1250 5000)
    ∷ ("gemini-1.5-flash", price f 75 300)
    ∷ ("mistral-large-latest", price f 2000 6000)
    ∷ ("mistral-small-latest", price f 200 600)
    ∷ ("codestral-latest", price f 300 900)
    ∷ ("open-mistral-nemo", price f 150 150)
    ∷ ("llama-3.3-70b-versatile", price f 590 790)
    ∷ ("llama-3.1-8b-instant", price f 50 80)
    ∷ ("mixtral-8x7b-32768", price f 240 240)
    ∷ ("gemma2-9b-it", price f 200 200)
    ∷ ("deepseek-chat", price f 140 280)
    ∷ ("deepseek-reasoner", price f 550 2190)
    ∷ ("command-r-plus", price f 2500 10000)
    ∷ ("command-r", price f 150 600)
    ∷ ("command-light", price f 300 600)
    ∷ ("grok-3", price f 3000 15000)
    ∷ ("grok-3-mini", price f 300 500)
    ∷ ("grok-2", price f 2000 10000)
    ∷ ("sonar-pro", price f 3000 15000)
    ∷ ("sonar", price f 1000 1000)
    ∷ ("sonar-reasoning", price f 1000 5000)
    ∷ ("meta-llama/Llama-3.3-70B-Instruct-Turbo", price f 880 880)
    ∷ ("meta-llama/Meta-Llama-3.1-405B-Instruct-Turbo", price f 3500 3500)
    ∷ ("meta-llama/Meta-Llama-3.1-8B-Instruct-Turbo", price f 180 180)
    ∷ ("Qwen/Qwen2.5-72B-Instruct-Turbo", price f 1200 1200)
    ∷ ("deepseek-ai/DeepSeek-V3", price f 900 900)
    ∷ ("accounts/fireworks/models/llama-v3p3-70b-instruct", price f 900 900)
    ∷ ("accounts/fireworks/models/llama-v3p1-8b-instruct", price f 200 200)
    ∷ ("accounts/fireworks/models/qwen2p5-72b-instruct", price f 900 900)
    ∷ ("llama-3.3-70b", price f 850 850)
    ∷ ("llama-3.1-8b", price f 100 100)
    ∷ ("Meta-Llama-3.3-70B-Instruct", price f 600 600)
    ∷ ("Meta-Llama-3.1-8B-Instruct", price f 100 100)
    ∷ []
