-- ===== src/Proxy/Handler/Unpriced.antt =====
-- The check of a request's worst case, for the providers whose requests do not name the model.
use agent_ledger.Base.{pos, Bool, ◌≡◌, refl, inl, inr, String, none, some, arith, Option-cases}
use agent_ledger.Base.GoMap
use agent_ledger.Base.Float64.{Float64, IsOrdered}
use agent_ledger.Budget.Rules.{Result}
use agent_ledger.Budget.Spend.{Ledger, Calendar}
use agent_ledger.Meter.Cost.{Meter, new_meter, find_pricing, best_prefix, calculate}
use agent_ledger.Meter.Pricing.{default_pricing}
use agent_ledger.Provider.Meta.{RequestMeta}
use agent_ledger.Provider.Json.{Json}
use agent_ledger.Provider.Azure.{AzureProvider, parse_azure_request}
use agent_ledger.Provider.Gemini.{parse_gemini_request}
use agent_ledger.Provider.Registry.{Provider, azure, gemini, parse_request}
use agent_ledger.Proxy.Bytes.{Bytes}
use agent_ledger.Proxy.Handler.{preflight, zero_usd}

unnamed_price : (f : Float64) → find_pricing (new_meter f).pricing "" ≡ none
unfolding find_pricing best_prefix new_meter default_pricing GoMap.get
unnamed_price f = refl

deployment_price : (f : Float64) → find_pricing (new_meter f).pricing "azure-deployment" ≡ none
unfolding find_pricing best_prefix new_meter default_pricing GoMap.get
deployment_price f = refl

-- The providers whose requests do not name the model.
pub data Nameless : Provider → Type 0 where
  by_deployment : (a : AzureProvider) → Nameless (azure a)
  by_path : (upstream : String) → Nameless (gemini upstream)

Nameless-unpriced :
    (f : Float64) (json : Json) (prov : Provider) (body : Bytes) (meta : RequestMeta)
    → Nameless prov
    → parse_request json prov body ≡ some meta
    → find_pricing (new_meter f).pricing meta.model ≡ none
unfolding parse_request parse_azure_request parse_gemini_request
Nameless-unpriced f json prov body meta (by_deployment a) h =
    elim (Option-cases (json.azure_request body)) [
      | inl e ↦ absurd (ground (arith, e, h))
      | inr (req, e) ↦
          let named : meta.model ≡ "azure-deployment" = ground (arith, e, h) in
          rw named (deployment_price f)
    ]
Nameless-unpriced f json prov body meta (by_path u) h =
    elim (Option-cases (json.gemini_request body)) [
      | inl e ↦ absurd (ground (arith, e, h))
      | inr (req, e) ↦
          let named : meta.model ≡ "" = ground (arith, e, h) in rw named (unnamed_price f)
    ]

module _ (f : Float64) (glob : String → String → Bool) (ledger : Ledger f.Carrier) (cal : Calendar)
    (digest : String → String) where
  preflight_unpriced :
      (law : IsOrdered f) (meter : Meter f.Carrier) (meta : RequestMeta) (br : Result f.Carrier)
      → find_pricing meter.pricing meta.model ≡ none
      → preflight f glob ledger cal digest meter (some meta) br ≡ none
  unfolding preflight zero_usd calculate
  preflight_unpriced law meter meta br h =
      let zero = f.of_int (pos 0) in ground (arith, h, law.lt-le zero zero, law.le_of_lt zero zero)

  -- Whatever number of tokens a request to Azure or Gemini allows and however little of a budget is
  -- left, it is never refused for its worst case, where floats are ordered as IEEE 754 says.
  pub preflight-Nameless :
      (law : IsOrdered f) (json : Json) (prov : Provider) (body : Bytes) (meta : RequestMeta)
      (br : Result f.Carrier)
      → Nameless prov
      → parse_request json prov body ≡ some meta
      → preflight f glob ledger cal digest (new_meter f) (some meta) br ≡ none
  preflight-Nameless law json prov body meta br nameless h =
      preflight_unpriced law (new_meter f) meta br
        (Nameless-unpriced f json prov body meta nameless h)
