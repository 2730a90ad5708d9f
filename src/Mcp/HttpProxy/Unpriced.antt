-- ===== src/Mcp/HttpProxy/Unpriced.antt =====
-- What calls over HTTP cost.
use agent_ledger.Base.{
  ℤ, ◌||◌, false, not, ◌≡◌, ◌≢◌, sym, subst, ◌∙◌, String, str_eq, Option, none, some, List, [], ◌∷◌,
  arith, All, Bool-cases, inl, inr,
}
use agent_ledger.Base.Text.{contains}
use agent_ledger.Base.Clock.{Time}
use agent_ledger.Ledger.Usage.{UsageRecord}
use agent_ledger.Mcp.Pricing.{cost_for_call-unpriced}
use agent_ledger.Mcp.Interceptor.{Json, AgentContext, Interceptor, new_interceptor, handle_message}
use agent_ledger.Mcp.Interceptor.Costs.{PricedBy, handle_message-server, handle_message-PricedBy}
use agent_ledger.Mcp.HttpProxy.{
  HttpProxy, Post, Upstream, whole, context_of, intercepted, respond, serve_post,
}

module _ {A : Type 0} (zero : A) (json : Json) where
  -- No rule of the price list is for the name that a fresh interceptor has.
  abbrev pub NoUnknown : HttpProxy A → Type 0
  NoUnknown p = All (λ r. r.server ≢ "unknown") p.pricer

  abbrev pub Free : List (UsageRecord A) → Type 0
  Free us = All (λ u. u.cost_usd ≡ zero) us

  PricedBy-Free :
      (ctx : Option AgentContext) (i : Interceptor A) (us : List (UsageRecord A))
      → All (λ r. r.server ≢ i.server_name) i.pricer
      → All (PricedBy zero json ctx i) us
      → Free us
  PricedBy-Free ctx i [] a h = tt
  PricedBy-Free ctx i (u ∷ us) a h = (
    h.0.1 ∙ cost_for_call-unpriced zero i.pricer i.server_name h.0.0 a,
    PricedBy-Free ctx i us a h.1,
  )

  -- The interceptor of a request still has the name and the prices it was made with.
  intercepted-server :
      (p : HttpProxy A) (r : Post) (ulid : String) (now : Time)
      → ((intercepted zero json p r ulid now).server_name ≡ "unknown")
        × ((intercepted zero json p r ulid now).pricer ≡ p.pricer)
  unfolding intercepted new_interceptor
  intercepted-server p r ulid now =
      handle_message-server zero json (some (context_of zero json r))
        (new_interceptor "unknown" p.pricer (context_of zero json r)) r.body ulid now

  intercepted-NoUnknown :
      (p : HttpProxy A) (r : Post) (ulid : String) (now : Time)
      → NoUnknown p
      → let i = intercepted zero json p r ulid now in All (λ x. x.server ≢ i.server_name) i.pricer
  intercepted-NoUnknown p r ulid now a =
      let (named, priced) = intercepted-server p r ulid now in
      subst (λ n. All (λ x. x.server ≢ n) (intercepted zero json p r ulid now).pricer) (sym named)
        (subst (All (λ x. x.server ≢ "unknown")) (sym priced) a)

  respond-Free :
      (i : Interceptor A) (ctx : Option AgentContext) (status : ℤ) (text : Option String)
      (ulid : String) (now : Time)
      → All (λ r. r.server ≢ i.server_name) i.pricer
      → Free (respond zero json i ctx (whole status text) ulid now).1
  unfolding respond
  respond-Free i ctx status none ulid now a = tt
  respond-Free i ctx status (some text) ulid now a =
      PricedBy-Free ctx i (handle_message zero json i text false ctx ulid now).1 a
        (handle_message-PricedBy zero json ctx i text ulid now)

  -- Whatever the price list says of the tools of named servers, no call over HTTP that is answered
  -- by one JSON body costs anything, where no rule is for a server called "unknown".
  pub serve_post-Free :
      (p : HttpProxy A) (r : Post) (clean : String → String) (answers : String → String → Upstream)
      (ulid : String) (asked answered : Time) (status : ℤ) (text : Option String)
      → NoUnknown p
      → answers (clean r.path) r.body ≡ whole status text
      → Free (serve_post zero json p r clean answers ulid asked answered).1
  unfolding serve_post
  serve_post-Free p r clean answers ulid asked answered status text a e =
      elim (Bool-cases (not (str_eq r.method "POST") || (contains r.path ".." || r.body_fails))) [
        | inl b ↦
            let nothing : (serve_post zero json p r clean answers ulid asked answered).1 ≡ [] =
              ground (arith, b) in
            subst Free (sym nothing) tt
        | inr b ↦
            let i = intercepted zero json p r ulid asked in
            let ctx = some (context_of zero json r) in
            let same : (serve_post zero json p r clean answers ulid asked answered).1
                ≡ (respond zero json i ctx (whole status text) ulid answered).1 =
              ground (arith, b, e) in
            subst Free (sym same) (
              respond-Free i ctx status text ulid answered (intercepted-NoUnknown p r ulid asked a))
      ]
