-- ===== src/Mcp/Interceptor/Costs.antt =====
-- Which prices a message uses.
use agent_ledger.Base.{
  true, false, ◌≡◌, refl, sym, subst, ◌⊎◌, String, Option, List, [], ◌∷◌, arith, All, Option-cases,
  inl, inr,
}
use agent_ledger.Base.GoMap
use agent_ledger.Base.Clock.{Time}
use agent_ledger.Ledger.Usage.{UsageRecord}
use agent_ledger.Mcp.Pricing.{cost_for_call}
use agent_ledger.Mcp.Interceptor.{
  Json, Message, Request, Response, request, response, malformed, parse_message, AgentContext,
  Interceptor, handle_message, handle_client_request, handle_server_response, tool_record,
}

Message-cases :
    (m : Message)
    → (m ≡ malformed)
      ⊎ (((req : Request) × (m ≡ request req)) ⊎ ((resp : Response) × (m ≡ response resp)))
Message-cases malformed = inl refl
Message-cases (request req) = inr (inl (req, refl))
Message-cases (response resp) = inr (inr (resp, refl))

module _ {A : Type 0} (zero : A) (json : Json) (ctx : Option AgentContext) where
  handle_client_request-server :
      (i : Interceptor A) (req : Request) (now : Time)
      → ((handle_client_request json i req now).server_name ≡ i.server_name)
        × ((handle_client_request json i req now).pricer ≡ i.pricer)
  unfolding handle_client_request
  handle_client_request-server i req now = (ground arith, ground arith)

  -- A message of the client changes neither the server's name nor its prices.
  pub handle_message-server :
      (i : Interceptor A) (text ulid : String) (now : Time)
      → let after = (handle_message zero json i text true ctx ulid now).0 in
        (after.server_name ≡ i.server_name) × (after.pricer ≡ i.pricer)
  unfolding handle_message
  handle_message-server i text ulid now = elim (Message-cases (parse_message json text)) [
    | inl e ↦ (ground (arith, e), ground (arith, e))
    | inr (inl (req, e)) ↦
        let (named, priced) = handle_client_request-server i req now in
        (ground (arith, e, named), ground (arith, e, priced))
    | inr (inr (resp, e)) ↦ (ground (arith, e), ground (arith, e))
  ]

  -- A record whose cost is that of some tool of a server.
  abbrev pub PricedBy : Interceptor A → UsageRecord A → Type 0
  PricedBy i u = (tool : String) × (u.cost_usd ≡ cost_for_call zero i.pricer i.server_name tool)

  nothing_PricedBy : (i : Interceptor A) (us : List (UsageRecord A)) → us ≡ [] → All (PricedBy i) us
  nothing_PricedBy i us e = subst (All (PricedBy i)) (sym e) tt

  handle_server_response-PricedBy :
      (i : Interceptor A) (resp : Response) (ulid : String) (now : Time)
      → All (PricedBy i) (handle_server_response zero json i resp ctx ulid now).1
  unfolding handle_server_response tool_record
  handle_server_response-PricedBy i resp ulid now = elim (Option-cases resp.id) [
    | inl e ↦
        nothing_PricedBy i (handle_server_response zero json i resp ctx ulid now).1
          (ground (arith, e))
    | inr (id, e) ↦ elim (Option-cases (GoMap.get i.inflight id)) [
      | inl g ↦
          nothing_PricedBy i (handle_server_response zero json i resp ctx ulid now).1
            (ground (arith, e, g))
      | inr (pending, g) ↦
          let one : (handle_server_response zero json i resp ctx ulid now).1
              ≡ tool_record zero i pending resp ctx ulid now ∷ [] =
            ground (arith, e, g) in
          subst (All (PricedBy i)) (sym one) ((pending.tool_name, refl), tt)
    ]
  ]

  -- The records of a server's message have the prices of the server's name of before.
  pub handle_message-PricedBy :
      (i : Interceptor A) (text ulid : String) (now : Time)
      → All (PricedBy i) (handle_message zero json i text false ctx ulid now).1
  unfolding handle_message
  handle_message-PricedBy i text ulid now = elim (Message-cases (parse_message json text)) [
    | inl e ↦
        nothing_PricedBy i (handle_message zero json i text false ctx ulid now).1
          (ground (arith, e))
    | inr (inl (req, e)) ↦
        nothing_PricedBy i (handle_message zero json i text false ctx ulid now).1
          (ground (arith, e))
    | inr (inr (resp, e)) ↦
        let same : (handle_message zero json i text false ctx ulid now).1
            ≡ (handle_server_response zero json i resp ctx ulid now).1 =
          ground (arith, e) in
        subst (All (PricedBy i)) (sym same) (handle_server_response-PricedBy i resp ulid now)
  ]
