-- ===== src/Mcp/Interceptor/Pairing.antt =====
-- A tool call is recorded once, at its first answer.
use agent_ledger.Base.{
  pos, true, false, ◌≡◌, refl, String, eq_iff, str_append, Option, some, [], ◌∷◌, if◌then◌else◌,
  arith,
}
use agent_ledger.Base.GoMap
use agent_ledger.Base.Clock.{Time, sub, milliseconds}
use agent_ledger.Ledger.Usage.{UsageRecord}
use agent_ledger.Mcp.Pricing.{cost_for_call}
use agent_ledger.Mcp.Interceptor.{
  Json, Request, Response, request, response, parse_message, AgentContext, PendingCall, Interceptor,
  method_tools_call, handle_message, tool_record,
}

module _ {A : Type 0} (zero : A) (json : Json) (ctx : Option AgentContext) where
  -- A client's tools/call with an id, and any answer of the server with that id right after it,
  -- give one record, of the tool that was called, with the cost of that tool on this server, the
  -- time between the two, and status 500 exactly if the answer is an error. A second answer with
  -- the same id gives none.
  pub handle_message_pairs :
      (i : Interceptor A) (asked answered : String) (req : Request) (resp : Response)
      (id name : String) (u v w : String) (t₁ t₂ t₃ : Time)
      → parse_message json asked ≡ request req
      → req.method ≡ method_tools_call
      → req.id ≡ some id
      → json.tool_name req.params ≡ some name
      → parse_message json answered ≡ response resp
      → resp.id ≡ some id
      → let called = handle_message zero json i asked true ctx u t₁ in
        let done = handle_message zero json called.0 answered false ctx v t₂ in
        let again = handle_message zero json done.0 answered false ctx w t₃ in
        (called.1 ≡ [])
        × ((r : UsageRecord A) × (done.1 ≡ r ∷ [])
            × (r.model ≡ str_append i.server_name (str_append ":" name))
            × (r.cost_usd ≡ cost_for_call zero i.pricer i.server_name name)
            × (r.duration_ms ≡ milliseconds (sub t₂ t₁))
            × (r.status_code ≡ (if resp.has_error then pos 500 else pos 200)))
        × (again.1 ≡ [])
  unfolding handle_message
  handle_message_pairs i asked answered req resp id name u v w t₁ t₂ t₃ p m k n q l =
      let pending : PendingCall = record { tool_name = name; start_time = t₁ } in
      let called : Interceptor A = record i { inflight = GoMap.put i.inflight id pending } in
      let found = GoMap.get-put_self i.inflight id pending in
      let gone = GoMap.get-delete (GoMap.put i.inflight id pending) id id in
      (
        ground arith,
        (
          tool_record zero called pending resp ctx v t₂,
          ground (arith, found, eq_iff req.method method_tools_call),
          refl,
          refl,
          refl,
          refl,
        ),
        ground (arith, found, gone, eq_iff req.method method_tools_call, eq_iff id id),
      )
