-- ===== src/Admin/Api/Auth.antt =====
-- Who may use the admin API.
use agent_ledger.Base.{
  ℕ, All, sym, subst, Bool, true, false, not, ◌&&◌, ◌≡◌, ◌≢◌, refl, ◌⊎◌, inl, inr, String, str_eq,
  eq_iff, str_append, none, some, List, [], ◌∷◌, arith, Bool-cases, Option-cases,
}
use agent_ledger.Base.Float64.{Float64}
use agent_ledger.Budget.Spend.{Calendar}
use agent_ledger.Ledger.Usage.{CostEntry, CostFilter}
use agent_ledger.Admin.Types.{
  Handler, Formats, Request, Moment, refused, Endpoint, list_rules, create_rule, delete_rule,
  list_api_keys, list_blocked, block_key, unblock_key, list_providers, budget_status, routes, takes,
  endpoint_of,
}
use agent_ledger.Admin.Api.{handle, require_auth, serve}

module _ (f : Float64) (formats : Formats f.Carrier) (cal : Calendar)
    (query_costs : CostFilter → List (CostEntry f.Carrier) × Bool) where
  -- A request that carries the configured token.
  abbrev pub Authorised : Handler f.Carrier → Request → Type 0
  Authorised h r =
      (h.token ≢ "") × (r.headers.header "Authorization" ≡ str_append "Bearer " h.token)

  -- The calls that may change something.
  abbrev pub changes : Endpoint → Bool
  changes create_rule = true
  changes delete_rule = true
  changes block_key = true
  changes unblock_key = true
  changes _ = false

  -- How a request to the API ends.
  pub data Outcome (h : Handler f.Carrier) (r : Request) (t : Moment) : Type 0 where
    unrouted : serve f formats cal query_costs h r t ≡ (h, none) → Outcome h r t
    rejected :
        (status : ℕ) (message : String)
        → (status ≡ 401) ⊎ (status ≡ 403)
        → serve f formats cal query_costs h r t ≡ (h, some (refused status message))
        → Outcome h r t
    read_only : Authorised h r → (serve f formats cal query_costs h r t).0 ≡ h → Outcome h r t
    may_write :
        Authorised h r
        → r.headers.header "X-Requested-With" ≡ "XMLHttpRequest"
        → r.method ≢ "GET"
        → Outcome h r t

  handle-read_only :
      (e : Endpoint) (h : Handler f.Carrier) (r : Request) (t : Moment)
      → changes e ≡ false
      → (handle f formats cal query_costs e h r t).0 ≡ h
  unfolding handle
  handle-read_only list_rules h r t c = refl
  handle-read_only create_rule h r t c = cc
  handle-read_only delete_rule h r t c = cc
  handle-read_only list_api_keys h r t c = refl
  handle-read_only list_blocked h r t c = refl
  handle-read_only block_key h r t c = cc
  handle-read_only unblock_key h r t c = cc
  handle-read_only list_providers h r t c = refl
  handle-read_only budget_status h r t c = refl

  endpoint_of-method :
      (rows : List (String × String × Endpoint)) (r : Request) (e : Endpoint)
      → All {A = String × String × Endpoint} (λ x. changes x.2 ≡ true → x.0 ≢ "GET") rows
      → endpoint_of rows r ≡ some e
      → changes e ≡ true
      → r.method ≢ "GET"
  unfolding endpoint_of
  endpoint_of-method [] r e a h c = absurd (ground (arith, h))
  endpoint_of-method ((method, path, e') ∷ rows) r e a h c =
      elim (Bool-cases (takes method r.method && str_eq path r.path)) [
        | inl b ↦
            let same : e' ≡ e = ground (arith, b, h) in
            let not_get = a.0 (subst (λ x. changes x ≡ true) (sym same) c) in
            λ get. not_get (ground (arith, b, eq_iff method "GET", eq_iff method r.method))
        | inr b ↦ endpoint_of-method rows r e a.1 (ground (arith, b, h)) c
      ]

  named : (method : String) → str_eq method "GET" ≡ false → method ≢ "GET"
  named method b = λ get. ground (arith, b, eq_iff method "GET")

  -- No route of the method GET changes anything.
  writing_routes :
      All {A = String × String × Endpoint} (λ x. changes x.2 ≡ true → x.0 ≢ "GET") routes
  writing_routes = (
    λ c. cc,
    (
      λ c. named "POST" refl,
      (
        λ c. named "DELETE" refl,
        (
          λ c. cc,
          (λ c. cc, (λ c. named "POST" refl, (λ c. named "DELETE" refl, (λ c. cc, (λ c. cc, tt))))),
        ),
      ),
    ),
  )

  require_auth-Outcome :
      (e : Endpoint) (h : Handler f.Carrier) (r : Request) (t : Moment)
      → endpoint_of routes r ≡ some e
      → Outcome h r t
  unfolding require_auth serve
  require_auth-Outcome e h r t g = elim (Bool-cases (str_eq h.token "")) [
    | inl a ↦ rejected 403 "admin API not configured" (inr refl) (ground (arith, g, a))
    | inr a ↦
        elim (Bool-cases
          (str_eq (r.headers.header "Authorization") (str_append "Bearer " h.token))) [
            | inr b ↦ rejected 401 "invalid admin token" (inl refl) (ground (arith, g, a, b))
            | inl b ↦
                let granted : Authorised h r = (
                  λ empty. ground (arith, a, eq_iff h.token ""),
                  (eq_iff (r.headers.header "Authorization") (str_append "Bearer " h.token)).0 b,
                ) in
                elim (Bool-cases (
                  not (str_eq r.method "GET")
                  && not (str_eq (r.headers.header "X-Requested-With") "XMLHttpRequest"))) [
                    | inl c ↦
                        rejected 403 "missing required header" (inr refl)
                          (ground (arith, g, a, b, c))
                    | inr c ↦ elim (Bool-cases (changes e)) [
                      | inr d ↦
                          read_only granted (ground (arith, g, a, b, c, handle-read_only e h r t d))
                      | inl d ↦
                          let not_get = endpoint_of-method routes r e writing_routes g d in
                          may_write granted
                            (ground (
                              arith,
                              c,
                              not_get,
                              eq_iff r.method "GET",
                              eq_iff (r.headers.header "X-Requested-With") "XMLHttpRequest",
                            ))
                            not_get
                    ]
                  ]
          ]
  ]

  -- A request to the admin API that has no route gets the mux's reply, one without the configured
  -- token or a needed header is refused with 401 or 403, and neither changes anything. A request
  -- that may change something carries the token and the header X-Requested-With, and is no GET.
  pub serve-Outcome : (h : Handler f.Carrier) (r : Request) (t : Moment) → Outcome h r t
  unfolding serve
  serve-Outcome h r t = elim (Option-cases (endpoint_of routes r)) [
    | inl g ↦ unrouted (ground (arith, g))
    | inr (e, g) ↦ require_auth-Outcome e h r t g
  ]
