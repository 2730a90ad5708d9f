-- ===== src/Access/Tenant.antt =====
-- internal/tenant/tenant.go: the tenant of a request.
use Prim.Native.String.{len, slice}
use agent_ledger.Base.{
  String, str_eq, eq_iff, Bool, not, ◌&&◌, ltb, List, [], ◌∷◌, ◌++◌, if◌then◌else◌, ◌≡◌, ◌≢◌, arith,
  All,
}
use agent_ledger.Access.Keys.{Headers, after_bearer, extract_api_key}

pub record KeyMapping : Type 0 where
  pub api_key_pattern : String
  pub tenant_id : String

-- HeaderResolver
unfoldable pub resolve_header : Headers → String
resolve_header r = r.header "X-AgentLedger-Tenant"

pub extract_raw_key : Headers → String
extract_raw_key r =
    let auth = r.header "Authorization" in
    if ltb 7 (len auth) && str_eq (slice auth 0 7) "Bearer "
    then after_bearer auth
    else if not (str_eq (r.header "x-api-key") "")
    then r.header "x-api-key"
    else if not (str_eq (r.header "X-Goog-Api-Key") "")
    then r.header "X-Goog-Api-Key"
    else ""

module _ (glob : String → String → Bool) where
  unfoldable pub first_mapping : List KeyMapping → String → String
  first_mapping [] key = ""
  first_mapping (m ∷ ms) key =
      if glob m.api_key_pattern key then m.tenant_id else first_mapping ms key

  -- ConfigResolver
  unfoldable pub resolve_config : List KeyMapping → Headers → String
  unfolding extract_raw_key first_mapping
  resolve_config mappings r =
      if str_eq (extract_raw_key r) "" then "" else first_mapping mappings (extract_raw_key r)

-- ChainResolver
pub resolve_chain : List (Headers → String) → Headers → String
resolve_chain [] r = ""
resolve_chain (f ∷ fs) r = if str_eq (f r) "" then resolve_chain fs r else f r

-- A chain gives what its first resolver that knows a tenant gives.
pub resolve_chain_first :
    (silent behind : List (Headers → String)) (f : Headers → String) (r : Headers)
    → All (λ g. g r ≡ "") silent
    → f r ≢ ""
    → resolve_chain (silent ++ f ∷ behind) r ≡ f r
unfolding resolve_chain
resolve_chain_first [] behind f r h n = ground (arith, eq_iff (f r) "")
resolve_chain_first (g ∷ gs) behind f r h n =
    ground (arith, eq_iff (g r) "", resolve_chain_first gs behind f r h.1 n)

-- A request whose key stands only in the header "api-key", as Azure's clients send it, has that key
-- for the proxy, but no mapping of keys gives it a tenant.
pub resolve_config_azure :
    (glob : String → String → Bool) (mappings : List KeyMapping) (r : Headers)
    → r.header "Authorization" ≡ ""
    → r.header "x-api-key" ≡ ""
    → r.header "X-Goog-Api-Key" ≡ ""
    → (extract_api_key r ≡ r.header "api-key") × (resolve_config glob mappings r ≡ "")
unfolding extract_api_key resolve_config
resolve_config_azure glob mappings r a x g = (rw (a, x, g), rw (a, x, g))
