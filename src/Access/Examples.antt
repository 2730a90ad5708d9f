-- ===== src/Access/Examples.antt =====
-- Requests with keys, tenants and blocked patterns; a pattern matches only itself.
use agent_ledger.Base.{
  pos, ◌≢◌, true, false, String, str_eq, eq_iff, List, [], ◌∷◌, arith, if◌then◌else◌,
}
use agent_ledger.Access.Keys.{Headers}
use agent_ledger.Access.Tenant.{resolve_config, KeyMapping}
use agent_ledger.Access.Blocklist.{Blocklist}

abbrev only : String → String → Headers
only name value = record {
  header = λ h. elim (str_eq h name) [ true ↦ value | false ↦ "" ];
  query = λ q. "";
}

abbrev acme : List KeyMapping
acme = record { api_key_pattern = "k1"; tenant_id = "acme" } ∷ []

acme_named : resolve_config (λ p k. str_eq p k) acme (only "x-api-key" "k1") ≢ ""
unfolding resolve_config
acme_named e = ground (arith, eq_iff "acme" "")

abbrev banned : Blocklist
banned = record { patterns = "k1" ∷ []; last_load = pos 0; ttl = pos 10000000000 }

abbrev named_twice : Headers
named_twice = record {
  header = λ h. if str_eq h "X-Agent-Id" then "a1" else "";
  query = λ q. if str_eq q "_agent_id" then "a2" else "";
}
