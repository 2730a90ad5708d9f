-- ===== src/Admin/Types.antt =====
-- internal/admin/handlers.go: the state, the requests and the routes of the admin API. A reply is
-- its status and body.
use agent_ledger.Base.{
  ℕ, ℤ, Bool, true, false, ◌&&◌, ◌||◌, ◌⊎◌, String, str_eq, Option, none, some, List, [], ◌∷◌,
  if◌then◌else◌,
}
use agent_ledger.Base.GoMap.{GoMap}
use agent_ledger.Base.Clock.{Time}
use agent_ledger.Access.Keys.{Headers}
use agent_ledger.Access.Blocklist.{Blocklist}
use agent_ledger.Budget.Rules.{Rule}
use agent_ledger.Budget.Manager.{Manager}
use agent_ledger.Admin.Store.{Rows, Codec}

-- Handler: the rows of its store, and the parts it changes; `none` is nil.
pub record Handler (A : Type 0) : Type 0 where
  pub rows : Rows
  pub budget_mgr : Option (Manager A)
  pub token : String
  pub blocklist : Option Blocklist

pub record ApiKeyEntry (A : Type 0) : Type 0 where
  pub api_key_hash : String
  pub requests : ℤ
  pub total_cost_usd : A

pub record BudgetStatus (A : Type 0) : Type 0 where
  pub pattern : String
  pub daily_spent : A
  pub daily_limit : A
  pub monthly_spent : A
  pub monthly_limit : A
  pub action : String

-- Package encoding/json for the types of the API; `inl` is the message of an error.
pub record Formats (A : Type 0) : Type 0 where
  pub rules : Codec (Rule A)
  pub patterns : Codec String
  pub providers : Codec (String × Bool)
  pub rule_body : String → String ⊎ Rule A
  pub pattern_body : String → String ⊎ String

pub record Request : Type 0 where
  pub method : String
  pub path : String
  pub headers : Headers
  pub body : String

-- What a call meets: the failures of its reads and writes, and the clock.
pub record Moment : Type 0 where
  pub read_fails : Bool
  pub write_fails : Bool
  pub refresh_fails : Bool
  pub now : Time
  pub reloaded_at : Time

-- A reply: writeAdminError with its status, writeAdminJSON with status 200 or 201, or status 204.
pub data Reply (A : Type 0) : Type 0 where
  refused : ℕ → String → Reply A
  rules : List (Rule A) → Reply A
  rule_created : Rule A → Reply A
  pattern_created : String → Reply A
  patterns : List String → Reply A
  api_keys : List (ApiKeyEntry A) → Reply A
  providers : GoMap Bool → Reply A
  statuses : List (BudgetStatus A) → Reply A
  no_content : Reply A

pub data Endpoint : Type 0 where
  list_rules create_rule delete_rule : Endpoint
  list_api_keys list_blocked block_key unblock_key : Endpoint
  list_providers budget_status : Endpoint

-- RegisterRoutes
abbrev pub routes : List (String × String × Endpoint)
routes =
    ("GET", "/api/admin/budgets/rules", list_rules)
    ∷ ("POST", "/api/admin/budgets/rules", create_rule)
    ∷ ("DELETE", "/api/admin/budgets/rules", delete_rule)
    ∷ ("GET", "/api/admin/api-keys", list_api_keys)
    ∷ ("GET", "/api/admin/api-keys/blocked", list_blocked)
    ∷ ("POST", "/api/admin/api-keys/block", block_key)
    ∷ ("DELETE", "/api/admin/api-keys/block", unblock_key)
    ∷ ("GET", "/api/admin/providers", list_providers)
    ∷ ("GET", "/api/admin/budgets/status", budget_status)
    ∷ []

-- http.ServeMux: a route of the method GET takes HEAD as well.
abbrev pub takes : String → String → Bool
takes method asked = str_eq method asked || (str_eq method "GET" && str_eq asked "HEAD")

unfoldable pub endpoint_of : List (String × String × Endpoint) → Request → Option Endpoint
endpoint_of [] r = none
endpoint_of ((method, path, e) ∷ rest) r =
    if takes method r.method && str_eq path r.path then some e else endpoint_of rest r

-- The loops that drop a pattern: what is left, and whether it was found.
unfoldable pub without : {A : Type 0} → (A → String) → String → List A → List A × Bool
without name pattern [] = ([], false)
without name pattern (x ∷ xs) =
    let (kept, found) = without name pattern xs in
    if str_eq (name x) pattern then (kept, true) else (x ∷ kept, found)

abbrev pub rules_key : String
rules_key = "budget_rules"

abbrev pub blocked_key : String
blocked_key = "blocked_keys"
