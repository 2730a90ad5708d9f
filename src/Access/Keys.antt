-- ===== src/Access/Keys.antt =====
-- internal/provider/provider.go: the API key and the agent's identity, from the headers. A request
-- is its header lookup (http.Header.Get, "" for an absent header; names stand in one spelling) and its query lookup.
use Prim.Native.String.{len, slice}
use text.Mathlib.Text.{starts_with}
use agent_ledger.Base.{
  String, str_eq, str_append, if◌then◌else◌, leb, ◌-◌, not, List, [], ◌∷◌, ◌≡◌, refl,
}

pub record Headers : Type 0 where
  pub header : String → String
  pub query : String → String

-- strings.TrimPrefix(auth, "Bearer ") and auth[7:], for a text that begins so.
abbrev pub after_bearer : String → String
after_bearer auth = slice auth 7 (len auth - 7)

-- The headers that stand for a key, in their order.
unfoldable pub first_key : Headers → String
first_key r =
    if not (str_eq (r.header "x-api-key") "")
    then r.header "x-api-key"
    else if not (str_eq (r.header "X-Goog-Api-Key") "")
    then r.header "X-Goog-Api-Key"
    else r.header "api-key"

-- ExtractAPIKey
unfoldable pub extract_api_key : Headers → String
unfolding first_key
extract_api_key r =
    if starts_with (r.header "Authorization") "Bearer "
    then after_bearer (r.header "Authorization")
    else first_key r

-- What HashAPIKey hashes: eight bytes from the front and four from the end of a long key.
fingerprint : String → String
fingerprint key =
    if leb 12 (len key) then str_append (slice key 0 8) (slice key (len key - 4) 4) else key

-- HashAPIKey; `digest` is the hexadecimal start of SHA-256.
unfoldable pub hash_api_key : (String → String) → String → String
unfolding fingerprint
hash_api_key digest key = if str_eq key "" then "" else digest (fingerprint key)

-- What ExtractAgentHeaders returns.
pub record AgentIdentity : Type 0 where
  pub agent_id : String
  pub session_id : String
  pub user_id : String
  pub task : String

abbrev pub or_query : String → String → String
or_query header query = if str_eq header "" then query else header

unfoldable pub extract_agent_headers : Headers → AgentIdentity
extract_agent_headers r = record {
  agent_id = or_query (r.header "X-Agent-Id") (r.query "_agent_id");
  session_id = or_query (r.header "X-Agent-Session") (r.query "_agent_session");
  user_id = or_query (r.header "X-Agent-User") (r.query "_agent_user");
  task = or_query (r.header "X-Agent-Task") (r.query "_agent_task");
}

abbrev pub agent_headers : List String
agent_headers =
    "X-Agent-Id" ∷ "X-Agent-Session" ∷ "X-Agent-User" ∷ "X-Agent-Task" ∷ "X-Agent-Session-End" ∷ []

unfoldable pub delete_headers : List String → Headers → Headers
delete_headers [] r = r
delete_headers (name ∷ names) r =
    delete_headers names (record r { header = λ h. if str_eq h name then "" else r.header h })

-- StripAgentHeaders
unfoldable pub strip_agent_headers : Headers → Headers
unfolding delete_headers
strip_agent_headers r = delete_headers agent_headers r

-- Of a request whose agent headers have been stripped, the identity that its query gives can still
-- be read, and no other.
pub extract_agent_headers-strip :
    (r : Headers)
    → extract_agent_headers (strip_agent_headers r) ≡ record {
      agent_id = r.query "_agent_id";
      session_id = r.query "_agent_session";
      user_id = r.query "_agent_user";
      task = r.query "_agent_task";
    }
unfolding strip_agent_headers extract_agent_headers
extract_agent_headers-strip r = refl
