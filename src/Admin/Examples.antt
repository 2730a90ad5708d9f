-- ===== src/Admin/Examples.antt =====
-- A store whose JSON can write a list of at most one pattern, and of at most the rule of five
-- dollars a day for the key "k1".
use agent_ledger.Base.{
  ℕ, ℤ, pos, negsuc, ◌==◌, ==_iff, ◌≡◌, ◌≢◌, refl, subst, Bool, true, false, ◌&&◌, inl, inr, String,
  str_eq, eq_iff, str_append, Option, none, some, List, [], ◌∷◌, if◌then◌else◌, arith, Bool-cases,
}
use agent_ledger.Base.Text.{strip, strip-append}
use agent_ledger.Base.FixedPoint.{thousandths}
use agent_ledger.Base.GoMap
use agent_ledger.Access.Keys.{extract_api_key}
use agent_ledger.Access.Blocklist.{Blocklist, new_blocklist}
use agent_ledger.Budget.Rules.{Rule}
use agent_ledger.Budget.Spend.{Ledger, Calendar}
use agent_ledger.Budget.Manager.{Manager, update_rules}
use agent_ledger.Meter.Cost.{new_meter}
use agent_ledger.Proxy.Handler.{
  Proxy, Request as ProxyRequest, Instants, parsed, key_blocked, serve_http,
}
use agent_ledger.Ledger.Usage.{CostEntry, CostFilter}
use agent_ledger.Admin.Store.{Codec, RoundTrips, get, get_json, stored}
use agent_ledger.Admin.Types.{
  Handler, Formats, Request, Moment, rule_created, pattern_created, no_content, without, rules_key,
  blocked_key,
}
use agent_ledger.Admin.Api.{
  serve, handle_create_rule, handle_block_key, handle_unblock_key, read_patterns, reload_patterns,
}
use agent_ledger.Admin.Api.Auth.{Outcome, serve-Outcome}
use agent_ledger.Admin.Api.Rules.{Synced, serve-Synced, create_rule_lost}
use agent_ledger.Admin.Api.Blocking.{block_key-serve_http, unblock_key-block}

abbrev write_patterns : List String → Option String
write_patterns [] = some "null"
write_patterns (p ∷ []) = some (str_append "p" p)
write_patterns (p ∷ q ∷ ps) = none

abbrev pattern_json : Codec String
pattern_json = record {
  encode = write_patterns;
  decode = λ text. elim (strip "p" text) [ none ↦ ([], false) | some p ↦ (p ∷ [], false) ];
}

pattern_round_trip :
    (v : List String) (text : String)
    → write_patterns v ≡ some text
    → pattern_json.decode text ≡ (v, false)
unfolding strip
pattern_round_trip [] text e =
    let same : "null" ≡ text = ground (arith, e) in
    subst (λ t. pattern_json.decode t ≡ ([], false)) same refl
pattern_round_trip (p ∷ []) text e =
    let same : str_append "p" p ≡ text = ground (arith, e) in
    subst (λ t. pattern_json.decode t ≡ (p ∷ [], false)) same (ground (arith, strip-append "p" p))
pattern_round_trip (p ∷ q ∷ ps) text e = cc

empty_strip : strip "p" "" ≡ none
unfolding strip
empty_strip = refl

pattern_not_empty : (v : List String) (text : String) → write_patterns v ≡ some text → text ≢ ""
pattern_not_empty [] text e = λ q. ground (arith, e, q, eq_iff "null" "")
pattern_not_empty (p ∷ []) text e =
    let same : str_append "p" p ≡ text = ground (arith, e) in
    λ q. ground (arith, same, q, strip-append "p" p, empty_strip)
pattern_not_empty (p ∷ q ∷ ps) text e = cc

abbrev five_dollars : Rule ℤ
five_dollars = record {
  api_key_pattern = "k1";
  tenant_id = "";
  daily_limit_usd = pos 5000;
  monthly_limit_usd = pos 0;
  soft_limit_pct = pos 0;
  action = "block";
}

abbrev is_pos : ℕ → ℤ → Bool
is_pos n (pos m) = m == n
is_pos n (negsuc m) = false

is_pos_lem : (n : ℕ) (z : ℤ) → is_pos n z ≡ true → z ≡ pos n
is_pos_lem n (pos m) h = ground (arith, h, ==_iff m n)
is_pos_lem n (negsuc m) h = cc

abbrev is_five : Rule ℤ → Bool
is_five r =
    str_eq r.api_key_pattern "k1"
    && (str_eq r.tenant_id ""
        && (is_pos 5000 r.daily_limit_usd
            && (is_pos 0 r.monthly_limit_usd
                && (is_pos 0 r.soft_limit_pct && str_eq r.action "block"))))

is_five_lem : (r : Rule ℤ) → is_five r ≡ true → r ≡ five_dollars
is_five_lem r h = ground (
  arith,
  h,
  eq_iff r.api_key_pattern "k1",
  eq_iff r.tenant_id "",
  eq_iff r.action "block",
  is_pos_lem 5000 r.daily_limit_usd,
  is_pos_lem 0 r.monthly_limit_usd,
  is_pos_lem 0 r.soft_limit_pct,
)

abbrev write_rules : List (Rule ℤ) → Option String
write_rules [] = some "null"
write_rules (r ∷ []) = if is_five r then some "r" else none
write_rules (r ∷ q ∷ rs) = none

abbrev rule_json : Codec (Rule ℤ)
rule_json = record {
  encode = write_rules;
  decode = λ text. if str_eq text "r" then (five_dollars ∷ [], false) else ([], false);
}

rule_round_trip :
    (v : List (Rule ℤ)) (text : String)
    → write_rules v ≡ some text
    → rule_json.decode text ≡ (v, false)
rule_round_trip [] text e =
    let same : "null" ≡ text = ground (arith, e) in
    subst (λ t. rule_json.decode t ≡ ([], false)) same refl
rule_round_trip (r ∷ []) text e = elim (Bool-cases (is_five r)) [
  | inl b ↦
      let same : "r" ≡ text = ground (arith, b, e) in
      subst (λ t. rule_json.decode t ≡ (r ∷ [], false)) same (ground (arith, is_five_lem r b))
  | inr b ↦ absurd (ground (arith, b, e))
]
rule_round_trip (r ∷ q ∷ rs) text e = cc

rule_not_empty : (v : List (Rule ℤ)) (text : String) → write_rules v ≡ some text → text ≢ ""
rule_not_empty [] text e = λ q. ground (arith, e, q, eq_iff "null" "")
rule_not_empty (r ∷ []) text e = λ q. ground (arith, e, q, eq_iff "r" "")
rule_not_empty (r ∷ q ∷ rs) text e = cc

rule_RoundTrips : RoundTrips rule_json
rule_RoundTrips = record { decode-encode = rule_round_trip; not_empty = rule_not_empty }

pattern_RoundTrips : RoundTrips pattern_json
pattern_RoundTrips = record { decode-encode = pattern_round_trip; not_empty = pattern_not_empty }

-- A body is the pattern itself, or any text for the rule of five dollars.
abbrev formats : Formats ℤ
formats = record {
  rules = rule_json;
  patterns = pattern_json;
  providers = record { encode = λ v. none; decode = λ text. ([], true) };
  rule_body = λ body. inr five_dollars;
  pattern_body = λ body. inr body;
}

abbrev cal : Calendar
cal = record { day_start = λ t. t; month_start = λ t. t }

abbrev no_costs : CostFilter → List (CostEntry ℤ) × Bool
no_costs filter = ([], false)

abbrev manager : List (Rule ℤ) → Manager ℤ
manager rules = record {
  config = record { default_rule = five_dollars; rules = rules };
  cache = [];
  cache_ttl = pos 30000000000;
  has_on_warn = false;
  has_on_block = false;
}

abbrev handler : List (Rule ℤ) → Handler ℤ
handler rules = record {
  rows = [];
  budget_mgr = some (manager rules);
  token = "t";
  blocklist = some new_blocklist;
}

-- A request of the admin to block the key "k1", or with the query to unblock it.
abbrev asks : String → String → Request
asks method path = record {
  method = method;
  path = path;
  headers = record {
    header = λ h.
        if str_eq h "Authorization"
        then "Bearer t"
        else if str_eq h "X-Requested-With"
        then "XMLHttpRequest"
        else "";
    query = λ q. "k1";
  };
  body = "k1";
}

abbrev at : Bool → Moment
at read_fails = record {
  read_fails = read_fails;
  write_fails = false;
  refresh_fails = false;
  now = pos 5;
  reloaded_at = pos 6;
}

serve-Outcome_example :
    Outcome thousandths formats cal no_costs
      (handler [])
      (asks "POST" "/api/admin/api-keys/block")
      (at false)
serve-Outcome_example =
    serve-Outcome thousandths formats cal no_costs (handler [])
      (asks "POST" "/api/admin/api-keys/block") (at false)

serve-Synced_example :
    Synced thousandths formats cal no_costs
      (serve thousandths formats cal no_costs
        (handler [])
        (asks "POST" "/api/admin/budgets/rules")
        (at false)).0
unfolding get_json get GoMap.get
serve-Synced_example =
    serve-Synced thousandths formats cal no_costs (handler [])
      (asks "POST" "/api/admin/budgets/rules") (at false) rule_RoundTrips refl

create_rule_lost_example :
    let (h', reply) =
      handle_create_rule thousandths formats cal no_costs
        (handler (five_dollars ∷ five_dollars ∷ []))
        (asks "POST" "/api/admin/budgets/rules")
        (at true) in
    (reply ≡ rule_created five_dollars)
    × (stored rule_json h'.rows rules_key ≡ five_dollars ∷ [])
    × (h'.budget_mgr
        ≡ some (update_rules (manager (five_dollars ∷ five_dollars ∷ [])) (five_dollars ∷ [])))
create_rule_lost_example =
    create_rule_lost thousandths formats cal no_costs (handler (five_dollars ∷ five_dollars ∷ []))
      (asks "POST" "/api/admin/budgets/rules") (at true) five_dollars
      (manager (five_dollars ∷ five_dollars ∷ [])) "r" rule_RoundTrips refl (inl refl) refl refl
      refl

-- A proxy with nothing but a blocklist.
abbrev proxy : Option Blocklist → Proxy ℤ
proxy b = record {
  blocklist = b;
  tracker = none;
  limiter = none;
  tenant_resolver = none;
  budget = none;
  meter = new_meter thousandths;
}

abbrev call : ProxyRequest
call = record {
  path = "/v1/models";
  headers = record { header = λ h. if str_eq h "x-api-key" then "k1" else ""; query = λ q. "" };
  detected = true;
  body = parsed none;
}

abbrev blocked_handler : Handler ℤ
blocked_handler =
    (handle_block_key thousandths formats cal no_costs (handler [])
      (asks "POST" "/api/admin/api-keys/block") (at false)).0

abbrev later : Instants
later = record {
  patterns = some (stored pattern_json blocked_handler.rows blocked_key);
  blocked_at = pos 7;
  reloaded_at = pos 7;
  call = record { started = pos 7; called = pos 7; trimmed = pos 7; checked = pos 7 };
  ended_at = pos 7;
  limited_at = pos 7;
  key_reads = record { looked_up = pos 7; queried = pos 7; stored = pos 7 };
  tenant_reads = record { looked_up = pos 7; queried = pos 7; stored = pos 7 };
}

abbrev no_spend : Ledger ℤ
no_spend = record {
  get_total_spend = λ k t u. (pos 0, false);
  get_total_spend_by_tenant = λ k t u. (pos 0, false);
}

block_key-serve_http_example :
    ((handle_block_key thousandths formats cal no_costs
        (handler [])
        (asks "POST" "/api/admin/api-keys/block")
        (at false)).1
      ≡ pattern_created "k1")
    × ((serve_http thousandths
          (λ p k. str_eq p k)
          no_spend
          cal
          (λ k. k)
          (proxy blocked_handler.blocklist)
          call
          later).answer
        ≡ key_blocked)
unfolding read_patterns get_json get GoMap.get extract_api_key
block_key-serve_http_example =
    block_key-serve_http thousandths formats cal no_costs (λ p k. str_eq p k) no_spend (λ k. k)
      (handler []) (asks "POST" "/api/admin/api-keys/block") (at false) "k1" new_blocklist
      (proxy blocked_handler.blocklist) call later none pattern_RoundTrips refl
      (λ e. ground (arith, eq_iff "k1" ""))
      (record { text = "pk1"; encoded = refl; write_works = refl; refresh_works = refl }) refl refl
      refl (λ e. ground (arith, eq_iff "/v1/models" "/health")) refl refl refl

unblock_key-block_example :
    let (h', reply) =
      handle_unblock_key thousandths formats cal no_costs blocked_handler
        (asks "DELETE" "/api/admin/api-keys/block")
        (at false) in
    (reply ≡ no_content)
    × (stored pattern_json h'.rows blocked_key ≡ stored pattern_json (handler []).rows blocked_key)
    × (h'.blocklist
        ≡ reload_patterns blocked_handler.blocklist
            (some (stored pattern_json (handler []).rows blocked_key))
            (pos 6))
unfolding get_json get GoMap.get without
unblock_key-block_example =
    unblock_key-block thousandths formats cal no_costs (handler [])
      (asks "POST" "/api/admin/api-keys/block") (asks "DELETE" "/api/admin/api-keys/block")
      (at false) (at false) "k1" pattern_RoundTrips refl refl (λ e. ground (arith, eq_iff "k1" ""))
      refl refl refl
      (record { text = "pk1"; encoded = refl; write_works = refl; refresh_works = refl })
      (record { text = "null"; encoded = refl; write_works = refl; refresh_works = refl })
