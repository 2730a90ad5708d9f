-- ===== src/RateLimit.antt =====
-- internal/ratelimit/limiter.go: request limits per API key, by windows of a minute and an hour.
-- `glob` is the result of filepath.Match, false on a malformed pattern. A call holds the lock from
-- its first access of the counters to its end, so calls happen one after another; the ticker's
-- goroutine is the operation `evict_expired` between them.
pub mod Windows
pub mod Bounds
pub mod Runs
pub mod Burst
pub mod Eviction
mod Examples
use agent_ledger.Base.{
  ℤ, pos, ◌+ℤ◌, Bool, true, false, ◌&&◌, ◌||◌, not, String, Option, none, some, List, [], ◌∷◌,
  ltb_ℤ, leb_ℤ, add64, if◌then◌else◌, ltb, length,
}
use agent_ledger.Base.GoMap
use agent_ledger.Base.GoMap.{GoMap}
use agent_ledger.Base.Clock.{Time, Duration, after, add, sub, minute, hour}

pub record Rule : Type 0 where
  pub api_key_pattern : String
  pub requests_per_minute : ℤ
  pub requests_per_hour : ℤ

pub record Config : Type 0 where
  pub default_rule : Rule
  pub rules : List Rule

-- slidingWindow
pub record Window : Type 0 where
  pub count : ℤ
  pub window_end : Time

abbrev pub Counters : Type 0
Counters = GoMap Window

pub record Limiter : Type 0 where
  pub config : Config
  pub minute_counters : Counters
  pub hour_counters : Counters

-- What Allow returns: allowed, or the time to wait. `panicked` is a nil dereference.
pub data Verdict : Type 0 where
  allowed : Verdict
  limited : Duration → Verdict
  panicked : Verdict

-- New
pub new_limiter : Config → Limiter
new_limiter cfg = record { config = cfg; minute_counters = []; hour_counters = [] }

unfoldable pub enabled : Limiter → Bool
enabled l =
    ltb_ℤ (pos 0) l.config.default_rule.requests_per_minute
    || ltb_ℤ (pos 0) l.config.default_rule.requests_per_hour
    || ltb 0 (length l.config.rules)

-- getOrCreateWindow: the window, and the map that holds it.
pub get_or_create_window : Counters → String → Time → Duration → Window × Counters
get_or_create_window counters key now duration =
    let w : Window = record { count = pos 0; window_end = add now duration } in
    elim (GoMap.get counters key) [
      | none ↦ (w, GoMap.put counters key w)
      | some v ↦ if after now v.window_end then (w, GoMap.put counters key w) else (v, counters)
    ]

-- `if limit > 0 { w := getOrCreateWindow(...); if w.count >= limit { return ... } }`
unfoldable pub check_limit : ℤ → Counters → String → Time → Duration → Counters × Option Duration
unfolding get_or_create_window
check_limit limit counters key now duration =
    let (w, counters') = get_or_create_window counters key now duration in
    if ltb_ℤ (pos 0) limit
    then (counters', if leb_ℤ limit w.count then some (sub w.window_end now) else none)
    else (counters, none)

-- `counters[key].count++`, where a missing key is a nil pointer.
pub increment : Counters → String → Option Counters
increment counters key = elim (GoMap.get counters key) [
  | none ↦ none
  | some w ↦ some (GoMap.put counters key (record w { count = add64 w.count (pos 1) }))
]

-- `if limit > 0 { counters[key].count++ }`
unfoldable pub count_request : ℤ → Counters → String → Option Counters
unfolding increment
count_request limit counters key =
    if ltb_ℤ (pos 0) limit then increment counters key else some counters

pub merge_with_default : Limiter → Rule → Rule
merge_with_default l r = record {
  api_key_pattern = r.api_key_pattern;
  requests_per_minute =
      if leb_ℤ r.requests_per_minute (pos 0)
      then l.config.default_rule.requests_per_minute
      else r.requests_per_minute;
  requests_per_hour =
      if leb_ℤ r.requests_per_hour (pos 0)
      then l.config.default_rule.requests_per_hour
      else r.requests_per_hour;
}

-- Allow, behind the rule and the early return.
unfoldable pub admit : Limiter → Rule → String → Time → Limiter × Verdict
admit l rule key now =
    let (minutes, wait) = check_limit rule.requests_per_minute l.minute_counters key now minute in
    elim wait [
      | some d ↦ (record l { minute_counters = minutes }, limited d)
      | none ↦
          let (hours, wait') = check_limit rule.requests_per_hour l.hour_counters key now hour in
          elim wait' [
            | some d ↦ (record l { minute_counters = minutes; hour_counters = hours }, limited d)
            | none ↦ elim (count_request rule.requests_per_minute minutes key) [
              | none ↦ (record l { minute_counters = minutes; hour_counters = hours }, panicked)
              | some minutes' ↦ elim (count_request rule.requests_per_hour hours key) [
                | none ↦ (record l { minute_counters = minutes'; hour_counters = hours }, panicked)
                | some hours' ↦
                    (record l { minute_counters = minutes'; hour_counters = hours' }, allowed)
              ]
            ]
          ]
    ]

-- evictExpired
pub evict_expired : Limiter → Time → Limiter
evict_expired l now = record l {
  minute_counters = GoMap.delete_where (λ w. after now w.window_end) l.minute_counters;
  hour_counters = GoMap.delete_where (λ w. after now w.window_end) l.hour_counters;
}

module _ (glob : String → String → Bool) where
  first_match : Limiter → String → List Rule → Rule
  unfolding merge_with_default
  first_match l raw_key [] = l.config.default_rule
  first_match l raw_key (r ∷ rs) =
      if glob r.api_key_pattern raw_key then merge_with_default l r else first_match l raw_key rs

  unfoldable pub match_rule : Limiter → String → Rule
  unfolding first_match
  match_rule l raw_key = first_match l raw_key l.config.rules

  unfoldable pub allow : Limiter → String → String → Time → Limiter × Verdict
  allow l raw_key api_key_hash now =
      let rule = match_rule l raw_key in
      if leb_ℤ rule.requests_per_minute (pos 0) && leb_ℤ rule.requests_per_hour (pos 0)
      then (l, allowed)
      else admit l rule api_key_hash now
