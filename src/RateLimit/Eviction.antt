-- ===== src/RateLimit/Eviction.antt =====
-- What the background eviction of expired windows does to the verdicts of calls.
use agent_ledger.Base.{◌≤ℤ◌, ◌≡◌, refl, Bool, String, Option, none, some, arith}
use agent_ledger.Base.GoMap
use agent_ledger.Base.Clock.{Time, Duration, minute, hour}
use agent_ledger.RateLimit.{
  Rule, Limiter, Verdict, allowed, limited, check_limit, admit, match_rule, allow, evict_expired,
}
use agent_ledger.RateLimit.Windows.{current-delete_where, check_limit-current}
use agent_ledger.RateLimit.Bounds.{match_rule-config, admit-ne-panicked}

-- The verdict that two checks lead to.
decide_waits : Option Duration → Option Duration → Verdict
decide_waits (some d) wait' = limited d
decide_waits none (some d) = limited d
decide_waits none none = allowed

admit-decide_waits :
    (l : Limiter) (rule : Rule) (key : String) (now : Time)
    → (admit l rule key now).1
      ≡ decide_waits
          (check_limit rule.requests_per_minute l.minute_counters key now minute).1
          (check_limit rule.requests_per_hour l.hour_counters key now hour).1
unfolding admit decide_waits
admit-decide_waits l rule key now = ground (arith, admit-ne-panicked l rule key now)

admit-evict_expired :
    (l : Limiter) (rule : Rule) (now later : Time) (key : String)
    → GoMap.Distinct l.minute_counters
    → GoMap.Distinct l.hour_counters
    → now ≤ℤ later
    → (admit (evict_expired l now) rule key later).1 ≡ (admit l rule key later).1
unfolding evict_expired
admit-evict_expired l rule now later key u v h = rw (
  admit-decide_waits (evict_expired l now) rule key later,
  admit-decide_waits l rule key later,
  minutes,
  hours,
)
  where
    minutes :
        (check_limit rule.requests_per_minute
          (evict_expired l now).minute_counters
          key
          later
          minute).1
        ≡ (check_limit rule.requests_per_minute l.minute_counters key later minute).1
    minutes =
        check_limit-current _ _ _ key later minute
          (current-delete_where l.minute_counters key now later minute u h)

    hours :
        (check_limit rule.requests_per_hour (evict_expired l now).hour_counters key later hour).1
        ≡ (check_limit rule.requests_per_hour l.hour_counters key later hour).1
    hours =
        check_limit-current _ _ _ key later hour
          (current-delete_where l.hour_counters key now later hour v h)

-- Eviction at one instant does not change the verdict of the next call, at that instant or later,
-- for any key.
pub allow-evict_expired :
    (glob : String → String → Bool) (l : Limiter) (now later : Time) (raw key : String)
    → GoMap.Distinct l.minute_counters
    → GoMap.Distinct l.hour_counters
    → now ≤ℤ later
    → (allow glob (evict_expired l now) raw key later).1 ≡ (allow glob l raw key later).1
unfolding allow evict_expired
allow-evict_expired glob l now later raw key u v h =
    rw (match_rule-config glob l (evict_expired l now) raw refl)
      (ground (arith, admit-evict_expired l (match_rule glob l raw) now later key u v h))
