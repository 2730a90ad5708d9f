-- ===== src/RateLimit/Bounds.antt =====
-- How many requests of one key pass within one window, whatever other keys do meanwhile.
use agent_ledger.Base.{
  ℕ, suc, ◌<◌, ◌≤◌, pos, ◌≤ℤ◌, ◌≡◌, ◌≢◌, ◌∙◌, ap, Bool, String, List, [], ◌∷◌, arith,
}
use agent_ledger.Base.GoMap
use agent_ledger.Base.Clock.{Time, minute, hour}
use agent_ledger.RateLimit.{
  Rule, Limiter, Verdict, allowed, limited, panicked, check_limit, admit, match_rule, first_match,
  allow,
}
use agent_ledger.RateLimit.Windows.{
  current, check_limit_ne, current-live, Stored, Tier, refuses, passes, tier, count_request-ne-none,
  count_request_ne,
}

abbrev pub tally : Verdict → ℕ → ℕ
tally allowed c = suc c
tally (limited d) c = c
tally panicked c = c

pub admit-Tier :
    (l : Limiter) (rule : Rule) (key : String) (now : Time) (c n : ℕ) (e : Time)
    → Tier rule.requests_per_minute l.minute_counters key now minute c n e
    → c ≤ n
    → Stored (admit l rule key now).0.minute_counters key (tally (admit l rule key now).1 c) e
      × (tally (admit l rule key now).1 c ≤ n)
unfolding admit
admit-Tier l rule key now c n e (refuses wait r s f) h = rw (r, admit) (s, h)
admit-Tier l rule key now c n e (passes counted r b s f g) h =
    ground (arith, count_request-ne-none rule.requests_per_hour l.hour_counters key now hour)

-- The lock's critical section never meets a nil window.
pub admit-ne-panicked :
    (l : Limiter) (rule : Rule) (key : String) (now : Time) → (admit l rule key now).1 ≢ panicked
unfolding admit
admit-ne-panicked l rule key now e = ground (
  arith,
  count_request-ne-none rule.requests_per_minute l.minute_counters key now minute,
  count_request-ne-none rule.requests_per_hour l.hour_counters key now hour,
)

admit_ne :
    (l : Limiter) (rule : Rule) (key j : String) (now : Time)
    → key ≢ j
    → (GoMap.get (admit l rule key now).0.minute_counters j ≡ GoMap.get l.minute_counters j)
      × (GoMap.get (admit l rule key now).0.hour_counters j ≡ GoMap.get l.hour_counters j)
unfolding admit
admit_ne l rule key j now ne = ground (
  arith,
  check_limit_ne rule.requests_per_minute l.minute_counters key j now minute ne,
  check_limit_ne rule.requests_per_hour l.hour_counters key j now hour ne,
  count_request_ne rule.requests_per_minute
      (check_limit rule.requests_per_minute l.minute_counters key now minute).0 key j ne,
  count_request_ne rule.requests_per_hour
      (check_limit rule.requests_per_hour l.hour_counters key now hour).0 key j ne,
)

-- The same for the hours. A call that the minutes refuse does not come to them.
admit-Tier-hour :
    (l : Limiter) (rule : Rule) (key : String) (now : Time) (c n : ℕ) (e : Time)
    → Tier rule.requests_per_hour l.hour_counters key now hour c n e
    → Stored l.hour_counters key c e
    → c ≤ n
    → Stored (admit l rule key now).0.hour_counters key (tally (admit l rule key now).1 c) e
      × (tally (admit l rule key now).1 c ≤ n)
unfolding admit
admit-Tier-hour l rule key now c n e (refuses wait r s f) here h = ground arith
admit-Tier-hour l rule key now c n e (passes counted r b s f g) here h =
    ground (arith, count_request-ne-none rule.requests_per_minute l.minute_counters key now minute)

config-admit :
    (l : Limiter) (rule : Rule) (key : String) (now : Time)
    → (admit l rule key now).0.config ≡ l.config
unfolding admit
config-admit l rule key now = ground arith

module _ (glob : String → String → Bool) where
  first_match-config :
      (l l' : Limiter) (raw : String) (rs : List Rule)
      → l'.config ≡ l.config
      → first_match glob l' raw rs ≡ first_match glob l raw rs
  unfolding first_match
  first_match-config l l' raw [] e = ap (λ c. c.default_rule) e
  first_match-config l l' raw (r ∷ rs) e = ground (arith, first_match-config l l' raw rs e)

  -- The rule of a key depends on the configuration alone.
  pub match_rule-config :
      (l l' : Limiter) (raw : String)
      → l'.config ≡ l.config
      → match_rule glob l' raw ≡ match_rule glob l raw
  unfolding match_rule
  match_rule-config l l' raw e =
      ap (first_match glob l' raw) (ap (λ c. c.rules) e)
      ∙ first_match-config l l' raw l.config.rules e

  pub config-allow :
      (l : Limiter) (raw key : String) (now : Time) → (allow glob l raw key now).0.config ≡ l.config
  unfolding allow
  config-allow l raw key now = ground (arith, config-admit l (match_rule glob l raw) key now)

  -- A call never dereferences a missing window.
  pub allow-ne-panicked :
      (l : Limiter) (raw key : String) (now : Time) → (allow glob l raw key now).1 ≢ panicked
  unfolding allow
  allow-ne-panicked l raw key now e =
      ground (arith, admit-ne-panicked l (match_rule glob l raw) key now)

  -- A request under one key leaves the windows of every other key as they were.
  pub allow_ne :
      (l : Limiter) (raw key j : String) (now : Time)
      → key ≢ j
      → (GoMap.get (allow glob l raw key now).0.minute_counters j ≡ GoMap.get l.minute_counters j)
        × (GoMap.get (allow glob l raw key now).0.hour_counters j ≡ GoMap.get l.hour_counters j)
  unfolding allow
  allow_ne l raw key j now ne = ground (arith, admit_ne l (match_rule glob l raw) key j now ne)

  pub allow-minute :
      (l : Limiter) (raw key : String) (now : Time) (c n : ℕ) (e : Time)
      → (match_rule glob l raw).requests_per_minute ≡ pos n
      → 0 < n
      → n ≤ 9223372036854775807
      → c ≤ n
      → current l.minute_counters key now minute ≡ record { count = pos c; window_end = e }
      → Stored
          (allow glob l raw key now).0.minute_counters
          key
          (tally (allow glob l raw key now).1 c)
          e
        × (tally (allow glob l raw key now).1 c ≤ n)
  unfolding allow
  allow-minute l raw key now c n e r p b h w =
      let both =
        admit-Tier l (match_rule glob l raw) key now c n e (tier _ _ key now minute c n e r p b w)
          h in
      ground arith

  pub allow-hour :
      (l : Limiter) (raw key : String) (now : Time) (c n : ℕ) (e : Time)
      → (match_rule glob l raw).requests_per_hour ≡ pos n
      → 0 < n
      → n ≤ 9223372036854775807
      → c ≤ n
      → Stored l.hour_counters key c e
      → now ≤ℤ e
      → Stored
          (allow glob l raw key now).0.hour_counters
          key
          (tally (allow glob l raw key now).1 c)
          e
        × (tally (allow glob l raw key now).1 c ≤ n)
  unfolding allow
  allow-hour l raw key now c n e r p b h s live =
      let w = current-live l.hour_counters key now hour _ s live in
      let both =
        admit-Tier-hour l (match_rule glob l raw) key now c n e
          (tier _ _ key now hour c n e r p b w) s h in
      ground arith
