-- ===== src/Alert.antt =====
-- internal/alert/alert.go and ratelimit.go: sending alerts on, once per cooldown. A notifier of the
-- outside world (Slack, a webhook) answers a call with success or an error.
pub mod Cooldown
mod Examples
use agent_ledger.Base.{
  ℕ, suc, ℤ, pos, Bool, true, false, String, str_append, Option, none, some, List, [], ◌∷◌,
  if◌then◌else◌, ltb_ℤ, mul64, ◌&&◌,
}
use agent_ledger.Base.GoMap
use agent_ledger.Base.GoMap.{GoMap}
use agent_ledger.Base.Clock.{Time, Duration, sub}

pub record Alert : Type 0 where
  pub type : String
  pub severity : String
  pub message : String
  pub details : GoMap String

-- The answer of a notifier; `none` is success.
abbrev pub Failure : Type 0
Failure = Option String

-- MultiNotifier: every notifier is called, whatever the others answered; the answer is the first
-- error. The number of calls made stands beside it.
pub notify_all : List (Alert → Failure) → Alert → Failure → ℕ × Failure
notify_all [] a first_err = (0, first_err)
notify_all (n ∷ ns) a first_err =
    let err = n a in
    let (calls, answer) = notify_all ns a (elim first_err [ some e ↦ some e | none ↦ err ]) in
    (suc calls, answer)

pub record RateLimitedNotifier : Type 0 where
  pub cooldown : Duration
  pub seen : GoMap Time

pub new_rate_limited_notifier : Duration → RateLimitedNotifier
new_rate_limited_notifier cooldown = record { cooldown = cooldown; seen = [] }

first_detail : GoMap String → List String → Option String
first_detail details [] = none
first_detail details (k ∷ ks) = elim (GoMap.get details k) [
  | some v ↦ some v
  | none ↦ first_detail details ks
]

-- alertKey
pub alert_key : Alert → String
unfolding first_detail
alert_key a = elim (first_detail a.details ("session_id" ∷ "api_key_hash" ∷ [])) [
  | none ↦ a.type
  | some v ↦ str_append a.type (str_append ":" v)
]

-- The send: the key's time is set, and entries older than twice the cooldown are evicted.
pub remember : RateLimitedNotifier → String → Time → RateLimitedNotifier
remember r key now = record r {
  seen =
      GoMap.delete_where (λ t. ltb_ℤ (mul64 r.cooldown (pos 2)) (sub now t))
        (GoMap.put r.seen key now);
}

-- Notify, at one instant; the flag says whether the alert went on to the inner notifier.
unfoldable pub notify : RateLimitedNotifier → Alert → Time → RateLimitedNotifier × Bool
unfolding remember
notify r a now = elim (GoMap.get r.seen (alert_key a)) [
  | none ↦ (remember r (alert_key a) now, true)
  | some last_sent ↦
      if ltb_ℤ (sub now last_sent) r.cooldown
      then (r, false)
      else (remember r (alert_key a) now, true)
]
