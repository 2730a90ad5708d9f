-- ===== src/Alert/Cooldown.antt =====
-- An alert is sent on at most once per key and cooldown.
use agent_ledger.Base.{pos, ◌≤ℤ◌, ◌<ℤ◌, true, false, ◌≡◌, ltb_ℤ, arith, mul64}
use agent_ledger.Base.GoMap
use agent_ledger.Base.GoMap.{Distinct}
use agent_ledger.Base.Clock.{Time, sub}
use agent_ledger.Alert.{Alert, RateLimitedNotifier, alert_key, notify, remember}

-- After an alert has been sent on at one instant, one with the same key is held back as long as
-- less than the cooldown has passed, and this changes nothing; the eviction of old entries that
-- comes with the sending does not remove the new one, if twice the cooldown is not negative.
pub notify_suppresses :
    (r : RateLimitedNotifier) (a b : Alert) (t u : Time)
    → Distinct r.seen
    → (notify r a t).1 ≡ true
    → alert_key b ≡ alert_key a
    → sub t t ≤ℤ mul64 r.cooldown (pos 2)
    → sub u t <ℤ r.cooldown
    → notify (notify r a t).0 b u ≡ ((notify r a t).0, false)
unfolding notify remember
notify_suppresses r a b t u d sent k c h = ground (
  arith,
  GoMap.get-put_self r.seen (alert_key a) t,
  GoMap.get-delete_where (λ x. ltb_ℤ (mul64 r.cooldown (pos 2)) (sub t x))
      (GoMap.put r.seen (alert_key a) t) (alert_key a)
      (GoMap.Distinct-put r.seen (alert_key a) t d),
)
