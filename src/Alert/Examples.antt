-- ===== src/Alert/Examples.antt =====
-- Two alerts on one session, a second apart, under a cooldown of five minutes.
use agent_ledger.Base.{mul64, pos, ◌≡◌, refl, false, [], ◌∷◌, arith}
use agent_ledger.Base.GoMap
use agent_ledger.Base.Clock.{sub}
use agent_ledger.Alert.{Alert, RateLimitedNotifier, notify}
use agent_ledger.Alert.Cooldown.{notify_suppresses}

abbrev looping : Alert
looping = record {
  type = "loop_detected";
  severity = "warning";
  message = "again";
  details = ("session_id", "s1") ∷ [];
}

abbrev quiet : RateLimitedNotifier
quiet = record { cooldown = pos 300000000000; seen = [] }

notify_suppresses_example :
    notify (notify quiet looping (pos 5)).0 looping (pos 1000000005)
    ≡ ((notify quiet looping (pos 5)).0, false)
unfolding notify GoMap.get sub mul64
notify_suppresses_example =
    notify_suppresses quiet looping looping (pos 5) (pos 1000000005) tt refl refl (omega arith)
      (omega arith)
