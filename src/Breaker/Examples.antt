-- ===== src/Breaker/Examples.antt =====
-- Breakers at work on concrete calls.
use agent_ledger.Base.{◌≡◌, refl, pos, List, [], ◌∷◌, arith, add64}
use agent_ledger.Base.Clock.{sub}
use agent_ledger.Breaker.{
  BreakerTransport, state_open, failed, responded, new_breaker_transport, round_trip, run, Call,
  allow, record_failure, record_success, forward,
}
use agent_ledger.Breaker.Streak.{Tracks, streak, run-new-Tracks}
use agent_ledger.Breaker.Gate.{admitted, half_open_flood, run_failing, state_at}

abbrev calls : List Call
calls =
    record { now = pos 1; reply = responded (pos 200); done = pos 2 }
    ∷ record { now = pos 3; reply = failed; done = pos 4 }
    ∷ record { now = pos 5; reply = responded (pos 503); done = pos 6 }
    ∷ record { now = pos 7; reply = responded (pos 200); done = pos 8 }
    ∷ []

-- Open since 6, for 30 units.
abbrev tripped : BreakerTransport
tripped = record {
  state = state_open;
  failures = pos 2;
  max_failures = pos 2;
  timeout = pos 30;
  last_tripped = pos 6;
}

run_trips : run (new_breaker_transport (pos 2) (pos 30)) calls ≡ tripped
unfolding run new_breaker_transport round_trip allow forward record_failure record_success sub add64
run_trips = refl

run-new-Tracks_example :
    Tracks
      (run (new_breaker_transport (pos 2) (pos 30)) calls)
      (streak (new_breaker_transport (pos 2) (pos 30)) calls 0)
run-new-Tracks_example = run-new-Tracks (pos 2) (pos 30) calls (omega arith) (omega arith)

half_open_flood_example : admitted tripped (pos 37 ∷ pos 38 ∷ pos 39 ∷ []) ≡ 3
unfolding sub
half_open_flood_example = half_open_flood tripped (pos 37) (pos 38 ∷ pos 39 ∷ []) refl (omega arith)

abbrev failing : List Call
failing =
    record { now = pos 1; reply = failed; done = pos 2 }
    ∷ record { now = pos 3; reply = responded (pos 500); done = pos 4 }
    ∷ []

run_failing_example : (run (new_breaker_transport (pos 2) (pos 30)) failing).state ≡ state_at 2 2
run_failing_example =
    run_failing 2 (pos 30) failing (omega arith) (omega arith) (omega arith) (refl, (refl, tt))
