-- ===== src/Breaker.antt =====
-- internal/budget/circuit_breaker.go: the transport that stops forwarding after repeated upstream
-- failures. The wrapped transport is not modelled: its reply is an argument of each call, and so
-- are the two instants at which a call reads the clock.
pub mod Streak
pub mod Gate
mod Examples
use agent_ledger.Base.{ℤ, pos, Bool, true, false, List, [], ◌∷◌, ltb_ℤ, leb_ℤ, add64, if◌then◌else◌}
use agent_ledger.Base.Clock.{Time, Duration, sub, second}
use agent_ledger.Base.{String, mul64}

-- breakerState
pub data BreakerState : Type 0 where
  state_closed state_open state_half_open : BreakerState

pub record BreakerConfig : Type 0 where
  pub max_failures : ℤ
  pub timeout_secs : ℤ

-- BreakerTransport, without the wrapped transport and the lock.
pub record BreakerTransport : Type 0 where
  pub state : BreakerState
  pub failures : ℤ
  pub max_failures : ℤ
  pub timeout : Duration
  pub last_tripped : Time

-- What the wrapped transport answers: an error, or a response with its status code.
pub data Reply : Type 0 where
  failed : Reply
  responded : ℤ → Reply

-- What the caller gets: ErrCircuitOpen, the transport's error, or its response.
pub data Outcome : Type 0 where
  circuit_open : Outcome
  transport_error : Outcome
  response : ℤ → Outcome

-- NewBreakerTransport; the fields that it does not name are Go's zero values.
pub new_breaker_transport : ℤ → Duration → BreakerTransport
new_breaker_transport max_failures timeout = record {
  state = state_closed;
  failures = pos 0;
  max_failures = max_failures;
  timeout = timeout;
  last_tripped = pos 0;
}

allow_in : BreakerState → BreakerTransport → Time → BreakerTransport × Bool
allow_in state_open bt now =
    if ltb_ℤ bt.timeout (sub now bt.last_tripped)
    then (record bt { state = state_half_open }, true)
    else (bt, false)
allow_in state_closed bt now = (bt, true)
allow_in state_half_open bt now = (bt, true)

pub allow : BreakerTransport → Time → BreakerTransport × Bool
unfolding allow_in
allow bt now = allow_in bt.state bt now

pub record_failure : BreakerTransport → Time → BreakerTransport
record_failure bt now =
    let count = add64 bt.failures (pos 1) in
    if leb_ℤ bt.max_failures count
    then record bt { failures = count; state = state_open; last_tripped = now }
    else record bt { failures = count }

pub record_success : BreakerTransport → BreakerTransport
record_success bt = record bt { failures = pos 0; state = state_closed }

forward : BreakerTransport → Reply → Time → BreakerTransport × Outcome
unfolding record_failure record_success
forward bt failed done = (record_failure bt done, transport_error)
forward bt (responded status) done =
    if leb_ℤ (pos 500) status
    then (record_failure bt done, response status)
    else (record_success bt, response status)

-- RoundTrip: `now` is read by the admission test, `done` when the reply is recorded.
pub round_trip : BreakerTransport → Time → Reply → Time → BreakerTransport × Outcome
round_trip bt now reply done =
    let (bt', allowed) = allow bt now in
    if allowed then forward bt' reply done else (bt', circuit_open)

-- State
pub state_name : BreakerTransport → String
state_name bt = elim bt.state [
  | state_open ↦ "open"
  | state_half_open ↦ "half-open"
  | state_closed ↦ "closed"
]

pub record Call : Type 0 where
  pub now : Time
  pub reply : Reply
  pub done : Time

-- A sequence of calls, none overlapping another.
pub run : BreakerTransport → List Call → BreakerTransport
run bt [] = bt
run bt (c ∷ cs) = run (round_trip bt c.now c.reply c.done).0 cs
