-- ===== src/Breaker/Streak.antt =====
-- The breaker against its description: it is closed while the calls that reached the upstream
-- end in fewer than `max_failures` failures in a row.
use agent_ledger.Base.{
  ℕ, suc, ◌+◌, ◌≤◌, ◌<◌, ℤ, pos, ◌≤ℤ◌, ◌<ℤ◌, ◌≡◌, refl, Bool, true, false, List, [], ◌∷◌, arith,
  leb_ℤ, length, add64, Bool-cases, inl, inr,
}
use agent_ledger.Base.Clock.{Time, Duration}
use agent_ledger.Breaker.{
  BreakerState, state_closed, state_open, state_half_open, BreakerTransport, Reply, failed,
  responded, Outcome, circuit_open, transport_error, response, new_breaker_transport, allow,
  record_failure, record_success, round_trip, forward, run, Call,
}

-- A reply that counts as an upstream failure.
abbrev pub is_failure : Reply → Bool
is_failure failed = true
is_failure (responded status) = leb_ℤ (pos 500) status

-- The failures in a row, after one more reply.
abbrev pub extend : Bool → ℕ → ℕ
extend true n = suc n
extend false n = 0

-- What a caller sees decides what reached the upstream.
abbrev pub extend_seen : Outcome → Reply → ℕ → ℕ
extend_seen circuit_open r n = n
extend_seen transport_error r n = extend (is_failure r) n
extend_seen (response s) r n = extend (is_failure r) n

-- The failures in a row at the end of the calls that were forwarded.
pub streak : BreakerTransport → List Call → ℕ → ℕ
streak bt [] n = n
streak bt (c ∷ cs) n =
    streak (round_trip bt c.now c.reply c.done).0 cs
      (extend_seen (round_trip bt c.now c.reply c.done).1 c.reply n)

-- Closed below the threshold, open or half-open from it on.
abbrev pub Fits : BreakerState → ℤ → ℕ → Type 0
Fits state_closed limit n = pos n <ℤ limit
Fits state_open limit n = limit ≤ℤ pos n
Fits state_half_open limit n = limit ≤ℤ pos n

-- The state that a streak of failures calls for.
pub record Tracks (bt : BreakerTransport) (n : ℕ) : Type 0 where
  pub counted : bt.failures ≡ pos n
  pub fits : Fits bt.state bt.max_failures n

pub count_up : (n : ℕ) → n < 9223372036854775807 → add64 (pos n) (pos 1) ≡ pos (suc n)
unfolding add64
count_up n h = ground arith

-- A failure opens the breaker exactly at the threshold.
record_failure-Tracks :
    (bt : BreakerTransport) (now : Time) (n : ℕ)
    → n < 9223372036854775807
    → Tracks bt n
    → Tracks (record_failure bt now) (suc n)
unfolding record_failure
record_failure-Tracks bt now n h t = ground (arith, count_up n)

record_success-Tracks :
    (bt : BreakerTransport) → pos 0 <ℤ bt.max_failures → Tracks (record_success bt) 0
unfolding record_success
record_success-Tracks bt h = ground arith

allow-Tracks :
    (bt : BreakerTransport) (now : Time) (n : ℕ) → Tracks bt n → Tracks (allow bt now).0 n
unfolding allow
allow-Tracks bt now n t = ground arith

max_failures-allow :
    (bt : BreakerTransport) (now : Time) → (allow bt now).0.max_failures ≡ bt.max_failures
unfolding allow
max_failures-allow bt now = ground arith

-- No operation changes the threshold.
max_failures-round_trip :
    (bt : BreakerTransport) (now : Time) (r : Reply) (done : Time)
    → (round_trip bt now r done).0.max_failures ≡ bt.max_failures
unfolding round_trip forward
max_failures-round_trip bt now failed done = ground (arith, max_failures-allow bt now)
max_failures-round_trip bt now (responded s) done = ground (arith, max_failures-allow bt now)

forward-Tracks :
    (bt : BreakerTransport) (r : Reply) (done : Time) (n : ℕ)
    → n < 9223372036854775807
    → pos 0 <ℤ bt.max_failures
    → Tracks bt n
    → Tracks (forward bt r done).0 (extend_seen (forward bt r done).1 r n)
unfolding forward
forward-Tracks bt failed done n h p t = record_failure-Tracks bt done n h t
forward-Tracks bt (responded s) done n h p t =
    ground (arith, record_failure-Tracks bt done n h t, record_success-Tracks bt p)

round_trip-Tracks :
    (bt : BreakerTransport) (c : Call) (n : ℕ)
    → n < 9223372036854775807
    → pos 0 <ℤ bt.max_failures
    → Tracks bt n
    → Tracks
        (round_trip bt c.now c.reply c.done).0
        (extend_seen (round_trip bt c.now c.reply c.done).1 c.reply n)
unfolding round_trip
round_trip-Tracks bt c n h p t = elim (Bool-cases (allow bt c.now).1) [
  | inl passed ↦ rw passed (
      forward-Tracks (allow bt c.now).0 c.reply c.done n h (rw (max_failures-allow bt c.now) p)
        (allow-Tracks bt c.now n t))
  | inr refused ↦ rw refused (allow-Tracks bt c.now n t)
]

extend_seen-le : (o : Outcome) (r : Reply) (n : ℕ) → extend_seen o r n ≤ suc n
extend_seen-le circuit_open r n = omega arith
extend_seen-le transport_error failed n = omega arith
extend_seen-le transport_error (responded s) n = ground arith
extend_seen-le (response _) failed n = omega arith
extend_seen-le (response _) (responded s) n = ground arith

run-Tracks :
    (bt : BreakerTransport) (cs : List Call) (n : ℕ)
    → n + length cs ≤ 9223372036854775807
    → pos 0 <ℤ bt.max_failures
    → Tracks bt n
    → Tracks (run bt cs) (streak bt cs n)
unfolding run streak
run-Tracks bt [] n h p t = t
run-Tracks bt (c ∷ cs) n h p t =
    run-Tracks next cs (extend_seen seen c.reply n) (omega (arith, extend_seen-le seen c.reply n))
      (rw (max_failures-round_trip bt c.now c.reply c.done) p)
      (round_trip-Tracks bt c n (omega arith) p t)
  where
    next : BreakerTransport
    next = (round_trip bt c.now c.reply c.done).0

    seen : Outcome
    seen = (round_trip bt c.now c.reply c.done).1

-- After any calls, at most 2^63 - 1 of them, on a new breaker whose threshold is positive, the
-- failure counter is the number of failures in a row at the end of the forwarded calls, and the
-- breaker is closed exactly while that number is below the threshold.
pub run-new-Tracks :
    (limit : ℤ) (timeout : Duration) (cs : List Call)
    → pos 0 <ℤ limit
    → length cs ≤ 9223372036854775807
    → Tracks
        (run (new_breaker_transport limit timeout) cs)
        (streak (new_breaker_transport limit timeout) cs 0)
run-new-Tracks limit timeout cs p h =
    run-Tracks (new_breaker_transport limit timeout) cs 0 (omega arith)
      (unfold new_breaker_transport in p)
      (unfold new_breaker_transport in record { counted = refl; fits = p })
