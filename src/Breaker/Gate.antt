-- ===== src/Breaker/Gate.antt =====
-- Which calls the breaker lets through, and what a reply does to it.
use agent_ledger.Base.{
  ℕ, suc, ◌+◌, ◌≤◌, ◌<◌, pos, ◌≤ℤ◌, ◌<ℤ◌, ◌≡◌, refl, ◌∙◌, ap, ◌↔◌, true, false, List, [], ◌∷◌,
  arith, ltb, if◌then◌else◌, length, All,
}
use agent_ledger.Base.Clock.{Time, Duration, sub}
use agent_ledger.Breaker.{
  BreakerState, state_closed, state_open, state_half_open, BreakerTransport, Reply, failed,
  responded, circuit_open, new_breaker_transport, allow, record_failure, round_trip, forward, run,
  Call,
}
use agent_ledger.Breaker.Streak.{is_failure, count_up}

-- The breaker refuses a call now.
abbrev pub Refuses : BreakerTransport → Time → Type 0
Refuses bt now = (bt.state ≡ state_open) × (sub now bt.last_tripped ≤ℤ bt.timeout)

allow-Refuses : (bt : BreakerTransport) (now : Time) → ((allow bt now).1 ≡ false) ↔ Refuses bt now
unfolding allow
allow-Refuses bt now = ground arith

forward_reaches :
    (bt : BreakerTransport) (r : Reply) (done : Time) → ¬ ((forward bt r done).1 ≡ circuit_open)
unfolding forward
forward_reaches bt failed done e = cc
forward_reaches bt (responded s) done e = ground arith

-- A call gets ErrCircuitOpen exactly when the breaker is open and no more than the timeout has
-- passed since it last tripped, whatever the upstream would have answered.
pub round_trip-Refuses :
    (bt : BreakerTransport) (now : Time) (r : Reply) (done : Time)
    → ((round_trip bt now r done).1 ≡ circuit_open) ↔ Refuses bt now
unfolding round_trip
round_trip-Refuses bt now r done = (
  λ e. (allow-Refuses bt now).0 (ground (arith, forward_reaches (allow bt now).0 r done)),
  λ h. rw ((allow-Refuses bt now).1 h),
)

-- A refused call leaves the breaker as it was, its clock of the last trip included.
pub round_trip_refused :
    (bt : BreakerTransport) (now : Time) (r : Reply) (done : Time)
    → Refuses bt now
    → (round_trip bt now r done).0 ≡ bt
unfolding round_trip allow
round_trip_refused bt now r done h = ground arith

-- Requests that overlap: each passes the gate before any of them has got its reply.
pub admitted : BreakerTransport → List Time → ℕ
admitted bt [] = 0
admitted bt (t ∷ ts) =
    let rest = admitted (allow bt t).0 ts in if (allow bt t).1 then suc rest else rest

half_open_admits :
    (bt : BreakerTransport) (ts : List Time)
    → bt.state ≡ state_half_open
    → admitted bt ts ≡ length ts
unfolding admitted allow
half_open_admits bt [] h = refl
half_open_admits bt (t ∷ ts) h = ground (arith, half_open_admits bt ts h)

allow_probe :
    (bt : BreakerTransport) (t : Time)
    → bt.state ≡ state_open
    → bt.timeout <ℤ sub t bt.last_tripped
    → ((allow bt t).1 ≡ true) × ((allow bt t).0.state ≡ state_half_open)
unfolding allow
allow_probe bt t o e = ground arith

-- Once the timeout of an open breaker has passed, the first request and every request after it
-- are let through until one of them gets a reply: the half-open state does not stop at one test
-- request.
pub half_open_flood :
    (bt : BreakerTransport) (t : Time) (ts : List Time)
    → bt.state ≡ state_open
    → bt.timeout <ℤ sub t bt.last_tripped
    → admitted bt (t ∷ ts) ≡ suc (length ts)
unfolding admitted
half_open_flood bt t ts o e =
    ground (arith, allow_probe bt t o e, half_open_admits (allow bt t).0 ts)

-- The state after `k` failures in a row, for a threshold `m` that they do not pass.
abbrev pub state_at : ℕ → ℕ → BreakerState
state_at k m = if ltb k m then state_closed else state_open

abbrev AtCount : BreakerTransport → ℕ → ℕ → Type 0
AtCount bt k m = (bt.state ≡ state_at k m) × (bt.failures ≡ pos k) × (bt.max_failures ≡ pos m)

record_failure-AtCount :
    (bt : BreakerTransport) (done : Time) (k m : ℕ)
    → k < m
    → m ≤ 9223372036854775807
    → AtCount bt k m
    → AtCount (record_failure bt done) (suc k) m
unfolding record_failure
record_failure-AtCount bt done k m h b a = ground (arith, count_up k)

failing-AtCount :
    (bt : BreakerTransport) (now : Time) (r : Reply) (done : Time) (k m : ℕ)
    → k < m
    → m ≤ 9223372036854775807
    → is_failure r ≡ true
    → AtCount bt k m
    → AtCount (round_trip bt now r done).0 (suc k) m
unfolding round_trip forward allow
failing-AtCount bt now failed done k m h b f a = ground (arith, record_failure-AtCount bt done k m)
failing-AtCount bt now (responded s) done k m h b f a =
    ground (arith, record_failure-AtCount bt done k m)

run-AtCount :
    (bt : BreakerTransport) (cs : List Call) (k m : ℕ)
    → k + length cs ≤ m
    → m ≤ 9223372036854775807
    → All (λ c. is_failure c.reply ≡ true) cs
    → AtCount bt k m
    → (run bt cs).state ≡ state_at (k + length cs) m
unfolding run
run-AtCount bt [] k m h b f a = ground arith
run-AtCount bt (c ∷ cs) k m h b f a =
    let rest =
      run-AtCount (round_trip bt c.now c.reply c.done).0 cs (suc k) m (omega arith) b f.1
        (failing-AtCount bt c.now c.reply c.done k m (omega arith) b f.0 a) in
    rest ∙ ap (λ n. state_at n m) (omega arith)

-- A new breaker with threshold `m` >= 1 stays closed under fewer than `m` failing calls in a row,
-- whatever their instants, and is open after exactly `m`.
pub run_failing :
    (m : ℕ) (timeout : Duration) (cs : List Call)
    → 0 < m
    → m ≤ 9223372036854775807
    → length cs ≤ m
    → All (λ c. is_failure c.reply ≡ true) cs
    → (run (new_breaker_transport (pos m) timeout) cs).state ≡ state_at (length cs) m
unfolding new_breaker_transport
run_failing m timeout cs p b h f =
    run-AtCount _ cs 0 m (omega arith) b f (ground arith, refl, refl)
    ∙ ap (λ n. state_at n m) (omega arith)
