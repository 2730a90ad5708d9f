-- ===== src/RateLimit/Burst.antt =====
-- A window starts with a key's first request and ends at a fixed instant: what passes just before
-- and just after that instant adds up.
use agent_ledger.Base.{
  ℕ, zero, suc, ◌+◌, ◌<◌, ◌≤◌, ℤ, pos, ◌≤ℤ◌, ◌≡◌, Bool, String, none, some, List, [], ◌∷◌, ◌++◌,
  All, arith, length, replicate, length-replicate, int_laws,
}
use mathlib.Core.List.{append-nil}
use agent_ledger.Base.GoMap
use agent_ledger.Base.Clock.{Time, Duration, minute, hour, add}
use agent_ledger.RateLimit.{
  Rule, Counters, Limiter, allowed, match_rule, allow, admit, check_limit, count_request,
}
use agent_ledger.RateLimit.Windows.{
  current, current-live, current-expired, current-none, Stored, tier, Tier, passes, refuses,
}
use agent_ledger.RateLimit.Bounds.{tally, match_rule-config, config-allow, allow-minute}

unchecked :
    (limit : ℤ) (counters : Counters) (key : String) (now : Time) (d : Duration)
    → limit ≤ℤ pos 0
    → (check_limit limit counters key now d).1 ≡ none
unfolding check_limit
unchecked limit counters key now d h = ground arith

uncounted :
    (limit : ℤ) (counters : Counters) (key : String)
    → limit ≤ℤ pos 0
    → count_request limit counters key ≡ some counters
unfolding count_request
uncounted limit counters key h = ground arith

-- With room in the minute and no hour limit, the request is allowed.
admit_room :
    (l : Limiter) (rule : Rule) (key : String) (now : Time) (c n : ℕ) (e : Time)
    → Tier rule.requests_per_minute l.minute_counters key now minute c n e
    → c < n
    → rule.requests_per_hour ≤ℤ pos 0
    → (admit l rule key now).1 ≡ allowed
unfolding admit
admit_room l rule key now c n e (refuses wait r s f) h z = absurd (omega arith)
admit_room l rule key now c n e (passes counted r b s f g) h z = ground (
  arith,
  unchecked rule.requests_per_hour l.hour_counters key now hour z,
  uncounted rule.requests_per_hour
      (check_limit rule.requests_per_hour l.hour_counters key now hour).0 key z,
)

All-replicate : (t e : Time) (n : ℕ) → t ≤ℤ e → All (λ u. u ≤ℤ e) (replicate n t)
All-replicate t e zero h = tt
All-replicate t e (suc n) h = (h, All-replicate t e n h)

recount :
    (counters : Counters) (key : String) (c c' : ℕ) (e : Time)
    → c ≡ c'
    → Stored counters key c e
    → Stored counters key c' e
recount counters key c c' e p s = rw (← p) s

module _ (glob : String → String → Bool) (raw key : String) where
  -- How many calls of one key are allowed, at the given instants.
  pub passed : Limiter → List Time → ℕ
  passed l [] = 0
  passed l (t ∷ ts) = tally (allow glob l raw key t).1 (passed (allow glob l raw key t).0 ts)

  -- The key is limited to `n` requests a minute and not by the hour.
  pub record MinuteOnly (l : Limiter) (n : ℕ) : Type 0 where
    pub per_minute : (match_rule glob l raw).requests_per_minute ≡ pos n
    pub per_hour : (match_rule glob l raw).requests_per_hour ≤ℤ pos 0
    pub some_room : 0 < n
    pub in_range : n ≤ 9223372036854775807

  MinuteOnly-allow :
      (l : Limiter) (t : Time) (n : ℕ) → MinuteOnly l n → MinuteOnly (allow glob l raw key t).0 n
  MinuteOnly-allow l t n m = record {
    per_minute = rw same m.per_minute;
    per_hour = rw same m.per_hour;
    some_room = m.some_room;
    in_range = m.in_range;
  }
    where
      same : match_rule glob (allow glob l raw key t).0 raw ≡ match_rule glob l raw
      same = match_rule-config glob l _ raw (config-allow glob l raw key t)

  -- With room left in the current window, a call is allowed and counted.
  allow_room :
      (l : Limiter) (t : Time) (c n : ℕ) (e : Time)
      → MinuteOnly l n
      → c < n
      → current l.minute_counters key t minute ≡ record { count = pos c; window_end = e }
      → ((allow glob l raw key t).1 ≡ allowed)
        × Stored (allow glob l raw key t).0.minute_counters key (suc c) e
  unfolding allow
  allow_room l t c n e m h w =
      let stays =
        allow-minute glob l raw key t c n e m.per_minute m.some_room m.in_range (omega arith) w in
      let passes_ =
        admit_room l (match_rule glob l raw) key t c n e
          (tier _ _ key t minute c n e m.per_minute m.some_room m.in_range w) h m.per_hour in
      ground arith

  -- The limiter after calls of the key.
  called : Limiter → List Time → Limiter
  called l [] = l
  called l (t ∷ ts) = called (allow glob l raw key t).0 ts

  -- While the window lasts, calls pass as long as there is room, and all are counted.
  passed_room :
      (l : Limiter) (ts rest : List Time) (c n : ℕ) (e : Time)
      → MinuteOnly l n
      → c + length ts ≤ n
      → All (λ t. t ≤ℤ e) ts
      → Stored l.minute_counters key c e
      → MinuteOnly (called l ts) n
        × Stored (called l ts).minute_counters key (c + length ts) e
        × (passed l (ts ++ rest) ≡ length ts + passed (called l ts) rest)
  unfolding passed called
  passed_room l [] rest c n e m h a s =
      (m, recount l.minute_counters key c (c + 0) e (omega arith) s, omega arith)
  passed_room l (t ∷ ts) rest c n e m h a s =
      let (ok, stored) =
        allow_room l t c n e m (omega arith)
          (current-live l.minute_counters key t minute _ s a.0) in
      let (m', s', p) =
        passed_room (allow glob l raw key t).0 ts rest (suc c) n e (MinuteOnly-allow l t n m)
          (omega arith) a.1 stored in
      (
        m',
        recount _ key (suc c + length ts) (c + suc (length ts)) e (omega arith) s',
        rw ok (omega arith),
      )

  -- A whole limit of calls passes at the instant that opens a window.
  fill :
      (l : Limiter) (u : Time) (n : ℕ)
      → MinuteOnly l (suc n)
      → current l.minute_counters key u minute ≡ record { count = pos 0; window_end = add u minute }
      → passed l (replicate (suc n) u) ≡ suc n
  unfolding passed
  fill l u n m w =
      let (ok, stored) = allow_room l u 0 (suc n) (add u minute) m (omega arith) w in
      let (_, _, p) =
        passed_room (allow glob l raw key u).0 (replicate n u) [] 1 (suc n) (add u minute)
          (MinuteOnly-allow l u (suc n) m) (omega (arith, length-replicate n u))
          (All-replicate u (add u minute) n (omega int_laws)) stored in
      let q : passed (allow glob l raw key u).0 (replicate n u) ≡ length (replicate n u) + 0 =
        rw append-nil at p in
      rw ok (omega (arith, q, length-replicate n u))

  -- A limit of `n` requests a minute lets 2 * n pass, of which all but the first come within one
  -- nanosecond: one that opens the window at `t`, n - 1 at its last instant, and n at the next.
  pub boundary_burst :
      (l : Limiter) (t : Time) (n : ℕ)
      → MinuteOnly l (suc n)
      → GoMap.get l.minute_counters key ≡ none
      → let last : Time = add t minute in
        passed l (t ∷ replicate n last ++ replicate (suc n) (add last (pos 1))) ≡ suc n + suc n
  unfolding passed
  boundary_burst l t n m fresh =
      let last : Time = add t minute in
      let next : Time = add last (pos 1) in
      let (ok, stored) =
        allow_room l t 0 (suc n) last m (omega arith) (current-none _ key t minute fresh) in
      let (m', s', p) =
        passed_room (allow glob l raw key t).0 (replicate n last) (replicate (suc n) next) 1 (suc n)
          last (MinuteOnly-allow l t (suc n) m) (omega (arith, length-replicate n last))
          (All-replicate last last n (omega arith)) stored in
      let full =
        fill (called (allow glob l raw key t).0 (replicate n last)) next n m'
          (current-expired _ key next minute _ last s' (omega int_laws)) in
      rw ok (omega (arith, p, full, length-replicate n last))
