-- ===== src/RateLimit/Runs.antt =====
-- Sequences of requests, of one key among others, through the limiter.
use agent_ledger.Base.{
  ℕ, ◌+◌, ◌<◌, ◌≤◌, pos, ◌≤ℤ◌, ◌≡◌, refl, ◌∙◌, ap, inl, inr, Bool, String, List, [], ◌∷◌, All,
  arith, if◌then◌else◌, eq_iff, str_eq, Bool-cases,
}
use agent_ledger.Base.Clock.{Time, minute}
use agent_ledger.RateLimit.{Limiter, Verdict, allowed, limited, panicked, match_rule, allow}
use agent_ledger.RateLimit.Windows.{current, current-live, Stored}
use agent_ledger.RateLimit.Bounds.{
  tally, match_rule-config, config-allow, allow_ne, allow-minute, allow-hour,
}

-- One call of Allow.
pub record Request : Type 0 where
  pub raw_key : String
  pub key_hash : String
  pub now : Time

module _ (glob : String → String → Bool) where
  abbrev pub served : Limiter → Request → Limiter
  served l q = (allow glob l q.raw_key q.key_hash q.now).0

  abbrev pub verdict : Limiter → Request → Verdict
  verdict l q = (allow glob l q.raw_key q.key_hash q.now).1

  -- How many of the requests under `key` are allowed.
  pub admitted : Limiter → String → List Request → ℕ
  admitted l key [] = 0
  admitted l key (q ∷ qs) =
      let rest = admitted (served l q) key qs in
      if str_eq q.key_hash key then tally (verdict l q) rest else rest

  -- The requests under `key` have the minute limit `n`, and come no later than `e`.
  abbrev pub MinuteLimited : Limiter → String → ℕ → Time → List Request → Type 0
  MinuteLimited l key n e = All λ q.
      (q.key_hash ≡ key → (match_rule glob l q.raw_key).requests_per_minute ≡ pos n) × (q.now ≤ℤ e)

  abbrev pub HourLimited : Limiter → String → ℕ → Time → List Request → Type 0
  HourLimited l key n e = All λ q.
      (q.key_hash ≡ key → (match_rule glob l q.raw_key).requests_per_hour ≡ pos n) × (q.now ≤ℤ e)

  MinuteLimited-served :
      (l : Limiter) (p : Request) (key : String) (n : ℕ) (e : Time) (qs : List Request)
      → MinuteLimited l key n e qs
      → MinuteLimited (served l p) key n e qs
  MinuteLimited-served l p key n e [] h = tt
  MinuteLimited-served l p key n e (q ∷ qs) h = (
    (λ k. ap (λ r. r.requests_per_minute) (same q.raw_key) ∙ h.0.0 k, h.0.1),
    MinuteLimited-served l p key n e qs h.1,
  )
    where
      same : (raw : String) → match_rule glob (served l p) raw ≡ match_rule glob l raw
      same raw =
          match_rule-config glob l (served l p) raw (config-allow glob l p.raw_key p.key_hash p.now)

  HourLimited-served :
      (l : Limiter) (p : Request) (key : String) (n : ℕ) (e : Time) (qs : List Request)
      → HourLimited l key n e qs
      → HourLimited (served l p) key n e qs
  HourLimited-served l p key n e [] h = tt
  HourLimited-served l p key n e (q ∷ qs) h = (
    (λ k. ap (λ r. r.requests_per_hour) (same q.raw_key) ∙ h.0.0 k, h.0.1),
    HourLimited-served l p key n e qs h.1,
  )
    where
      same : (raw : String) → match_rule glob (served l p) raw ≡ match_rule glob l raw
      same raw =
          match_rule-config glob l (served l p) raw (config-allow glob l p.raw_key p.key_hash p.now)

  tally-add : (v : Verdict) (c m : ℕ) → tally v c + m ≡ c + tally v m
  tally-add allowed c m = omega arith
  tally-add (limited d) c m = refl
  tally-add panicked c m = refl

  live_minute_bound :
      (l : Limiter) (key : String) (qs : List Request) (c n : ℕ) (e : Time)
      → 0 < n
      → n ≤ 9223372036854775807
      → c ≤ n
      → Stored l.minute_counters key c e
      → MinuteLimited l key n e qs
      → c + admitted l key qs ≤ n
  unfolding admitted
  live_minute_bound l key [] c n e p b h s m = omega arith
  live_minute_bound l key (q ∷ qs) c n e p b h s m = elim (Bool-cases (str_eq q.key_hash key)) [
    | inl same ↦
        let k : q.key_hash ≡ key = (eq_iff q.key_hash key).0 same in
        let s' : Stored l.minute_counters q.key_hash c e = rw k s in
        let (stored, room) =
          allow-minute glob l q.raw_key q.key_hash q.now c n e (m.0.0 k) p b h
            (current-live l.minute_counters q.key_hash q.now minute _ s' m.0.1) in
        let rest =
          live_minute_bound (served l q) key qs (tally (verdict l q) c) n e p b room
            (rw (← k) stored) (MinuteLimited-served l q key n e qs m.1) in
        rw same (omega (arith, rest, tally-add (verdict l q) c (admitted (served l q) key qs)))
    | inr other ↦
        let apart =
          allow_ne glob l q.raw_key q.key_hash key q.now
            (λ k. ground (arith, eq_iff q.key_hash key)) in
        rw other (
          live_minute_bound (served l q) key qs c n e p b h (apart.0 ∙ s)
            (MinuteLimited-served l q key n e qs m.1))
  ]

  -- Take a request and any requests after it, under its key or others. If every request under
  -- its key has the minute limit `n` >= 1 and none comes after the end of the window in which the
  -- first one falls, then what that window had counted before and the requests under the key that
  -- are allowed make at most `n`.
  pub minute_bound :
      (l : Limiter) (q : Request) (qs : List Request) (c n : ℕ) (e : Time)
      → 0 < n
      → n ≤ 9223372036854775807
      → c ≤ n
      → current l.minute_counters q.key_hash q.now minute ≡ record { count = pos c; window_end = e }
      → MinuteLimited l q.key_hash n e (q ∷ qs)
      → c + admitted l q.key_hash (q ∷ qs) ≤ n
  unfolding admitted
  minute_bound l q qs c n e p b h w m =
      let (stored, room) =
        allow-minute glob l q.raw_key q.key_hash q.now c n e (m.0.0 refl) p b h w in
      let rest =
        live_minute_bound (served l q) q.key_hash qs (tally (verdict l q) c) n e p b room stored
          (MinuteLimited-served l q q.key_hash n e qs m.1) in
      rw ((eq_iff q.key_hash q.key_hash).1 refl)
        (omega (arith, rest, tally-add (verdict l q) c (admitted (served l q) q.key_hash qs)))

  -- In the same way no more than the hour limit pass while a stored window of the hour lasts.
  pub hour_bound :
      (l : Limiter) (key : String) (qs : List Request) (c n : ℕ) (e : Time)
      → 0 < n
      → n ≤ 9223372036854775807
      → c ≤ n
      → Stored l.hour_counters key c e
      → HourLimited l key n e qs
      → c + admitted l key qs ≤ n
  unfolding admitted
  hour_bound l key [] c n e p b h s m = omega arith
  hour_bound l key (q ∷ qs) c n e p b h s m = elim (Bool-cases (str_eq q.key_hash key)) [
    | inl same ↦
        let k : q.key_hash ≡ key = (eq_iff q.key_hash key).0 same in
        let s' : Stored l.hour_counters q.key_hash c e = rw k s in
        let (stored, room) =
          allow-hour glob l q.raw_key q.key_hash q.now c n e (m.0.0 k) p b h s' m.0.1 in
        let rest =
          hour_bound (served l q) key qs (tally (verdict l q) c) n e p b room (rw (← k) stored)
            (HourLimited-served l q key n e qs m.1) in
        rw same (omega (arith, rest, tally-add (verdict l q) c (admitted (served l q) key qs)))
    | inr other ↦
        let apart =
          allow_ne glob l q.raw_key q.key_hash key q.now
            (λ k. ground (arith, eq_iff q.key_hash key)) in
        rw other (
          hour_bound (served l q) key qs c n e p b h (apart.1 ∙ s)
            (HourLimited-served l q key n e qs m.1))
  ]
