-- ===== src/RateLimit/Windows.antt =====
-- What a call of the limiter does to one map of windows, the minutes' or the hours'.
use agent_ledger.Base.{
  ℕ, suc, ◌<◌, ◌≤◌, ℤ, pos, ◌≤ℤ◌, ◌<ℤ◌, ◌≡◌, ◌≢◌, sym, ◌∙◌, ap, inl, inr, String, Option, none,
  some, arith, ltb_ℤ, leb_ℤ, add64, if◌then◌else◌, Option-cases,
}
use agent_ledger.Base.GoMap
use agent_ledger.Base.Clock.{Time, Duration, after, add, sub}
use agent_ledger.RateLimit.{
  Window, Counters, get_or_create_window, check_limit, increment, count_request,
}

-- The window that holds at `now`: the stored one while it lasts, else a new one.
pub current : Counters → String → Time → Duration → Window
unfolding get_or_create_window
current counters key now duration = (get_or_create_window counters key now duration).0

-- A call that passes the check finds its window in the map, with room below the limit.
pub check_limit-none :
    (limit : ℤ) (counters : Counters) (key : String) (now : Time) (d : Duration)
    → pos 0 <ℤ limit
    → (check_limit limit counters key now d).1 ≡ none
    → (GoMap.get (check_limit limit counters key now d).0 key ≡ some (current counters key now d))
      × ((current counters key now d).count <ℤ limit)
unfolding check_limit current
check_limit-none limit counters key now d p e =
    ground
      (arith, GoMap.get-put_self counters key (record { count = pos 0; window_end = add now d }))

-- The check and the count of another key's request leave a key's window alone.
pub check_limit_ne :
    (limit : ℤ) (counters : Counters) (key j : String) (now : Time) (d : Duration)
    → key ≢ j
    → GoMap.get (check_limit limit counters key now d).0 j ≡ GoMap.get counters j
unfolding check_limit
check_limit_ne limit counters key j now d ne =
    ground
      (arith, GoMap.get-put_ne counters key j (record { count = pos 0; window_end = add now d }))

-- The window of a key that has one, while it lasts.
pub current-live :
    (counters : Counters) (key : String) (now : Time) (d : Duration) (w : Window)
    → GoMap.get counters key ≡ some w
    → now ≤ℤ w.window_end
    → current counters key now d ≡ w
unfolding current get_or_create_window
current-live counters key now d w e h = ground arith

-- A check that refuses has left the current window in the map too.
pub check_limit-get :
    (limit : ℤ) (counters : Counters) (key : String) (now : Time) (d : Duration)
    → pos 0 <ℤ limit
    → GoMap.get (check_limit limit counters key now d).0 key ≡ some (current counters key now d)
unfolding check_limit current
check_limit-get limit counters key now d p =
    ground
      (arith, GoMap.get-put_self counters key (record { count = pos 0; window_end = add now d }))

count_up : (c : ℕ) → c < 9223372036854775807 → add64 (pos c) (pos 1) ≡ pos (suc c)
unfolding add64
count_up c h = ground arith

-- A stored window with a given count and end.
abbrev pub Stored : Counters → String → ℕ → Time → Type 0
Stored counters key c e = GoMap.get counters key ≡ some (record { count = pos c; window_end = e })

increment-Stored :
    (counters : Counters) (key : String) (c : ℕ) (e : Time)
    → c < 9223372036854775807
    → Stored counters key c e
    → (after_ : Counters) × (increment counters key ≡ some after_) × Stored after_ key (suc c) e
unfolding increment
increment-Stored counters key c e h g = (
  GoMap.put counters key (record { count = pos (suc c); window_end = e }),
  rw (g, increment, count_up c h),
  GoMap.get-put_self counters key (record { count = pos (suc c); window_end = e }),
)

-- One tier of a call, for a positive limit `n` and a current window that has counted `c`: either
-- the check refuses and the window is stored as it was, or there was room and the count goes up.
pub data Tier (limit : ℤ) (counters : Counters) (key : String) (now : Time) (d : Duration) (c n : ℕ)
    (e : Time) : Type 0 where
  refuses :
      (wait : Duration)
      → (check_limit limit counters key now d).1 ≡ some wait
      → Stored (check_limit limit counters key now d).0 key c e
      → n ≤ c
      → Tier limit counters key now d c n e
  passes :
      (counted : Counters)
      → (check_limit limit counters key now d).1 ≡ none
      → Stored (check_limit limit counters key now d).0 key c e
      → count_request limit (check_limit limit counters key now d).0 key ≡ some counted
      → Stored counted key (suc c) e
      → c < n
      → Tier limit counters key now d c n e

check_limit-some :
    (limit : ℤ) (counters : Counters) (key : String) (now : Time) (d wait : Duration)
    → (check_limit limit counters key now d).1 ≡ some wait
    → limit ≤ℤ (current counters key now d).count
unfolding check_limit current
check_limit-some limit counters key now d wait e = ground arith

pub tier :
    (limit : ℤ) (counters : Counters) (key : String) (now : Time) (d : Duration) (c n : ℕ)
    (e : Time)
    → limit ≡ pos n
    → 0 < n
    → n ≤ 9223372036854775807
    → current counters key now d ≡ record { count = pos c; window_end = e }
    → Tier limit counters key now d c n e
unfolding count_request
tier limit counters key now d c n e r p b w =
    elim (Option-cases (check_limit limit counters key now d).1) [
      | inr (wait, some_) ↦
          refuses wait some_ stored (ground (arith, check_limit-some limit counters key now d wait))
      | inl none_ ↦
          let (_, room) = check_limit-none limit counters key now d positive none_ in
          let fits : c < n = ground arith in
          let (counted, e₁, e₂) = increment-Stored _ key c e (omega arith) stored in
          passes counted none_ stored (ground arith) e₂ fits
    ]
  where
    positive : pos 0 <ℤ limit
    positive = ground arith

    stored : Stored (check_limit limit counters key now d).0 key c e
    stored = check_limit-get limit counters key now d positive ∙ ap some w

-- What the check leaves can be counted.
pub count_request-ne-none :
    (limit : ℤ) (counters : Counters) (key : String) (now : Time) (d : Duration)
    → (check_limit limit counters key now d).1 ≡ none
    → count_request limit (check_limit limit counters key now d).0 key ≢ none
unfolding count_request increment
count_request-ne-none limit counters key now d e =
    ground
      (arith, check_limit-get limit counters key now d, check_limit-none limit counters key now d)

-- The windows of a key after a count that may fail.
abbrev pub Keeps : Option Counters → Counters → String → Type 0
Keeps none counters j = Unit {0}
Keeps (some counted) counters j = GoMap.get counted j ≡ GoMap.get counters j

-- Counting one key leaves the windows of the others alone.
pub count_request_ne :
    (limit : ℤ) (counters : Counters) (key j : String)
    → key ≢ j
    → Keeps (count_request limit counters key) counters j
unfolding count_request increment
count_request_ne limit counters key j ne = elim (Option-cases (GoMap.get counters key)) [
  | inl m ↦ ground arith
  | inr (w, m) ↦
      ground (arith, GoMap.get-put_ne counters key j (record w { count = add64 w.count (pos 1) }))
]

pub current-expired :
    (counters : Counters) (key : String) (now : Time) (d : Duration) (c : ℕ) (e : Time)
    → Stored counters key c e
    → e <ℤ now
    → current counters key now d ≡ record { count = pos 0; window_end = add now d }
unfolding current get_or_create_window
current-expired counters key now d c e s h = ground arith

pub current-none :
    (counters : Counters) (key : String) (now : Time) (d : Duration)
    → GoMap.get counters key ≡ none
    → current counters key now d ≡ record { count = pos 0; window_end = add now d }
unfolding current get_or_create_window
current-none counters key now d h = ground arith

-- The wait that a check asks for, from the current window alone.
abbrev wait_of : ℤ → Window → Time → Option Duration
wait_of limit w now =
    if ltb_ℤ (pos 0) limit
    then (if leb_ℤ limit w.count then some (sub w.window_end now) else none)
    else none

check_limit-wait_of :
    (limit : ℤ) (counters : Counters) (key : String) (now : Time) (d : Duration)
    → (check_limit limit counters key now d).1 ≡ wait_of limit (current counters key now d) now
unfolding check_limit current
check_limit-wait_of limit counters key now d = ground arith

-- The check reads the map through its current window alone.
pub check_limit-current :
    (limit : ℤ) (counters other : Counters) (key : String) (now : Time) (d : Duration)
    → current counters key now d ≡ current other key now d
    → (check_limit limit counters key now d).1 ≡ (check_limit limit other key now d).1
check_limit-current limit counters other key now d e =
    check_limit-wait_of limit counters key now d
    ∙ ap (λ w. wait_of limit w now) e
    ∙ sym (check_limit-wait_of limit other key now d)

-- Windows that have ended by `now` make no difference from then on.
pub current-delete_where :
    (counters : Counters) (key : String) (now later : Time) (d : Duration)
    → GoMap.Distinct counters
    → now ≤ℤ later
    → current (GoMap.delete_where (λ w. after now w.window_end) counters) key later d
      ≡ current counters key later d
unfolding current get_or_create_window
current-delete_where counters key now later d u h =
    ground (arith, GoMap.get-delete_where (λ w. after now w.window_end) counters key u)
