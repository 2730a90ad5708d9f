-- ===== src/RateLimit/Examples.antt =====
-- A limiter at work. The patterns here have no metacharacters, where filepath.Match is equality.
use agent_ledger.Base.{
  ◌+◌, ◌≤◌, ◌≡◌, refl, pos, List, [], ◌∷◌, ◌++◌, arith, str_eq, add64, replicate, add64,
}
use agent_ledger.Base.GoMap
use agent_ledger.Base.Clock.{minute, add, Time}
use agent_ledger.RateLimit.{
  Config, Limiter, admit, check_limit, count_request, allow, match_rule, evict_expired,
}
use agent_ledger.RateLimit.Windows.{current-live}
use agent_ledger.RateLimit.Runs.{Request, admitted, minute_bound}
use agent_ledger.RateLimit.Burst.{passed, boundary_burst}
use agent_ledger.RateLimit.Eviction.{allow-evict_expired}

abbrev settings : Config
settings = record {
  default_rule = record {
    api_key_pattern = "";
    requests_per_minute = pos 2;
    requests_per_hour = pos 0;
  };
  rules =
      record {
        api_key_pattern = "sk-batch";
        requests_per_minute = pos 0;
        requests_per_hour = pos 3;
      }
      ∷ [];
}

abbrev fresh : Limiter
fresh = record { config = settings; minute_counters = []; hour_counters = [] }

abbrev busy : Limiter
busy = record {
  config = settings;
  minute_counters = ("h1", record { count = pos 1; window_end = pos 70000000000 }) ∷ [];
  hour_counters = ("h2", record { count = pos 2; window_end = pos 90000000000 }) ∷ [];
}

second_limited :
    (allow str_eq busy "sk-batch" "h2" (pos 5)).0.hour_counters
    ≡ ("h2", record { count = pos 3; window_end = pos 90000000000 }) ∷ []
unfolding allow match_rule admit check_limit count_request GoMap.get GoMap.put add64
second_limited = refl

abbrev mixed : List Request
mixed =
    record { raw_key = "sk-b"; key_hash = "h3"; now = pos 12 }
    ∷ record { raw_key = "sk-a"; key_hash = "h1"; now = pos 13 }
    ∷ []

minute_bound_example :
    1
      + admitted str_eq busy "h1"
          (record { raw_key = "sk-a"; key_hash = "h1"; now = pos 11 } ∷ mixed)
    ≤ 2
unfolding match_rule GoMap.get
minute_bound_example =
    minute_bound str_eq busy (record { raw_key = "sk-a"; key_hash = "h1"; now = pos 11 }) mixed 1 2
      (pos 70000000000) (omega arith) (omega arith) (omega arith)
      (current-live busy.minute_counters "h1" (pos 11) minute _ refl (omega arith))
      ((λ e. refl, omega arith), ((λ e. refl, omega arith), ((λ e. refl, omega arith), tt)))

abbrev open_at : Time
open_at = pos 100

boundary_burst_example :
    let last : Time = add open_at minute in
    passed str_eq "sk-a" "h1" fresh (open_at ∷ replicate 1 last ++ replicate 2 (add last (pos 1)))
    ≡ 4
unfolding match_rule GoMap.get
boundary_burst_example =
    boundary_burst str_eq "sk-a" "h1" fresh open_at 1
      (record {
        per_minute = refl;
        per_hour = omega arith;
        some_room = omega arith;
        in_range = omega arith;
      })
      refl

allow-evict_expired_example :
    (allow str_eq (evict_expired busy (pos 80000000000)) "sk-a" "h1" (pos 90000000000)).1
    ≡ (allow str_eq busy "sk-a" "h1" (pos 90000000000)).1
allow-evict_expired_example =
    allow-evict_expired str_eq busy (pos 80000000000) (pos 90000000000) "sk-a" "h1" (tt, tt)
      (tt, tt) (omega arith)
