-- ===== src/Base/Clock.antt =====
-- Package time: instants are nanoseconds since Go's zero time, durations are `int64` nanoseconds.
use Prim.Native.Nat.{◌/◌}
use mathlib.Core.Bool.{Bool}
use agent_ledger.Base.Tests.{if◌then◌else◌}
use agent_ledger.Base.Int.{
  ℤ, pos, ◌+ℤ◌, ◌-ℤ◌, ltb_ℤ, max_int64, min_int64, sub_ℕ, pos_part, neg_part,
}

abbrev pub Time : Type 0
Time = ℤ

abbrev pub Duration : Type 0
Duration = ℤ

-- t.Before(u), t.After(u)
abbrev pub before : Time → Time → Bool
before t u = ltb_ℤ t u

abbrev pub after : Time → Time → Bool
after t u = ltb_ℤ u t

-- t.Add(d)
abbrev pub add : Time → Duration → Time
add t d = t +ℤ d

-- t.Sub(u), which saturates; time.Since(u) is `sub now u`.
unfoldable pub sub : Time → Time → Duration
unfolding ◌-ℤ◌
sub t u =
    let d = t -ℤ u in
    if ltb_ℤ max_int64 d then max_int64 else if ltb_ℤ d min_int64 then min_int64 else d

abbrev pub second : Duration
second = pos 1000000000

abbrev pub minute : Duration
minute = pos 60000000000

abbrev pub hour : Duration
hour = pos 3600000000000

-- d.Milliseconds(), rounded toward zero.
unfoldable pub milliseconds : Duration → ℤ
milliseconds d = sub_ℕ (pos_part d / 1000000) (neg_part d / 1000000)
