-- ===== src/Common/Clock.antt =====
-- Go's time.Time and time.Duration in nanoseconds. An instant is read off the clock and handed to
-- the operation that reads it; a duration is an int64, and a difference of instants saturates.
use mathlib.Core.Bool.{Bool}
use wazuh_operator.Common.Tests.{if◌then◌else◌}
use wazuh_operator.Common.Int.{ℤ, pos, negsuc, ◌+ℤ◌, ◌-ℤ◌, ltb_ℤ}

-- Nanoseconds from Go's zero instant, the start of year 1.
abbrev pub Time : Type 0
Time = ℤ

abbrev pub Duration : Type 0
Duration = ℤ

abbrev pub max_duration : Duration
max_duration = pos 9223372036854775807

abbrev pub min_duration : Duration
min_duration = negsuc 9223372036854775807

-- `t.Sub(u)`, and `time.Since(u)` at the instant t.
unfoldable pub sub_time : Time → Time → Duration
sub_time t u =
    let d = t -ℤ u in
    if ltb_ℤ max_duration d then max_duration else if ltb_ℤ d min_duration then min_duration else d

-- `t.Add(d)`.
unfoldable pub add_time : Time → Duration → Time
add_time t d = t +ℤ d

-- `t.After(u)`.
abbrev pub after : Time → Time → Bool
after t u = ltb_ℤ u t

-- `time.Time{}`.
abbrev pub zero_time : Time
zero_time = pos 0

abbrev pub hour : Duration
hour = pos 3600000000000

abbrev pub second : Duration
second = pos 1000000000

abbrev pub minute : Duration
minute = pos 60000000000
