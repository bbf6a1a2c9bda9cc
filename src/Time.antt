-- ===== src/Time.antt =====
-- Instants and spans of Go's package `time`, as far as the program uses them: a `time.Time` is its
-- distance in nanoseconds from the zero Time, and a `time.Duration` a count of nanoseconds.
use uptime_monitor.Prelude.{Bool, ℤ, pos, negsuc, ◌-ℤ◌, ◌≤ℤ◌, ltb_ℤ, if◌then◌else◌, not, arith}

abbrev pub Time : Type 0
Time = ℤ

abbrev pub Duration : Type 0
Duration = ℤ

-- `time.Time{}`, of which `IsZero` holds.
abbrev pub zero_time : Time
zero_time = pos 0

-- The bounds of int64.
abbrev pub max_duration : Duration
max_duration = pos 9223372036854775807

abbrev pub min_duration : Duration
min_duration = negsuc 9223372036854775807

-- `t.Sub(u)`: the difference, or the nearest Duration where it does not fit.
unfoldable pub sub : Time → Time → Duration
sub t u =
    let d = t -ℤ u in
    if ltb_ℤ max_duration d then max_duration else if ltb_ℤ d min_duration then min_duration else d

-- `a >= b` on durations.
abbrev pub geb : Duration → Duration → Bool
geb a b = not (ltb_ℤ a b)

pub sub_mono : (t u v : Time) → u ≤ℤ v → sub t v ≤ℤ sub t u
unfolding sub
sub_mono t u v h = ground arith
