-- ===== src/Clock.antt =====
-- `time.Time` in UTC, as the program uses it. Like Go, an instant is counted from an absolute zero
-- far before year 1 (January 1 of the year -292277022399); here the unit is the nanosecond.
pub mod Civil
use fx_rates.Prelude.{ℕ, ◌+◌, ◌-◌, ◌*◌, ◌/◌, ◌%◌, ◌^◌, ◌≤◌, ◌≡◌, refl, Bool, arith, ltb, ◌==◌}

abbrev pub Time : Type 0
Time = ℕ

-- 24 * time.Hour
abbrev pub day : ℕ
day = 86400 * 10 ^ 9

-- `time.Time{}`, January 1 of year 1: 730692556 periods of 400 years after the absolute zero.
unfoldable pub zero_time : Time
zero_time = 730692556 * 146097 * day

-- `t.IsZero()`
abbrev pub is_zero : Time → Bool
is_zero t = t == zero_time

-- `t.Before(u)`, `t.After(u)`
abbrev pub before : Time → Time → Bool
before t u = ltb t u

abbrev pub after : Time → Time → Bool
after t u = ltb u t

-- `t.AddDate(0, 0, n)` and `t.AddDate(0, 0, -n)`, in UTC, where every day has 24 hours.
abbrev pub add_days : Time → ℕ → Time
add_days t n = t + n * day

abbrev pub sub_days : Time → ℕ → Time
sub_days t n = t - n * day

-- `t.Truncate(24 * time.Hour)` rounds down to a multiple of the day since the zero time, which is
-- itself a whole number of days.
abbrev pub truncate_day : Time → Time
truncate_day t = t - t % day

-- `t.Unix()`: the seconds since January 1 of 1970, an instant that the program never precedes.
abbrev pub unix_epoch : Time
unix_epoch = (730692556 * 146097 + 719162) * day

abbrev pub unix : Time → ℕ
unix t = (t - unix_epoch) / 10 ^ 9

zero_time_is_midnight : zero_time % day ≡ 0
unfolding zero_time
zero_time_is_midnight = refl

-- `Truncate` measured from the zero time is the same function.
pub truncate_day_from_zero : (t : Time) → zero_time ≤ t → truncate_day t ≡ t - (t - zero_time) % day
unfolding zero_time
truncate_day_from_zero t h = omega arith
