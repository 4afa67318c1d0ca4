-- ===== src/Clock/Civil.antt =====
-- `t.Format("2006-01-02")` and `time.Parse("2006-01-02", s)`: the Gregorian calendar, by the
-- arithmetic of Go's `time` package on days since the absolute zero.
use fx_rates.Prelude.{
  ℕ, zero, suc, ◌+◌, ◌-◌, ◌*◌, ◌/◌, ◌%◌, ◌≡◌, refl, Bool, not, ◌&&◌, ◌||◌, Text, codes, List, [],
  ◌∷◌, ◌++◌, Option, none, some, leb, ltb, ◌==◌, if◌then◌else◌,
}
use fx_rates.Clock.{Time, day}
use fx_rates.Number.{decimal, is_digit}

-- The years from the absolute zero to January 1 of year 1.
abbrev years_before_one : ℕ
years_before_one = 292_277_022_400

-- A year counted from the absolute zero is a leap year.
abbrev pub is_leap : ℕ → Bool
is_leap y = ((y + 1) % 4 == 0) && (not ((y + 1) % 100 == 0) || ((y + 1) % 400 == 0))

-- The years since the absolute zero, and the day of the year from 0, by cycles of 400, 100, 4 and
-- 1 years; the last century and the last year of a cycle have one more day.
unfoldable pub year_of_day : ℕ → ℕ × ℕ
year_of_day days =
    let d400 = days % 146097 in
    let n100 = d400 / 36524 - d400 / 36524 / 4 in
    let d100 = d400 - 36524 * n100 in
    let d4 = d100 % 1461 in
    let n1 = d4 / 365 - d4 / 365 / 4 in
    (400 * (days / 146097) + 100 * n100 + 4 * (d100 / 1461) + n1, d4 - 365 * n1)

abbrev pub month_lengths : Bool → List ℕ
month_lengths leap =
    31 ∷ (if leap then 29 else 28) ∷ 31 ∷ 30 ∷ 31 ∷ 30 ∷ 31 ∷ 31 ∷ 30 ∷ 31 ∷ 30 ∷ 31 ∷ []

-- The month and the day of the month, both from 1, of a day in the months that are left.
month_from : ℕ → List ℕ → ℕ → ℕ × ℕ
month_from m [] d = (m, d + 1)
month_from m (n ∷ ns) d =
    let rest = month_from (m + 1) ns (d - n) in if ltb d n then (m, d + 1) else rest

abbrev two_digits : ℕ → Text
two_digits n = (b'0' + n / 10 % 10) ∷ (b'0' + n % 10) ∷ []

abbrev four_digits : ℕ → Text
four_digits n =
    if leb 10000 n then decimal n else (b'0' + n / 1000) ∷ (b'0' + n / 100 % 10) ∷ two_digits n

-- A year before year 1, which the program does not meet, prints as year 0.
unfoldable pub format_date : Time → Text
unfolding year_of_day month_from decimal
format_date t =
    let (y, d) = year_of_day (t / day) in
    let (month, dom) = month_from 1 (month_lengths (is_leap y)) d in
    four_digits (y + 1 - years_before_one) ++ (b'-' ∷ (two_digits month ++ (b'-' ∷ two_digits dom)))

-- The days before a month, which counts from 0.
days_before_month : List ℕ → ℕ → ℕ
days_before_month [] m = 0
days_before_month (n ∷ ns) zero = 0
days_before_month (n ∷ ns) (suc m) = n + days_before_month ns m

-- The length of a month, which counts from 0.
month_length : List ℕ → ℕ → ℕ
month_length [] m = 0
month_length (n ∷ ns) zero = n
month_length (n ∷ ns) (suc m) = month_length ns m

-- The days before a year, both from the absolute zero.
abbrev pub days_before_year : ℕ → ℕ
days_before_year y = 365 * y + y / 4 - y / 100 + y / 400

abbrev digit : ℕ → ℕ
digit c = c - b'0'

-- A date from its numbers, or an error where the month or the day is out of range.
unfoldable pub date_of : ℕ → ℕ → ℕ → Option Time
unfolding days_before_month month_length
date_of year month dom =
    let y = year + years_before_one - 1 in
    let lengths = month_lengths (is_leap y) in
    if leb 1 month && leb month 12 && leb 1 dom && leb dom (month_length lengths (month - 1))
    then some ((days_before_year y + days_before_month lengths (month - 1) + (dom - 1)) * day)
    else none

unfoldable pub parse_date : Text → Option Time
unfolding date_of
parse_date (a ∷ b ∷ c ∷ d ∷ s ∷ e ∷ f ∷ t ∷ g ∷ h ∷ []) =
    if is_digit a
      && is_digit b
      && is_digit c
      && is_digit d
      && (s == b'-')
      && is_digit e
      && is_digit f
      && (t == b'-')
      && is_digit g
      && is_digit h
    then date_of (digit a * 1000 + digit b * 100 + digit c * 10 + digit d) (digit e * 10 + digit f)
        (digit g * 10 + digit h)
    else none
parse_date _ = none

format_unix_epoch : format_date ((730692556 * 146097 + 719162) * day) ≡ codes "1970-01-01"
unfolding format_date
format_unix_epoch = refl

parse_leap_day : parse_date (codes "2024-02-29") ≡ some ((730692556 * 146097 + 738944) * day)
unfolding parse_date
parse_leap_day = refl

parse_no_leap_day : parse_date (codes "2023-02-29") ≡ none
unfolding parse_date
parse_no_leap_day = refl

format_leap_day : format_date ((730692556 * 146097 + 738944) * day) ≡ codes "2024-02-29"
unfolding format_date
format_leap_day = refl
