-- ===== src/Database/Dates.antt =====
-- `pgtype.Date`, a DATE that may be NULL, and the conversions of internal/db/sqlcgen/extras.go.
use fx_rates.Prelude.{
  List, [], ◌∷◌, ◌≡◌, Bool, true, false, Option, none, some, ltb, if◌then◌else◌, refl,
}
use fx_rates.Clock.{Time, zero_time}

pub record Date : Type 0 where
  pub time : Time
  pub valid : Bool

-- `pgtype.Date{Valid: false}`
abbrev pub null_date : Date
null_date = record { time = zero_time; valid = false }

-- `DateToTimePtr`
abbrev pub date_to_time_ptr : Date → Option Time
date_to_time_ptr d = if d.valid then some d.time else none

-- `TimeToDate`
abbrev pub time_to_date : Time → Date
time_to_date t = record { time = t; valid = true }

-- `TimePtrToDate`
abbrev pub time_ptr_to_date : Option Time → Date
time_ptr_to_date none = null_date
time_ptr_to_date (some t) = time_to_date t

-- `LEAST(d, e)` and `GREATEST(d, e)` of SQL, which ignore NULL.
abbrev pub least : Date → Date → Date
least d e = if d.valid then (if e.valid then (if ltb e.time d.time then e else d) else d) else e

abbrev pub greatest : Date → Date → Date
greatest d e = if d.valid then (if e.valid then (if ltb d.time e.time then e else d) else d) else e

-- `MIN(date)` and `MAX(date)` over the dates of some rows: NULL if there are none.
abbrev pub minimum : List Time → Date
minimum [] = null_date
minimum (t ∷ ts) = least (time_to_date t) (minimum ts)

abbrev pub maximum : List Time → Date
maximum [] = null_date
maximum (t ∷ ts) = greatest (time_to_date t) (maximum ts)

-- A pointer to a time survives the way into a date and back.
pub date_to_time_ptr-time_ptr_to_date :
    (p : Option Time) → date_to_time_ptr (time_ptr_to_date p) ≡ p
date_to_time_ptr-time_ptr_to_date none = refl
date_to_time_ptr-time_ptr_to_date (some t) = refl
