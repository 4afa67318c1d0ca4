-- ===== src/Scheduler/Start.antt =====
-- Where a run starts: `getStartDate`, `isUpToDate`, `startFrom`, `adjustStartForMode` and the
-- helpers on pointers to times.
use fx_rates.Prelude.{
  ℕ, zero, suc, ◌+◌, ◌≤◌, ◌≡◌, ◌≢◌, Bool, true, false, not, ◌||◌, Option, none, some, arith, Text,
  codes, [], ◌++◌, if◌then◌else◌, ◌*◌,
}
use fx_rates.Clock.{Time, day, zero_time, is_zero, before, after, sub_days}
use fx_rates.Clock.Civil.{format_date}
use fx_rates.Number.{ℤ, pos, negsuc, decimal}

-- `cloneTimePtr`: a copy of the value, which the model does not tell from it.
abbrev pub clone_time_ptr : Option Time → Option Time
clone_time_ptr none = none
clone_time_ptr (some t) = some t

-- `maxTimePtr`
unfoldable pub max_time_ptr : Option Time → Option Time → Option Time
max_time_ptr current none = clone_time_ptr current
max_time_ptr none (some candidate) = some candidate
max_time_ptr (some current) (some candidate) =
    if after candidate current then some candidate else some current

-- `getStartDate`
unfoldable pub get_start_date : Option Time → Option Time → Option Time
get_start_date coverage_start (some last_synced) = some last_synced
get_start_date coverage_start none = coverage_start

-- `isUpToDate`
unfoldable pub is_up_to_date : Option Time → Time → Bool
is_up_to_date none today = false
is_up_to_date (some after) today = not (before after today)

-- `startFrom`
unfoldable pub start_from : Option Time → Time
start_from none = zero_time
start_from (some after) = after

-- `adjustStartForMode`: the start and the note.
unfoldable pub adjust_start_for_mode : Time → Time → Bool → ℤ → Time × Text
adjust_start_for_mode start today false lookback_days = (start, [])
adjust_start_for_mode start today true (negsuc n) = (start, [])
adjust_start_for_mode start today true (pos zero) = (start, [])
adjust_start_for_mode start today true (pos (suc n)) =
    let floor = sub_days today (suc n) in
    if is_zero start || before start floor
    then (
      floor,
      codes "daily_sync: capped to last "
          ++ (decimal (suc n) ++ (codes " days (floor=" ++ (format_date floor ++ codes ")"))),
    )
    else (start, [])

-- The order of pointers to times in which nil is below every time.
abbrev pub LePtr : Option Time → Option Time → Type 0
LePtr none q = Unit
LePtr (some t) none = ⊥
LePtr (some t) (some u) = t ≤ u

pub LePtr-refl : (p : Option Time) → LePtr p p
LePtr-refl none = tt
LePtr-refl (some t) = omega arith

-- `maxTimePtr` is the least upper bound.
pub max_time_ptr-is_lub :
    (p q r : Option Time)
    → LePtr p (max_time_ptr p q)
      × LePtr q (max_time_ptr p q)
      × (LePtr p r → LePtr q r → LePtr (max_time_ptr p q) r)
unfolding max_time_ptr
max_time_ptr-is_lub p q r = ground arith

-- In daily_sync mode with a cap of at least one day the run starts no earlier than that many days
-- before today and no earlier than asked; a start within the cap stays as it is.
pub adjust_start_floor :
    (start today : Time) (n : ℕ)
    → suc n * day ≤ today
    → let start' = (adjust_start_for_mode start today true (pos (suc n))).0 in
      (today ≤ start' + suc n * day)
      × (start ≢ zero_time → start ≤ start')
      × (start ≢ zero_time → today ≤ start + suc n * day → start' ≡ start)
unfolding adjust_start_for_mode
adjust_start_floor start today n h = ground arith
