-- ===== src/Scheduler.antt =====
-- internal/scheduler/backfill.go: the vocabulary of a run. The steps are in the modules below.
pub mod Start
pub mod Batch
pub mod Backfill
pub mod Entry
pub mod Heartbeat
pub mod Live
use fx_rates.Prelude.{ℕ, Bool, true, false, Text, codes, List, [], Option, ◌||◌, text_eq}
use fx_rates.Clock.{Time}
use fx_rates.Number.{ℤ}

-- `Options`, without the interval of the heartbeat logs.
pub record Options : Type 0 where
  pub debug : Bool
  pub daily_sync : Bool
  pub daily_sync_lookback : ℤ

-- The status constants.
pub data Status : Type 0 where
  success empty error unavailable up_to_date interrupted : Status

abbrev pub status_text : Status → Text
status_text success = codes "success"
status_text empty = codes "empty"
status_text error = codes "error"
status_text unavailable = codes "unavailable"
status_text up_to_date = codes "up_to_date"
status_text interrupted = codes "interrupted"

-- `BackfillResult`; `status` is none before one is set.
pub record BackfillResult : Type 0 where
  pub provider : Text
  pub fetched : ℕ
  pub inserted : ℕ
  pub skipped : ℕ
  pub status : Option Status
  pub error : Text
  pub unavailable : Bool
  pub last_synced_before : Option Time
  pub last_synced_after : Option Time

-- `ExcludedQuotes`
unfoldable pub is_excluded : Text → Bool
is_excluded code = text_eq code (codes "XDR")

-- `mode` of the records and metrics of a run
abbrev pub mode_text : Bool → Text
mode_text daily_sync = elim daily_sync [ true ↦ codes "daily_sync" | false ↦ codes "full" ]
