-- ===== src/Main.antt =====
-- main.go: the exit code of the job.
pub mod Exit
pub mod Run
use fx_rates.Prelude.{ℕ, Bool, true, false, Option, none, some}
use fx_rates.Number.{ℤ, pos}
use fx_rates.Errors.{Error}
use fx_rates.Scheduler.{Options}

-- `resolveExitCode`
unfoldable pub resolve_exit_code : Bool → Option Error → ℕ
resolve_exit_code true run_err = 130
resolve_exit_code false (some e) = 1
resolve_exit_code false none = 0

-- The options that `run` hands to the scheduler: a lookback only in daily_sync mode.
abbrev pub job_options : Bool → Bool → ℤ → Options
job_options debug daily_sync lookback = record {
  debug = debug;
  daily_sync = daily_sync;
  daily_sync_lookback = elim daily_sync [ true ↦ lookback | false ↦ pos 0 ];
}
