-- ===== src/Config.antt =====
-- internal/config/config.go. `envconfig.Process` and `time.ParseDuration` are parameters.
pub mod DotEnv
pub mod Examples
pub mod Url
pub mod Valid
use fx_rates.Prelude.{ℕ, ◌*◌, ◌^◌, Bool, ◌||◌, Text, codes, [], ◌∷◌, ◌++◌, text_eq, if◌then◌else◌}
use fx_rates.Number.{ℤ, pos}
use fx_rates.Errors.{Error, Result, ok, err, other}
use fx_rates.Strings.{trim_space, to_lower}

-- `Config`; a `time.Duration` counts nanoseconds.
pub record Config : Type 0 where
  pub database_url : Text
  pub db_user : Text
  pub db_password : Text
  pub db_name : Text
  pub db_host : Text
  pub db_port : Text
  pub db_ssl_mode : Text
  pub db_max_conns : ℤ
  pub db_min_conns : ℤ
  pub db_max_conn_lifetime : ℤ
  pub db_max_conn_idle_time : ℤ
  pub db_health_check_period : ℤ
  pub debug : Bool
  pub sync_mode : Text
  pub daily_sync_timeout : Text
  pub debug_heartbeat : Text
  pub run_migrations : Bool
  pub log_level : Text
  pub daily_sync_lookback : ℤ

-- The labels of the two `switch` statements of `Load`.
abbrev pub is_known_mode : Text → Bool
is_known_mode mode =
    text_eq mode [] || text_eq mode (codes "full") || text_eq mode (codes "daily_sync")

abbrev pub is_known_level : Text → Bool
is_known_level level =
    text_eq level []
    || text_eq level (codes "debug")
    || text_eq level (codes "info")
    || text_eq level (codes "warn")
    || text_eq level (codes "warning")
    || text_eq level (codes "error")

abbrev pub checked_level : Config → Result Config
checked_level cfg =
    if is_known_level cfg.log_level
    then ok cfg
    else err (other (codes "LOG_LEVEL must be one of: debug, info, warn, error"))

abbrev pub checked_mode : Config → Result Config
checked_mode cfg =
    if is_known_mode cfg.sync_mode
    then checked_level (record cfg { log_level = to_lower (trim_space cfg.log_level) })
    else err (other (codes "SYNC_MODE must be one of: full, daily_sync"))

-- From the database URL on.
abbrev pub with_url : Config → Result Text → Result Config
with_url cfg (err e) = err e
with_url cfg (ok url) =
    checked_mode
      (record cfg { database_url = url; sync_mode = to_lower (trim_space cfg.sync_mode) })

-- `IsDailySync`
unfoldable pub is_daily_sync : Config → Bool
is_daily_sync cfg = text_eq cfg.sync_mode (codes "daily_sync")

abbrev second : ℕ
second = 10 ^ 9

module _ (parse_duration : Text → Result ℤ) where
  -- `DailySyncTimeoutDuration`
  unfoldable pub daily_sync_timeout_duration : Config → Result ℤ
  unfolding is_daily_sync
  daily_sync_timeout_duration cfg =
      if text_eq (trim_space cfg.daily_sync_timeout) []
      then (if is_daily_sync cfg then ok (pos (30 * 60 * second)) else ok (pos (6 * 3600 * second)))
      else parse_duration cfg.daily_sync_timeout

  -- `DebugHeartbeatDuration`
  unfoldable pub debug_heartbeat_duration : Config → Result ℤ
  debug_heartbeat_duration cfg =
      if text_eq (trim_space cfg.debug_heartbeat) []
      then ok (pos (20 * second))
      else parse_duration cfg.debug_heartbeat

-- `slog.Level`
pub data Level : Type 0 where
  debug_level info_level warn_level error_level : Level

-- `SlogLevel`
unfoldable pub slog_level : Config → Level
slog_level cfg =
    if text_eq cfg.log_level (codes "debug")
    then debug_level
    else if text_eq cfg.log_level (codes "warn") || text_eq cfg.log_level (codes "warning")
    then warn_level
    else if text_eq cfg.log_level (codes "error")
    then error_level
    else info_level

-- `LogValue`: all that a log line of a configuration shows.
abbrev log_value : Config → ℤ × Bool × Bool
log_value cfg = (cfg.db_max_conns, cfg.debug, cfg.run_migrations)
