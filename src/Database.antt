-- ===== src/Database.antt =====
-- The rows of the tables (internal/db/migrations, internal/db/sqlcgen/models.go), and what one
-- statement does to them (the SQL of internal/db/queries.sql and internal/db/sqlcgen). Postgres
-- itself is not modelled: a statement is a function of the tables, and may fail (World).
pub mod Dates
pub mod Rates
pub mod Providers
pub mod Currencies
pub mod Runs
use fx_rates.Prelude.{ℕ, Text, List, [], Option}
use fx_rates.Clock.{Time}
use fx_rates.Number.{ℤ}
use Dates.{Date}

-- `rates`, of which (provider, date, base, quote) is the key.
pub record Rate (F : Type 0) : Type 0 where
  pub date : Time
  pub base : Text
  pub quote : Text
  pub rate : F
  pub provider : Text

-- `providers`, of which `key` is the key.
pub record Provider : Type 0 where
  pub key : Text
  pub name : Text
  pub country_code : Option Text
  pub rate_type : Option Text
  pub pivot_currency : Option Text
  pub data_url : Option Text
  pub terms_url : Option Text
  pub publish_time : Option ℤ
  pub publish_days : Option Text
  pub coverage_start : Date

-- `currencies`, of which `iso_code` is the key.
pub record Currency : Type 0 where
  pub iso_code : Text
  pub start_date : Date
  pub end_date : Date

-- `currency_coverages`, of which (provider_key, iso_code) is the key.
pub record CurrencyCoverage : Type 0 where
  pub provider_key : Text
  pub iso_code : Text
  pub start_date : Date
  pub end_date : Date

-- `sync_runs`; the rows are numbered by `id` in the order of insertion.
pub record SyncRun : Type 0 where
  pub id : ℕ
  pub provider : Text
  pub mode : Text
  pub status : Text
  pub started_at : Time
  pub finished_at : Time
  pub rows_fetched : ℤ
  pub rows_inserted : ℤ
  pub rows_skipped : ℤ
  pub error_message : Option Text

pub record Db (F : Type 0) : Type 0 where
  pub rates : List (Rate F)
  pub providers : List Provider
  pub currencies : List Currency
  pub coverages : List CurrencyCoverage
  pub runs : List SyncRun

abbrev pub empty_db : {F : Type 0} → Db F
empty_db = record { rates = []; providers = []; currencies = []; coverages = []; runs = [] }
