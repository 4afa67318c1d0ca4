-- ===== src/Lib.antt =====
-- fx-rates: a one-shot job that fetches the exchange rates of the European Central Bank and stores
-- them in Postgres. `BackfillAll` (internal/scheduler) takes the single registered adapter
-- (internal/registry), loads the providers and their last-synced dates (internal/repo), and runs
-- `BackfillProvider`, which lets `FetchEachObserved` (internal/provider) walk windows of days and
-- retry, and hands each batch of records to `processBatch`. A batch is filtered and inserted in one
-- transaction, and the currency summaries are refreshed (internal/repo, internal/db/sqlcgen). At the
-- end of the run an audit row and two metrics are written.
--
-- The files:
-- - Prelude, Sorting, Strings, Scanner, Number: shared names and lemmas, text as a list of bytes,
--   `strings`, `bufio.Scanner`, `strconv`.
-- - Clock and Clock/Civil: `time.Time` in UTC as nanoseconds from Go's absolute zero, and dates.
-- - Float64: `float64` as a parameter, with sample numbers.
-- - Errors: the error values, their messages and what `errors.Is` and `errors.As` find.
-- - Provider: internal/provider/adapter.go. Fetch is `FetchEachObserved` (`fetch_each_observed`) over
--   any state of the environment; its children hold the proofs on retries, termination and invariants,
--   the windows that the rounds may ask for (Answers) and those that they are answered (Windows).
-- - Database and its children: the tables (internal/db/sqlcgen/models.go) and the statements
--   (internal/db/sqlcgen/queries.sql.go), and the insertion of `bulkUpsertRates`.
-- - World: the state of a run, and an oracle for each act of the outside: the clock, the context, a
--   failing statement, the upstream's answer. Each interaction takes one tick, so a theorem for every
--   oracle covers every interleaving of failures; two fields that the program lacks keep the events and
--   the answered requests. World/Frame: what an action leaves alone.
-- - Ecb: internal/provider/adapters/ecb.go, over a parameter for the HTTP client and one for the reader
--   of a CSV line. Sound holds the proofs, Examples runs a small response.
-- - Registry: internal/registry/registry.go. Repo: internal/repo/repo.go and coverage.go; Coverage holds
--   the proofs on the summaries.
-- - Scheduler: internal/scheduler/backfill.go. Start chooses the start (`getStartDate`,
--   `adjustStartForMode`), Batch is `processBatch`, Backfill is `BackfillProvider`, Entry is
--   `backfillEntry` and `BackfillAll`, Heartbeat its log lines on the running provider.
-- - Validator: internal/validator/validator.go. Client is `ReferenceClient` with its cache, Run is
--   `Validate`; the service is an oracle of its answers.
-- - Seed: internal/db/seed.go over the statements on providers.
-- - Config: internal/config/config.go, with the database URL in Url; DotEnv is internal/config/dotenv.go.
-- - Migrations: internal/db/migrate.go. Pool: internal/db/postgres.go.
-- - Main: the exit code of main.go; Run is its `run`. Redact: `redactDSN` of main.go and
--   cmd/fx-migrate/main.go. FxMigrate: `main` of cmd/fx-migrate.
-- - FxValidate: cmd/fx-validate/main.go, over FetchRatesForValidation (Database/Rates/Validation,
--   whose Filters states its filters and its order) and
--   the validator; Csv is `writeCSV`, Path is `outputWriter`.
-- - Examples: runs on sample data, and the theorems applied to them.
--
-- Bounds and fuel: the outer loop of `FetchEachObserved` runs on one unit of fuel for each day from
-- the cursor to today and two more, since each round with an end moves the cursor a day or more; the
-- retry loop runs on `max_retries` and one units. Counters are unbounded numbers in memory and wrap to
-- 32 bits where `recordSyncRun` casts them.
--
-- Not modelled: the order in which `INSERT ... SELECT` takes the staged rows, which SQL leaves open (it
-- is that of the COPY here, and the theorems on the stored rates as a map do not depend on it), a COMMIT
-- that takes effect although its answer is lost, Postgres and HTTP beyond the statements and the
-- oracles, envconfig, golang-migrate and
-- pgxpool beyond their parameters, the parsing of flags, the log lines of `run`, of the summary and on
-- `sslmode=disable`, when the heartbeat ticks, the length of a backoff, the embedded directories of
-- seed files and migrations beyond their entries, and what `strings`, `encoding/csv` and `regexp` do
-- beyond ASCII.
pub mod Prelude
pub mod Clock
pub mod Number
pub mod Float64
pub mod Errors
pub mod Provider
pub mod Sorting
pub mod Scanner
pub mod Strings
pub mod Validator
pub mod Database
pub mod World
pub mod Config
pub mod Ecb
pub mod Redact
pub mod FxValidate
pub mod Registry
pub mod Repo
pub mod Scheduler
pub mod Seed
pub mod Migrations
pub mod Pool
pub mod FxMigrate
pub mod Main
pub mod Examples
