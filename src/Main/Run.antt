-- ===== src/Main/Run.antt =====
-- `run` of main.go after `config.Bootstrap`: the steps of the set-up, then the sync job. What the
-- libraries do at migrations and pool is a parameter, like `time.ParseDuration`.
pub mod Examples
pub mod Steps
use fx_rates.Prelude.{ℕ, Bool, true, false, Text, List, Option, none, some}
use fx_rates.Number.{ℤ, pos}
use fx_rates.Float64.{Float64}
use fx_rates.Errors.{Error, Result, ok, err}
use fx_rates.Config.{Config, is_daily_sync, daily_sync_timeout_duration, debug_heartbeat_duration}
use fx_rates.Migrations.{MigrateLibrary, run_migrations}
use fx_rates.Pool.{PoolOptions, PoolLibrary, new_pool}
use fx_rates.World.{World, Oracles}
use fx_rates.Seed.{SeedFile, seed}
use fx_rates.Scheduler.Entry.{backfill_all}
use fx_rates.Main.{resolve_exit_code, job_options}

-- What the process acts on: the schema of the database and the world of the job.
pub record Process (S F : Type 0) : Type 0 where
  pub schema : S
  pub world : World F

pub record Host (S F : Type 0) : Type 0 where
  pub parse_duration : Text → Result ℤ
  pub migrate : MigrateLibrary S
  pub pool : PoolLibrary
  pub seeds : List SeedFile
  pub oracles : Oracles F
  -- whether a signal has come by the end
  pub signalled : Bool

abbrev pub pool_options : Config → PoolOptions
pool_options cfg = record {
  max_conns = cfg.db_max_conns;
  min_conns = cfg.db_min_conns;
  max_conn_lifetime = cfg.db_max_conn_lifetime;
  max_conn_idle_time = cfg.db_max_conn_idle_time;
  health_check_period = cfg.db_health_check_period;
}

module _ {S F : Type 0} ⦃fl : Float64 F⦄ (u : Host S F) where
  abbrev exit_with : S → Option Error × World F → ℕ × Process S F
  exit_with schema (e, w) = (resolve_exit_code u.signalled e, record { schema = schema; world = w })

  -- From "sync job started" on.
  unfoldable pub sync_job : Config → S → World F → ℕ × Process S F
  unfolding is_daily_sync backfill_all resolve_exit_code
  sync_job cfg schema w =
      exit_with schema (
        backfill_all u.oracles (job_options cfg.debug (is_daily_sync cfg) cfg.daily_sync_lookback)
          w)

  abbrev pub after_seed : Config → S → Result (Unit {0}) × World F → ℕ × Process S F
  after_seed cfg schema (err e, w) = (1, record { schema = schema; world = w })
  after_seed cfg schema (ok v, w) = sync_job cfg schema w

  abbrev pub after_pool : Config → S → World F → Option Error → ℕ × Process S F
  after_pool cfg schema w (some e) = (1, record { schema = schema; world = w })
  after_pool cfg schema w none = after_seed cfg schema (seed u.oracles u.seeds w)

  abbrev pub after_migrations : Config → World F → Option Error × S → ℕ × Process S F
  after_migrations cfg w (some e, schema) = (1, record { schema = schema; world = w })
  after_migrations cfg w (none, schema) =
      after_pool cfg schema w (new_pool u.pool cfg.database_url (pool_options cfg))

  abbrev pub migrations_of : Config → S → Option Error × S
  migrations_of cfg schema = elim cfg.run_migrations [
    | true ↦ run_migrations u.migrate cfg.database_url schema
    | false ↦ (none, schema)
  ]

  abbrev pub after_heartbeat : Config → Process S F → Result ℤ → ℕ × Process S F
  after_heartbeat cfg p (err e) = (1, p)
  after_heartbeat cfg p (ok interval) = after_migrations cfg p.world (migrations_of cfg p.schema)

  abbrev pub after_timeout : Config → Process S F → Result ℤ → ℕ × Process S F
  after_timeout cfg p (err e) = (1, p)
  after_timeout cfg p (ok timeout) =
      after_heartbeat cfg p (debug_heartbeat_duration u.parse_duration cfg)

  abbrev pub after_config : Process S F → Result Config → ℕ × Process S F
  after_config p (err e) = (1, p)
  after_config p (ok cfg) = after_timeout cfg p (daily_sync_timeout_duration u.parse_duration cfg)

  -- `run`
  unfoldable pub run : Result Config → Process S F → ℕ × Process S F
  unfolding sync_job seed run_migrations new_pool daily_sync_timeout_duration
      debug_heartbeat_duration
  run cfg p = after_config p cfg
