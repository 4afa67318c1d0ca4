-- ===== src/Main/Run/Examples.antt =====
-- A run on an empty database whose upstream has no records, one whose pool is refused, and a batch.
use fx_rates.Prelude.{
  ◌%◌, Bool-cases, inl, inr, arith, ◌==◌, if◌then◌else◌, ◌≡◌, refl, true, false, Text, codes, List,
  [], ◌∷◌, Option, none, some, ◌+◌, map, ◌⊎◌, ℕ, length,
}
use fx_rates.Clock.{unix_epoch}
use fx_rates.Number.{pos}
use fx_rates.Float64.{Sample, milli, samples}
use fx_rates.Errors.{err, http_status, Error, ok, other}
use fx_rates.Provider.{is_transient, Record}
use fx_rates.Database.{Db, empty_db}
use fx_rates.Config.{Config}
use fx_rates.Config.Examples.{loaded}
use fx_rates.Migrations.{MigrateLibrary, applied, no_change, refused}
use fx_rates.Pool.{PoolLibrary}
use fx_rates.World.{Oracles, World, start_world}
use fx_rates.Seed.Examples.{oracles, files}
use fx_rates.Scheduler.Batch.{bulk_upsert_rates, rate_row}
use fx_rates.Scheduler.Batch.Refine.{IsFirstWrite, bulk_upsert_rates-IsFirstWrite}
use fx_rates.Main.{job_options}
use fx_rates.Scheduler.Entry.{backfill_all}
use fx_rates.Scheduler.Entry.Live.{backfill_all-returns_nil}
use fx_rates.Scheduler.Live.{IsHealthy}
use fx_rates.FxMigrate.{fx_migrate}
use fx_rates.Main.Run.{Process, Host, run}
use fx_rates.Main.Run.Steps.{IsStarted, IsRefused, run_steps}

-- A schema is the number of its migrations; three are embedded.
abbrev library : MigrateLibrary ℕ
library = record {
  sub = none;
  source = none;
  init = λ url. none;
  up = λ s. (if s == 3 then no_change else applied, 3);
  down = λ s. (refused (other (codes "postgres://fx:secret@db/rates: no such file")), s);
}

abbrev pool : Option Error → PoolLibrary
pool e = record {
  parse = λ url. ok (record {
    max_conns = pos 4;
    min_conns = pos 0;
    max_conn_lifetime = pos 3600;
    max_conn_idle_time = pos 1800;
    health_check_period = pos 60;
  });
  connect = λ options. none;
  ping = λ options. e;
}

abbrev host_with : Option Error → Host ℕ Sample
host_with e = record {
  parse_duration = λ t. ok (pos 20_000_000_000);
  migrate = library;
  pool = pool e;
  seeds = files;
  oracles = oracles;
  signalled = false;
}

abbrev process : Process ℕ Sample
process = record { schema = 2; world = start_world empty_db }

run_steps_example :
    ((cfg : Config) × (ok loaded ≡ ok cfg)
      × IsStarted (host_with none) cfg process (run (host_with none) (ok loaded) process))
    ⊎ IsRefused (host_with none) process.world (run (host_with none) (ok loaded) process)
run_steps_example = run_steps (host_with none) (ok loaded) process

run_ends : (run (host_with none) (ok loaded) process).0 ≡ 0
unfolding run fx_rates.Prelude.text_eq fx_rates.Strings.trim_space fx_rates.World.statement
    fx_rates.Seed.parse_coverage_start fx_rates.Clock.Civil.parse_date fx_rates.World.query
    fx_rates.Registry.all fx_rates.Scheduler.Entry.backfill_entry fx_rates.Repo.load_all
    fx_rates.Repo.get_all_last_synced fx_rates.Scheduler.Backfill.backfill_provider
    fx_rates.Scheduler.Start.is_up_to_date fx_rates.Scheduler.Start.get_start_date
    fx_rates.Database.Rates.get_all_last_synced fx_rates.Database.Providers.delete_stale_providers
    fx_rates.Database.Providers.list_providers fx_rates.Database.Providers.upsert_provider
    fx_rates.Database.Providers.is_known fx_rates.Scheduler.Entry.after_backfill
    fx_rates.Scheduler.Entry.summarize fx_rates.Scheduler.Entry.record_sync_run
    fx_rates.Main.resolve_exit_code fx_rates.Scheduler.Entry.emit_provider_metric
    fx_rates.Sorting.sort_by
run_ends = refl

run_is_refused :
    run (host_with (some (other (codes "refused")))) (ok loaded) process
    ≡ (1, record process { schema = 3 })
unfolding run fx_rates.Prelude.text_eq fx_rates.Strings.trim_space
run_is_refused = refl

prints_no_secret :
    fx_migrate library true (ok loaded) 3
    ≡ (1, codes "rollback failed: migrate: postgres://***:***@db/rates: no such file", 3)
unfolding fx_migrate
prints_no_secret = refl

abbrev usd : ℕ → Record Sample
usd rate = record {
  date = unix_epoch;
  base = codes "EUR";
  quote = codes "USD";
  rate = milli rate;
  provider = codes "ECB";
}

-- Two rates under one key, of which one is stored.
abbrev batch : List (Record Sample)
batch = usd 1100 ∷ usd 1200 ∷ []

bulk_upsert_rates-IsFirstWrite_example :
    IsFirstWrite batch process.world
      (rate_row (usd 1))
      (bulk_upsert_rates oracles batch process.world)
bulk_upsert_rates-IsFirstWrite_example =
    bulk_upsert_rates-IsFirstWrite oracles batch process.world (rate_row (usd 1))

-- Every fourth tick the upstream answers 503.
abbrev flaky : Oracles Sample
flaky = record oracles {
  upstream = λ n from upto. if n % 4 == 0 then err (http_status 503 []) else ok (usd 1100 ∷ []);
}

busy_is_transient : is_transient (http_status 503 []) ≡ true
unfolding is_transient
busy_is_transient = refl

flaky-IsHealthy : IsHealthy flaky
flaky-IsHealthy = record {
  alive = λ n. refl;
  waits = λ n. refl;
  served = λ n. refl;
  recovers = λ n from upto. elim (Bool-cases (n % 4 == 0)) [
    | inl failing ↦ (1, usd 1100 ∷ [], omega arith, ground arith)
    | inr fine ↦ (0, usd 1100 ∷ [], omega arith, ground arith)
  ];
  transient = λ n from upto e h. ground (arith, busy_is_transient);
  fitting = λ n from upto records h. ground arith;
}

backfill_all-returns_nil_example :
    (backfill_all flaky (job_options true false (pos 0)) process.world).0 ≡ none
backfill_all-returns_nil_example =
    backfill_all-returns_nil flaky flaky-IsHealthy (job_options true false (pos 0)) process.world
