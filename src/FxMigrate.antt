-- ===== src/FxMigrate.antt =====
-- `main` of cmd/fx-migrate/main.go, after its flags: the exit code, what it prints on the standard
-- error, and the schema.
use fx_rates.Prelude.{ℕ, Bool, true, false, Text, codes, ◌++◌, Option, none, some}
use fx_rates.Errors.{Error, message, Result, ok, err}
use fx_rates.Config.{Config}
use fx_rates.Migrations.{MigrateLibrary, run_migrations, rollback_migration}
use fx_rates.Redact.{redact_dsn}

module _ {S : Type 0} where
  abbrev ended : Text → Text → Option Error × S → ℕ × Text × S
  ended failure success (some e, s) = (1, failure ++ redact_dsn (message e), s)
  ended failure success (none, s) = (0, success, s)

  unfoldable pub fx_migrate : MigrateLibrary S → Bool → Result Config → S → ℕ × Text × S
  unfolding run_migrations rollback_migration redact_dsn message
  fx_migrate lib down (err e) s = (1, message e, s)
  fx_migrate lib true (ok cfg) s =
      ended (codes "rollback failed: ") (codes "rolled back one migration")
        (rollback_migration lib cfg.database_url s)
  fx_migrate lib false (ok cfg) s =
      ended (codes "migrations failed: ") (codes "migrations applied")
        (run_migrations lib cfg.database_url s)
