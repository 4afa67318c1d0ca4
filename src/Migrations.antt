-- ===== src/Migrations.antt =====
-- internal/db/migrate.go. golang-migrate, the embedded files and the schema are parameters.
use fx_rates.Prelude.{Text, codes, [], ◌∷◌, ◌++◌, Option, none, some, ◌==◌, if◌then◌else◌}
use fx_rates.Errors.{Error, wrapped}

-- How a call of `m.Up` or `m.Steps` ends; `no_change` is `migrate.ErrNoChange`.
pub data Applied : Type 0 where
  applied no_change : Applied
  refused : Error → Applied

-- The library on schemas `S`.
pub record MigrateLibrary (S : Type 0) : Type 0 where
  -- `fs.Sub` and `iofs.New`
  pub sub : Option Error
  pub source : Option Error
  -- `migrate.NewWithSourceInstance`
  pub init : Text → Option Error
  -- `m.Up()` and `m.Steps(-1)`
  pub up : S → Applied × S
  pub down : S → Applied × S

-- `u[len(prefix):]` of a text with the prefix.
abbrev pub without_prefix : Text → Text → Option Text
without_prefix [] u = some u
without_prefix (c ∷ prefix) [] = none
without_prefix (c ∷ prefix) (d ∷ u) =
    let rest = without_prefix prefix u in if c == d then rest else none

-- `toPgxURL`
unfoldable pub to_pgx_url : Text → Text
to_pgx_url u = elim (without_prefix (codes "postgresql://") u) [
  | some rest ↦ codes "pgx5://" ++ rest
  | none ↦ elim (without_prefix (codes "postgres://") u) [
    | some rest ↦ codes "pgx5://" ++ rest
    | none ↦ u
  ]
]

module _ {S : Type 0} where
  abbrev pub after_apply : Applied × S → Option Error × S
  after_apply (applied, s) = (none, s)
  after_apply (no_change, s) = (none, s)
  after_apply (refused e, s) = (some (wrapped (codes "migrate: ") e), s)

  abbrev pub after_init : (S → Applied × S) → S → Option Error → Option Error × S
  after_init f s (some e) = (some (wrapped (codes "migrate init: ") e), s)
  after_init f s none = after_apply (f s)

  abbrev pub after_source : (S → Applied × S) → S → Option Error → Option Error → Option Error × S
  after_source f s (some e) init = (some (wrapped (codes "migrate source: ") e), s)
  after_source f s none init = after_init f s init

  -- `runMigrations`
  unfoldable pub migrate_with : MigrateLibrary S → Text → (S → Applied × S) → S → Option Error × S
  unfolding to_pgx_url
  migrate_with lib url f s = elim lib.sub [
    | some e ↦ (some (wrapped (codes "migrate fs: ") e), s)
    | none ↦ after_source f s lib.source (lib.init (to_pgx_url url))
  ]

  -- `RunMigrations`
  unfoldable pub run_migrations : MigrateLibrary S → Text → S → Option Error × S
  unfolding migrate_with
  run_migrations lib url = migrate_with lib url lib.up

  -- `RollbackMigration`
  unfoldable pub rollback_migration : MigrateLibrary S → Text → S → Option Error × S
  unfolding migrate_with
  rollback_migration lib url = migrate_with lib url lib.down
