-- ===== src/Main/Run/Steps.antt =====
-- The steps of `run`: how far it came and what it left.
use fx_rates.Prelude.{◌≡◌, refl, ◌⊎◌, inl, inr, Option, none, some, ℕ}
use fx_rates.Number.{ℤ}
use fx_rates.Float64.{Float64}
use fx_rates.Errors.{Error, Result, ok, err}
use fx_rates.Config.{Config, daily_sync_timeout_duration, debug_heartbeat_duration}
use fx_rates.Pool.{new_pool}
use fx_rates.World.{World}
use fx_rates.Seed.{seed}
use fx_rates.Seed.Sound.{untouched_view, seed-Keeps}
use fx_rates.Main.Run.{
  Process, Host, pool_options, sync_job, after_seed, after_pool, after_migrations, migrations_of,
  after_heartbeat, after_timeout, after_config, run,
}

module _ {S F : Type 0} ⦃fl : Float64 F⦄ (u : Host S F) where
  -- The process exits with 1, and the rates, the currencies, the audit rows and the metrics are as
  -- they were.
  abbrev pub IsRefused : World F → ℕ × Process S F → Type 0
  IsRefused w r = (r.0 ≡ 1) × (untouched_view r.1.world ≡ untouched_view w)

  -- The providers were seeded and the result is that of the job.
  abbrev pub IsSeeded : Config → S → World F → ℕ × Process S F → Type 0
  IsSeeded cfg schema w r =
      (w' : World F) × (seed u.oracles u.seeds w ≡ (ok tt, w')) × (r ≡ sync_job u cfg schema w')

  -- Migrations, pool and seed in this order.
  abbrev pub IsSetUp : Config → S → World F → ℕ × Process S F → Type 0
  IsSetUp cfg schema w r =
      (schema' : S) × (migrations_of u cfg schema ≡ (none, schema'))
      × (new_pool u.pool cfg.database_url (pool_options cfg) ≡ none)
      × IsSeeded cfg schema' w r

  abbrev pub IsStarted : Config → Process S F → ℕ × Process S F → Type 0
  IsStarted cfg p r =
      (timeout : ℤ) × (daily_sync_timeout_duration u.parse_duration cfg ≡ ok timeout)
      × (interval : ℤ) × (debug_heartbeat_duration u.parse_duration cfg ≡ ok interval)
      × IsSetUp cfg p.schema p.world r

  after_seed_steps :
      (cfg : Config) (schema : S) (w : World F) (r : Result (Unit {0}) × World F)
      → untouched_view r.1 ≡ untouched_view w
      → ((w' : World F) × (r ≡ (ok tt, w'))
          × (after_seed u cfg schema r ≡ sync_job u cfg schema w'))
        ⊎ IsRefused w (after_seed u cfg schema r)
  after_seed_steps cfg schema w (err e, w') h = inr (refl, h)
  after_seed_steps cfg schema w (ok v, w') h = inl (w', refl, refl)

  after_pool_steps :
      (cfg : Config) (schema : S) (w : World F) (e : Option Error)
      → ((e ≡ none) × IsSeeded cfg schema w (after_pool u cfg schema w e))
        ⊎ IsRefused w (after_pool u cfg schema w e)
  after_pool_steps cfg schema w (some e) = inr (refl, refl)
  after_pool_steps cfg schema w none =
      elim (after_seed_steps cfg schema w (seed u.oracles u.seeds w)
        (seed-Keeps u.oracles u.seeds w)) [
          | inl seeded ↦ inl (refl, seeded)
          | inr refused ↦ inr refused
        ]

  after_migrations_steps :
      (cfg : Config) (w : World F) (r : Option Error × S)
      → ((schema : S) × (r ≡ (none, schema))
          × (new_pool u.pool cfg.database_url (pool_options cfg) ≡ none)
          × IsSeeded cfg schema w (after_migrations u cfg w r))
        ⊎ IsRefused w (after_migrations u cfg w r)
  after_migrations_steps cfg w (some e, schema) = inr (refl, refl)
  after_migrations_steps cfg w (none, schema) =
      elim (after_pool_steps cfg schema w (new_pool u.pool cfg.database_url (pool_options cfg))) [
        | inl (pool, seeded) ↦ inl (schema, refl, pool, seeded)
        | inr refused ↦ inr refused
      ]

  after_heartbeat_steps :
      (cfg : Config) (p : Process S F) (r : Result ℤ)
      → ((interval : ℤ) × (r ≡ ok interval)
          × IsSetUp cfg p.schema p.world (after_heartbeat u cfg p r))
        ⊎ IsRefused p.world (after_heartbeat u cfg p r)
  after_heartbeat_steps cfg p (err e) = inr (refl, refl)
  after_heartbeat_steps cfg p (ok interval) =
      elim (after_migrations_steps cfg p.world (migrations_of u cfg p.schema)) [
        | inl set_up ↦ inl (interval, refl, set_up)
        | inr refused ↦ inr refused
      ]

  after_timeout_steps :
      (cfg : Config) (p : Process S F) (r : Result ℤ)
      → ((timeout : ℤ) × (r ≡ ok timeout)
          × (interval : ℤ) × (debug_heartbeat_duration u.parse_duration cfg ≡ ok interval)
          × IsSetUp cfg p.schema p.world (after_timeout u cfg p r))
        ⊎ IsRefused p.world (after_timeout u cfg p r)
  after_timeout_steps cfg p (err e) = inr (refl, refl)
  after_timeout_steps cfg p (ok timeout) =
      elim (after_heartbeat_steps cfg p (debug_heartbeat_duration u.parse_duration cfg)) [
        | inl (interval, e, set_up) ↦ inl (timeout, refl, interval, e, set_up)
        | inr refused ↦ inr refused
      ]

  after_config_steps :
      (r : Result Config) (p : Process S F)
      → ((cfg : Config) × (r ≡ ok cfg) × IsStarted cfg p (after_config u p r))
        ⊎ IsRefused p.world (after_config u p r)
  after_config_steps (err e) p = inr (refl, refl)
  after_config_steps (ok cfg) p =
      elim (after_timeout_steps cfg p (daily_sync_timeout_duration u.parse_duration cfg)) [
        | inl started ↦ inl (cfg, refl, started)
        | inr refused ↦ inr refused
      ]

  -- A run either ends in the result of the sync job, on the seeded world, once the configuration,
  -- both durations, the migrations if they are asked for, the pool and the seed have been fine; or it
  -- exits with 1, whether or not a signal has come, and no rate, currency, audit row or metric changes.
  pub run_steps :
      (r : Result Config) (p : Process S F)
      → ((cfg : Config) × (r ≡ ok cfg) × IsStarted cfg p (run u r p))
        ⊎ IsRefused p.world (run u r p)
  unfolding run
  run_steps = after_config_steps
