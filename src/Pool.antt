-- ===== src/Pool.antt =====
-- internal/db/postgres.go. The settings and the pool of pgxpool are parameters.
use fx_rates.Prelude.{zero, suc, Text, Option, none, some}
use fx_rates.Number.{ℤ, pos, negsuc}
use fx_rates.Errors.{Error, Result, ok, err}

-- `PoolOptions`, and the fields of `pgxpool.Config` that they override.
pub record PoolOptions : Type 0 where
  pub max_conns : ℤ
  pub min_conns : ℤ
  pub max_conn_lifetime : ℤ
  pub max_conn_idle_time : ℤ
  pub health_check_period : ℤ

-- `pgxpool.ParseConfig`, `pgxpool.NewWithConfig` and the first `Ping`.
pub record PoolLibrary : Type 0 where
  pub parse : Text → Result PoolOptions
  pub connect : PoolOptions → Option Error
  pub ping : PoolOptions → Option Error

-- `if opts.… > 0`
abbrev override : ℤ → ℤ → ℤ
override (pos (suc n)) default = pos (suc n)
override (pos zero) default = default
override (negsuc n) default = default

unfoldable pub apply_options : PoolOptions → PoolOptions → PoolOptions
apply_options opts config = record {
  max_conns = override opts.max_conns config.max_conns;
  min_conns = override opts.min_conns config.min_conns;
  max_conn_lifetime = override opts.max_conn_lifetime config.max_conn_lifetime;
  max_conn_idle_time = override opts.max_conn_idle_time config.max_conn_idle_time;
  health_check_period = override opts.health_check_period config.health_check_period;
}

abbrev after_connect : PoolLibrary → PoolOptions → Option Error → Option Error
after_connect lib config (some e) = some e
after_connect lib config none = lib.ping config

abbrev after_parse : PoolLibrary → PoolOptions → Result PoolOptions → Option Error
after_parse lib opts (err e) = some e
after_parse lib opts (ok config) =
    let config' = apply_options opts config in after_connect lib config' (lib.connect config')

-- The error of `NewPool`, if there is one.
unfoldable pub new_pool : PoolLibrary → Text → PoolOptions → Option Error
unfolding apply_options
new_pool lib url opts = after_parse lib opts (lib.parse url)
