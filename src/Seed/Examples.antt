-- ===== src/Seed/Examples.antt =====
-- The seed files of a small directory, and a run whose provider is unavailable.
use fx_rates.Prelude.{
  ◌≡◌, ◌≢◌, ◌↔◌, ◌+◌, refl, true, false, Text, codes, List, [], ◌∷◌, none, some, text_eq,
  if◌then◌else◌, length,
}
use fx_rates.Clock.{day, unix_epoch}
use fx_rates.Number.{pos}
use fx_rates.Float64.{Sample}
use fx_rates.Errors.{ok, err, other}
use fx_rates.Database.{Provider, empty_db}
use fx_rates.Database.Providers.{upsert_provider}
use fx_rates.World.{World, Oracles, start_world}
use fx_rates.Scheduler.{Options, BackfillResult, Status}
use fx_rates.Scheduler.Backfill.{initial_result}
use fx_rates.Scheduler.Entry.{after_backfill}
use fx_rates.Main.{resolve_exit_code, job_options}
use fx_rates.Main.Exit.{exit_code-zero}
use fx_rates.Seed.{ProviderSeed, SeedFile, seed}
use fx_rates.Seed.Sound.{get_provider, upsert_provider_lem, untouched_view, seed-Keeps}

abbrev pub oracles : Oracles Sample
oracles = record {
  now = λ n. unix_epoch;
  ctx_err = λ n. none;
  ctx_wins = λ n. false;
  fault = λ n. none;
  upstream = λ n from upto. ok [];
}

abbrev ecb_seed : ProviderSeed
ecb_seed = record {
  key = codes "ECB";
  name = codes "European Central Bank";
  country_code = none;
  rate_type = none;
  pivot_currency = none;
  data_url = none;
  terms_url = none;
  publish_time = some (pos 16);
  publish_days = none;
  coverage_start = some (codes "1999-01-04");
}

abbrev pub files : List SeedFile
files =
    record { name = codes "ecb.json"; is_dir = false; decoded = ok ecb_seed }
    ∷ record { name = codes "notes.txt"; is_dir = false; decoded = err (other (codes "no JSON")) }
    ∷ []

abbrev row : Text → Provider
row key = record {
  key = key;
  name = [];
  country_code = none;
  rate_type = none;
  pivot_currency = none;
  data_url = none;
  terms_url = none;
  publish_time = none;
  publish_days = none;
  coverage_start = record { time = unix_epoch; valid = true };
}

abbrev world : World Sample
world = start_world (record empty_db { providers = row (codes "OLD") ∷ [] })

-- The stale provider is removed, the one of the JSON file is added, the other file is skipped.
seeds_one : length (seed oracles files world).1.db.providers ≡ 1
unfolding seed fx_rates.World.statement text_eq fx_rates.Seed.parse_coverage_start
    fx_rates.Clock.Civil.parse_date fx_rates.World.query upsert_provider
    fx_rates.Database.Providers.delete_stale_providers fx_rates.Database.Providers.is_known
seeds_one = refl

seed-Keeps_example : untouched_view (seed oracles files world).1 ≡ untouched_view world
seed-Keeps_example = seed-Keeps oracles files world

upsert_provider_lem_example :
    get_provider (codes "OLD") (upsert_provider (row (codes "NEW")) (row (codes "OLD") ∷ [])) ≡ (
      if text_eq (codes "NEW") (codes "OLD")
      then some (row (codes "NEW"))
      else get_provider (codes "OLD") (row (codes "OLD") ∷ []))
upsert_provider_lem_example =
    upsert_provider_lem (row (codes "NEW")) (row (codes "OLD") ∷ []) (codes "OLD")

abbrev options : Options
options = job_options false true (pos 7)

abbrev unavailable_result : BackfillResult
unavailable_result = record (initial_result (codes "ECB") none) {
  status = some Status.unavailable;
  unavailable = true;
  error = codes "down";
}

exit_code-zero_example :
    (resolve_exit_code false
        (after_backfill oracles options (codes "ECB") unix_epoch (unavailable_result, world)).0
      ≡ 0)
    ↔ ((false ≡ false)
        × (oracles.ctx_err (world.tick + 1) ≡ none)
        × (unavailable_result.status ≢ some Status.error))
exit_code-zero_example =
    exit_code-zero oracles options (codes "ECB") unix_epoch unavailable_result world false tt
